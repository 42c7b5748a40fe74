-- ===== src/Block/Valid.antt =====
-- What `compile_block` of src/block.cpp builds, and what the cache holds.
use rv64_vm.Prelude.{
  ℕ, zero, suc, ◌+◌, ◌≤◌, ◌≡◌, ◌⊎◌, inl, inr, refl, arith, Bool, true, false, not, ◌||◌, Option,
  none, some, if◌then◌else◌, Bool-cases, bit_and, ◌==◌, update, u64,
}
use rv64_vm.Hart.State.{Hart}
use rv64_vm.Block.Shape.{is_block_end, poisons_x0}
use rv64_vm.Block.Cache.{Block, BlockInstr, BlockCache, clear, compile_slot, block_max_insts}
use rv64_vm.Block.Compile.{Machine, compile_from, compile_block}
use rv64_vm.Block.Built.{
  IsOpen, IsBuilt, IsOpen-IsBuilt, add_instr, extended-IsBuilt, extended-IsOpen, nothing-IsOpen,
  sealed-IsBuilt,
}

module _ (m : Machine) where
  open m use {World, Code, fetch, self_mod}

  -- Does the loop stop before the instruction at `pc_va`?
  abbrev stopped : Hart → World → ℕ → Bool
  stopped h w pc_va =
      let f = fetch h w pc_va in not f.ret.is_success || f.entry_pc == 0 || poisons_x0 f.bytes.inst

  stopped-clean :
      (h : Hart) (w : World) (pc_va : ℕ)
      → stopped h w pc_va ≡ false
      → poisons_x0 (fetch h w pc_va).bytes.inst ≡ false
  stopped-clean h w pc_va e = ground arith

  -- The instruction that the loop adds.
  abbrev fetched : Hart → World → ℕ → BlockInstr Code
  fetched h w pc_va =
      let f = fetch h w pc_va in
      record {
        inst = f.code;
        bytes = f.bytes;
        increase_pc = if bit_and f.bytes.inst 3 == 3 then 4 else 2;
      }

  -- The loop of `compile_block` ends with a well-formed block, in a slot of the same generation.
  pub compile_from-IsBuilt :
      (left : ℕ) (h : Hart) (w : World) (pc_va n : ℕ) (b : Block Code)
      → n + left ≤ block_max_insts
      → IsOpen b n
      → IsBuilt (compile_from m left h w pc_va n b).block (compile_from m left h w pc_va n b).count
        × ((compile_from m left h w pc_va n b).block.gen ≡ b.gen)
  unfolding compile_from add_instr
  compile_from-IsBuilt zero h w pc_va n b room o = (IsOpen-IsBuilt (omega arith) o, refl)
  compile_from-IsBuilt (suc left) h w pc_va n b room o =
      let f = fetch h w pc_va in
      let i = fetched h w pc_va in
      elim (Bool-cases (stopped h w pc_va)) [
        | inl e ↦ rw (compile_from, e) (IsOpen-IsBuilt (omega arith) o, refl)
        | inr go ↦
            let clean = stopped-clean h w pc_va go in
            elim (Bool-cases (is_block_end f.bytes.inst)) [
              | inl e ↦
                  rw (compile_from, go, e) (extended-IsBuilt b n i (omega arith) o clean, refl)
              | inr e ↦
                  rw (compile_from, go, e)
                    (compile_from-IsBuilt left f.hart f.world (u64 (pc_va + i.increase_pc)) (n + 1)
                      (add_instr b n i) (omega arith) (extended-IsOpen b n i o clean e))
            ]
      ]

  -- A slot is empty or holds a well-formed block of at least one instruction.
  abbrev pub IsSlot : Block Code → Type 0
  IsSlot b = (b.gen ≡ 0) ⊎ ((1 ≤ b.count) × IsBuilt b b.count)

  abbrev pub IsValid : BlockCache Code → Type 0
  IsValid bc = (i : ℕ) → IsSlot (bc.slots i)

  update-IsSlot :
      (slots : ℕ → Block Code) (slot : ℕ) (b : Block Code)
      → ((i : ℕ) → IsSlot (slots i))
      → IsSlot b
      → (i : ℕ) → IsSlot (update slots slot b i)
  update-IsSlot slots slot b old new i = by_index (slot == i)
    where
      by_index : (c : Bool) → IsSlot (if c then b else slots i)
      by_index true = new
      by_index false = old i

  pub clear-IsValid : (bc : BlockCache Code) → IsValid bc → IsValid (clear bc)
  unfolding clear
  clear-IsValid bc valid = valid

  -- A block that a call may give: none, or a well-formed one.
  abbrev pub IsResult : Option (Block Code) → Type 0
  IsResult none = Unit
  IsResult (some b) = (1 ≤ b.count) × IsBuilt b b.count

  -- `compile_block` keeps every slot of the cache empty or well-formed, and the block that it
  -- returns is well-formed: 1 to 16 instructions; none is an OP-IMM, OP, LUI, AUIPC, JAL, JALR or load
  -- with destination x0; and at none but the last is `is_block_end` true.
  pub compile_block-IsValid :
      (h : Hart) (w : World) (bc : BlockCache Code) (start_phys : ℕ) (valid : IsValid bc)
      → IsValid (compile_block m h w bc start_phys).cache
        × IsResult (compile_block m h w bc start_phys).block
  unfolding compile_block
  compile_block-IsValid h w bc start_phys valid =
      let slot = compile_slot start_phys in
      let b = record (bc.slots slot) { gen = 0; start_phys = start_phys } in
      let r = compile_from m block_max_insts h w h.pc 0 b in
      let built =
        compile_from-IsBuilt block_max_insts h w h.pc 0 b (omega arith) (nothing-IsOpen b) in
      elim (Bool-cases (r.count == 0)) [
        | inl e ↦
            rw (compile_block, e) (update-IsSlot bc.slots slot r.block valid (inl built.1), tt)
        | inr e ↦
            let some_count : 1 ≤ r.count = ground arith in
            let sealed =
              sealed-IsBuilt r.block r.count bc.generation (self_mod r.world).epoch built.0 in
            rw (compile_block, e)
              (update-IsSlot bc.slots slot _ valid (inr (some_count, sealed)), (some_count, sealed))
      ]
