-- ===== src/Block/Compile.antt =====
-- `Hart::compile_block` and `run_block` of src/block.cpp, over an interface for what leaves the
-- runner: fetching an instruction (translation, memory, decoding), executing one, and the rest of the
-- interpreter.
use rv64_vm.Prelude.{
  ℕ, zero, suc, ◌+◌, ◌-◌, ◌*◌, ◌/◌, bit_and, not, ◌||◌, Option, none, some, ◌==◌, if◌then◌else◌,
  update, u64, not64, ltb,
}
use rv64_vm.Hart.State.{Hart, InstructionData, ExecReturn}
use rv64_vm.Mem.Access.{MemoryReturn}
use rv64_vm.Mem.SelfMod.{SelfMod, mark_page_executed}
use rv64_vm.Mem.Tlb.{note_exec}
use rv64_vm.Block.Shape.{is_block_end, poisons_x0}
use rv64_vm.Block.Cache.{Block, BlockCache, block_max_insts, compile_slot}

-- `World` is all that is shared outside the core, `Code` the function of a decoded instruction;
-- `entry_pc` is the `pc` of the decode cache's entry.
pub record Machine : Type 1 where
  pub World : Type 0
  pub Code : Type 0
  pub fetch : Hart → World → ℕ → record {
    hart : Hart;
    world : World;
    ret : MemoryReturn;
    entry_pc : ℕ;
    code : Code;
    bytes : InstructionData;
  }
  pub exec :
      Code
      → Hart
      → World
      → InstructionData
      → record { hart : Hart; world : World; out : ExecReturn }
  pub translate :
      Hart → World → ℕ → record { hart : Hart; world : World; ret : MemoryReturn; phys : ℕ }
  pub tick : Hart → World → Hart × World
  pub self_mod : World → SelfMod
  pub set_self_mod : World → SelfMod → World

module _ (m : Machine) where
  open m use {World, Code, fetch, self_mod, set_self_mod}

  -- The state of the loop: `count` instructions are in the block.
  pub record Built : Type 0 where
    pub hart : Hart
    pub world : World
    pub block : Block Code
    pub count : ℕ

  -- The `while` loop of `compile_block`, with room for `left` more instructions.
  unfoldable pub compile_from : ℕ → Hart → World → ℕ → ℕ → Block Code → Built
  compile_from zero h w pc_va n b = record { hart = h; world = w; block = b; count = n }
  compile_from (suc left) h w pc_va n b =
      let f = fetch h w pc_va in
      let inst = f.bytes.inst in
      let step = if bit_and inst 3 == 3 then 4 else 2 in
      let added = record b {
        instrs = update b.instrs n (record { inst = f.code; bytes = f.bytes; increase_pc = step });
        last_inst = inst;
      } in
      let rest = compile_from left f.hart f.world (u64 (pc_va + step)) (n + 1) added in
      if not f.ret.is_success || f.entry_pc == 0 || poisons_x0 inst
      then record { hart = f.hart; world = f.world; block = b; count = n }
      else if is_block_end inst
      then record { hart = f.hart; world = f.world; block = added; count = n + 1 }
      else rest

  -- The pages of the block's code, from `p` on: executed, and no longer writable through the TLB.
  unfoldable pub mark_pages : ℕ → ℕ → Hart → World → Hart × World
  mark_pages zero p h w = (h, w)
  mark_pages (suc left) p h w =
      mark_pages left (u64 (p + 0x1000)) (record h { tlb = note_exec h.tlb p })
        (set_self_mod w (mark_page_executed (self_mod w) p))

  abbrev pub page_of : ℕ → ℕ
  page_of pa = bit_and pa (not64 0xfff)

  -- `compile_block`; the block is built in its slot, which holds no valid one until it is done.
  unfoldable pub compile_block :
      Hart
      → World
      → BlockCache Code
      → ℕ
      → record { hart : Hart; world : World; cache : BlockCache Code; block : Option (Block Code) }
  compile_block h w bc start_phys =
      let slot = compile_slot start_phys in
      let b = record (bc.slots slot) { gen = 0; start_phys = start_phys } in
      let r = compile_from block_max_insts h w h.pc 0 b in
      let p0 = page_of start_phys in
      let p1 = page_of (u64 (start_phys + r.count * 4)) in
      let b' = record r.block {
        count = r.count;
        gen = bc.generation;
        smc = (self_mod r.world).epoch;
      } in
      let marked = mark_pages (if ltb p1 p0 then 0 else (p1 - p0) / 0x1000 + 1) p0 r.hart r.world in
      if r.count == 0
      then record {
        hart = r.hart;
        world = r.world;
        cache = record bc { slots = update bc.slots slot r.block };
        block = none;
      }
      else record {
        hart = marked.0;
        world = marked.1;
        cache = record bc { slots = update bc.slots slot b' };
        block = some b';
      }
