-- ===== src/Block/Built.antt =====
-- The shape of the blocks that src/block.cpp builds.
use rv64_vm.Prelude.{
  ℕ, ◌+◌, ◌/◌, ◌%◌, ◌≤◌, ◌<◌, ◌≡◌, ◌⊎◌, refl, sym, arith, false, ==_self, ==_ne, update, dec_lt,
}
use mathlib.Core.Path.{subst}
use rv64_vm.Bits.Masks.{bit_and-mask}
use rv64_vm.Block.Shape.{is_block_end, poisons_x0, writes_reg}
use rv64_vm.Block.Cache.{Block, BlockInstr, block_max_insts}

-- An OP-IMM, OP, LUI, AUIPC, JAL, JALR or load, by bits 6 to 0 of its word.
abbrev pub HasListedOpcode : ℕ → Type 0
HasListedOpcode w =
    (w % 128 ≡ 0x13)
    ⊎ (w % 128 ≡ 0x33)
    ⊎ (w % 128 ≡ 0x37)
    ⊎ (w % 128 ≡ 0x17)
    ⊎ (w % 128 ≡ 0x6f)
    ⊎ (w % 128 ≡ 0x67)
    ⊎ (w % 128 ≡ 0x03)

-- It is none of these with destination x0 in bits 11 to 7. Other opcodes with that destination, such as
-- OP-IMM-32, are not meant.
abbrev pub KeepsX0 : ℕ → Type 0
KeepsX0 w = ¬ (HasListedOpcode w × (w / 128 % 32 ≡ 0))

clean-KeepsX0 : (w : ℕ) → poisons_x0 w ≡ false → KeepsX0 w
unfolding poisons_x0 writes_reg
clean-KeepsX0 w clean writes =
    ground (arith, clean, writes, bit_and-mask 7 w, bit_and-mask 2 w, bit_and-mask 5 (w / 128))

module _ {Code : Type 0} where
  -- The word of instruction `k`.
  abbrev pub word : Block Code → ℕ → ℕ
  word b k = (b.instrs k).bytes.inst

  -- The first `n` instructions, none of which is an excluded write of x0 or ends a block.
  pub record IsOpen (b : Block Code) (n : ℕ) : Type 0 where
    pub keeps_x0 : (k : ℕ) → k < n → KeepsX0 (word b k)
    pub goes_on : (k : ℕ) → k < n → is_block_end (word b k) ≡ false
    pub last : (k : ℕ) → k + 1 ≡ n → b.last_inst ≡ word b k

  -- `n` instructions, at most 16: none is an excluded write of x0, only the last can end a block, and
  -- `last_inst` is the word of the last.
  pub record IsBuilt (b : Block Code) (n : ℕ) : Type 0 where
    pub bounded : n ≤ block_max_insts
    pub keeps_x0 : (k : ℕ) → k < n → KeepsX0 (word b k)
    pub goes_on : (k : ℕ) → k + 1 < n → is_block_end (word b k) ≡ false
    pub last : (k : ℕ) → k + 1 ≡ n → b.last_inst ≡ word b k

  pub IsOpen-IsBuilt : {b : Block Code} {n : ℕ} → n ≤ block_max_insts → IsOpen b n → IsBuilt b n
  IsOpen-IsBuilt h o = record {
    bounded = h;
    keeps_x0 = o.keeps_x0;
    goes_on = λ k lt. o.goes_on k (omega arith);
    last = o.last;
  }

  unfoldable pub add_instr : Block Code → ℕ → BlockInstr Code → Block Code
  add_instr b n i = record b { instrs = update b.instrs n i; last_inst = i.bytes.inst }

  word_same :
      (b : Block Code) (n : ℕ) (i : BlockInstr Code) → word (add_instr b n i) n ≡ i.bytes.inst
  unfolding add_instr
  word_same b n i = rw (word, ==_self n) refl

  word_other :
      (b : Block Code) (n k : ℕ) (i : BlockInstr Code) → k < n → word (add_instr b n i) k ≡ word b k
  unfolding add_instr
  word_other b n k i h = rw (word, ==_ne n k (λ e. omega arith)) refl

  -- A property of the first `n` words, and of the new one.
  extend :
      (P : ℕ → Type 0) (b : Block Code) (n : ℕ) (i : BlockInstr Code)
      → ((k : ℕ) → k < n → P (word b k))
      → P (i.bytes.inst)
      → (k : ℕ) → k < n + 1
      → P (word (add_instr b n i) k)
  extend P b n i old new k h = elim (dec_lt k n) [
    | yes lt ↦ subst P (sym (word_other b n k i lt)) (old k lt)
    | no ge ↦
        let e : k ≡ n = omega arith in
        subst (λ j. P (word (add_instr b n i) j)) (sym e) (subst P (sym (word_same b n i)) new)
  ]

  last_word :
      (b : Block Code) (n : ℕ) (i : BlockInstr Code) (k : ℕ)
      → k + 1 ≡ n + 1
      → (add_instr b n i).last_inst ≡ word (add_instr b n i) k
  unfolding add_instr
  last_word b n i k h =
      let e : k ≡ n = omega arith in
      subst (λ j. i.bytes.inst ≡ word (add_instr b n i) j) (sym e) (sym (word_same b n i))

  -- One more instruction that does not poison x0.
  pub extended-IsBuilt :
      (b : Block Code) (n : ℕ) (i : BlockInstr Code)
      → n + 1 ≤ block_max_insts
      → IsOpen b n
      → poisons_x0 (i.bytes.inst) ≡ false
      → IsBuilt (add_instr b n i) (n + 1)
  extended-IsBuilt b n i h o clean = record {
    bounded = h;
    keeps_x0 = extend KeepsX0 b n i o.keeps_x0 (clean-KeepsX0 i.bytes.inst clean);
    goes_on = λ k lt.
        subst (λ x. is_block_end x ≡ false) (sym (word_other b n k i (omega arith)))
          (o.goes_on k (omega arith));
    last = last_word b n i;
  }

  pub extended-IsOpen :
      (b : Block Code) (n : ℕ) (i : BlockInstr Code)
      → IsOpen b n
      → poisons_x0 (i.bytes.inst) ≡ false
      → is_block_end (i.bytes.inst) ≡ false
      → IsOpen (add_instr b n i) (n + 1)
  extended-IsOpen b n i o clean on = record {
    keeps_x0 = extend KeepsX0 b n i o.keeps_x0 (clean-KeepsX0 i.bytes.inst clean);
    goes_on = extend (λ x. is_block_end x ≡ false) b n i o.goes_on on;
    last = last_word b n i;
  }

  pub nothing-IsOpen : (b : Block Code) → IsOpen b 0
  nothing-IsOpen b = record {
    keeps_x0 = λ k h. ground arith;
    goes_on = λ k h. ground arith;
    last = λ k h. ground arith;
  }

  -- The fields that the end of `compile_block` writes leave the words alone.
  pub sealed-IsBuilt :
      (b : Block Code) (n gen smc : ℕ)
      → IsBuilt b n
      → IsBuilt (record b { count = n; gen = gen; smc = smc }) n
  sealed-IsBuilt b n gen smc p = record {
    bounded = p.bounded;
    keeps_x0 = p.keeps_x0;
    goes_on = p.goes_on;
    last = p.last;
  }
