-- ===== src/Decode/Cache.antt =====
-- `decode_inst` and `decode_inst_slow` of include/decode.hpp and src/decode.cpp: the two-way cache of
-- decoded instructions, before the tables that `build_lut` filled. Parameters are the
-- function of an instruction, which the decoder only carries, and the processor's `_pext_u32`. `none` is
-- the null pointer.
pub mod Transparent
use rv64_vm.Prelude.{
  ℕ, zero, suc, ◌+◌, ◌-◌, ◌*◌, ◌/◌, ◌%◌, ◌^◌, bit_and, Bool, true, false, not, ◌&&◌, Option, none,
  some, ◌==◌, if◌then◌else◌, update, u64, bit, ◌>>>◌,
}
use rv64_vm.Hart.State.{InstructionData}
use rv64_vm.Decode.Fields.{d_rd, d_rs1, d_rs2, d_rs3, d_rm}

module _ (F : Type 0) where
  -- `imm_decode_func`, or no function.
  pub record Instruction : Type 0 where
    pub mask : ℕ
    pub match : ℕ
    pub func : F
    pub imm_decode_func : Option (ℕ → ℕ)
    pub size : ℕ

  pub record InstructionCache : Type 0 where
    pub pc : ℕ
    pub inst : Option Instruction
    pub bytes : InstructionData
    pub cache_gen : ℕ
    pub smc_gen : ℕ

  pub record CacheSet : Type 0 where
    pub ways : ℕ → InstructionCache
    pub victim : ℕ

  pub record Decoder : Type 0 where
    pub lut : ℕ → Option Instruction
    pub lut16 : ℕ → Option Instruction
    pub cache : ℕ → CacheSet
    pub cache_generation : ℕ

  pub record Decoded : Type 0 where
    pub decoder : Decoder
    pub entry : InstructionCache

-- `(pc >> 2) & (CACHE_SIZE - 1)`
abbrev pub cache_index : ℕ → ℕ
cache_index pc = (pc >>> 2) % 2 ^ 18

module _ (F : Type 0) (pext_u32 : ℕ → ℕ → ℕ) where
  -- The candidate that the two tables hold.
  unfoldable pub looked_up : Decoder F → ℕ → Option (Instruction F)
  looked_up d inst =
      let wide = d.lut (pext_u32 inst 0xfff0707f) in
      if not (inst % 4 == 3)
      then elim (d.lut16 (pext_u32 (inst % 2 ^ 16) 0xffff)) [
        | none ↦ wide
        | some short ↦ some short
      ]
      else wide

  -- It must also match.
  unfoldable pub found : Decoder F → ℕ → Option (Instruction F)
  found d inst = elim (looked_up d inst) [
    | none ↦ none
    | some i ↦ if bit_and inst i.mask == i.match then some i else none
  ]

  unfoldable pub make_data : Decoder F → ℕ → InstructionData
  make_data d inst = record {
    rs3 = d_rs3 inst;
    rm = d_rm inst;
    rs1 = d_rs1 inst;
    rs2 = d_rs2 inst;
    rd = d_rd inst;
    inst = inst;
    imm = elim (found d inst) [
      | none ↦ 0
      | some i ↦ elim (i.imm_decode_func) [ none ↦ 0 | some decode ↦ decode inst ]
    ];
    size = if not (inst % 4 == 3) then 2 else 4;
  }

  -- `epoch` is `g_smc_epoch`. An entry that is not found keeps its `smc_gen`.
  unfoldable pub decode_inst_slow : Decoder F → ℕ → ℕ → ℕ → Decoded F
  decode_inst_slow d epoch pc inst =
      let set = d.cache (cache_index pc) in
      let old = set.ways set.victim in
      let entry : InstructionCache F = elim (found d inst) [
        | some i ↦ record {
          pc = pc;
          inst = some i;
          bytes = make_data d inst;
          cache_gen = d.cache_generation;
          smc_gen = epoch;
        }
        | none ↦ record {
          pc = 0;
          inst = none;
          bytes = make_data d inst;
          cache_gen = 0;
          smc_gen = old.smc_gen;
        }
      ] in
      record {
        decoder = record d {
          cache =
              update d.cache (cache_index pc)
                (record { ways = update set.ways set.victim entry; victim = 1 - set.victim });
        };
        entry = entry;
      }

  abbrev pub hits : Decoder F → ℕ → ℕ → ℕ → InstructionCache F → Bool
  hits d epoch pc inst e =
      e.pc == pc && e.bytes.inst == inst && e.cache_gen == d.cache_generation && e.smc_gen == epoch

  unfoldable pub decode_inst : Decoder F → ℕ → ℕ → ℕ → Decoded F
  decode_inst d epoch pc inst =
      let set = d.cache (cache_index pc) in
      if hits d epoch pc inst (set.ways 0)
      then record { decoder = d; entry = set.ways 0 }
      else if hits d epoch pc inst (set.ways 1)
      then record { decoder = d; entry = set.ways 1 }
      else decode_inst_slow d epoch pc inst

  -- `Hart::clear_decode_cache`
  unfoldable pub clear_decode_cache : Decoder F → Decoder F
  clear_decode_cache d = record d { cache_generation = u64 (d.cache_generation + 1) }
