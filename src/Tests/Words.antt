-- ===== src/Tests/Words.antt =====
-- Instruction words.
use rv64_vm.Prelude.{
  none, some, ℕ, zero, suc, ◌+◌, ◌*◌, ◌/◌, ◌%◌, ◌^◌, ◌&&◌, ◌==◌, if◌then◌else◌, List, [], ◌∷◌, true,
  false, ◌≡◌, refl, arith, inl,
}
use mathlib.Core.List.{reverse}
use rv64_vm.Decode.Fields.{imm_i}
use rv64_vm.Decode.Cache.{Instruction, Decoder, decode_inst, found, looked_up, make_data}
use rv64_vm.Decode.Cache.Transparent.{IsCoherent, decode_inst_lem}
use rv64_vm.Decode.Pattern.{register_instr, put_char, put_chars, fits}
use rv64_vm.Decode.Pattern.Matching.{chars_fit, fits-register_instr}

-- The text `*01`
abbrev star_zero_one : List ℕ
star_zero_one = b'*' ∷ b'0' ∷ b'1' ∷ []

fits-register_instr_example :
    fits (register_instr star_zero_one) 5 ≡ chars_fit 5 0 (reverse star_zero_one)
fits-register_instr_example = fits-register_instr star_zero_one 5

-- The first character is free, the others are not.
star_zero_one-fits :
    (fits (register_instr star_zero_one) 5 ≡ true)
    × (fits (register_instr star_zero_one) 1 ≡ true)
    × (fits (register_instr star_zero_one) 3 ≡ false)
unfolding register_instr put_char put_chars
star_zero_one-fits = (refl, refl, refl)

-- `_pext_u32` on the low `n` bits.
pext_bits : ℕ → ℕ → ℕ → ℕ
pext_bits zero w m = 0
pext_bits (suc n) w m =
    let rest = pext_bits n (w / 2) (m / 2) in if m % 2 == 1 then rest * 2 + w % 2 else rest

abbrev pext : ℕ → ℕ → ℕ
pext w m = pext_bits 32 w m

-- A decoder whose tables know ADDI and C.ADDI4SPN, at the start: its cache is empty.
abbrev addi : Instruction ℕ
addi = record { mask = 0x707f; match = 0x13; func = 0; imm_decode_func = some imm_i; size = 4 }

abbrev addi4spn : Instruction ℕ
addi4spn = record { mask = 0xe003; match = 0; func = 1; imm_decode_func = none; size = 2 }

abbrev decoder0 : Decoder ℕ
decoder0 = record {
  lut = λ key. if pext 0x13 0xfff0707f == key then some addi else none;
  lut16 = λ key. if key % 4 == 0 && key / 2 ^ 13 == 0 then some addi4spn else none;
  cache = λ _. record {
    ways = λ _. record {
      pc = 0;
      inst = none;
      bytes = record { rs3 = 0; rm = 0; rs1 = 0; rs2 = 0; rd = 0; inst = 0; imm = 0; size = 4 };
      cache_gen = 0;
      smc_gen = 0;
    };
    victim = 0;
  };
  cache_generation = 0;
}

empty-IsCoherent : IsCoherent ℕ pext decoder0
unfolding IsCoherent
empty-IsCoherent i k = inl (refl, refl)

-- ADDI x1, x0, 0 at 0x80000000, which the tables know.
addi-found : found ℕ pext decoder0 0x00000093 ≡ some addi
unfolding found looked_up pext_bits
addi-found = refl

abbrev entry_pc : ℕ
entry_pc = 0x80000000

abbrev clear_ra : ℕ
clear_ra = 0x00000093

elsewhere : ¬ ((entry_pc ≡ 0) × (clear_ra ≡ 0))
elsewhere both = omega (arith, both.0)

decode_inst_lem_example :
    let r = decode_inst ℕ pext decoder0 0 entry_pc clear_ra in
    (r.entry.inst ≡ found ℕ pext decoder0 clear_ra)
    × (r.entry.bytes ≡ make_data ℕ pext decoder0 clear_ra)
    × IsCoherent ℕ pext r.decoder
decode_inst_lem_example =
    decode_inst_lem ℕ pext decoder0 0 entry_pc clear_ra empty-IsCoherent elsewhere

-- The word 0 at the address 0 hits an empty entry, which has no instruction; the tables have one.
zero_at_zero :
    ((decode_inst ℕ pext decoder0 0 0 0).entry.inst ≡ none)
    × (found ℕ pext decoder0 0 ≡ some addi4spn)
unfolding decode_inst found looked_up pext_bits
zero_at_zero = (refl, refl)
