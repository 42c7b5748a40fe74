-- ===== src/Decode/Pattern.antt =====
-- `InstructionDecoder::register_instr` of src/decode.cpp: a pattern of '0', '1' and '*' becomes a mask
-- and the value that the masked bits must have. A string is the list of its byte codes.
pub mod Matching
use rv64_vm.Prelude.{
  ℕ, zero, suc, ◌+◌, ◌*◌, ◌/◌, ◌%◌, ◌^◌, bit_and, bit_or, List, [], ◌∷◌, Bool, ◌==◌, if◌then◌else◌,
}
use mathlib.Core.List.{reverse}

pub record Pattern : Type 0 where
  pub mask : ℕ
  pub match : ℕ

-- One character, for bit `i`.
unfoldable pub put_char : ℕ → ℕ → Pattern → Pattern
put_char i c p =
    if c == b'1'
    then record { mask = bit_or p.mask (2 ^ i); match = bit_or p.match (2 ^ i) }
    else if c == b'0'
    then record p { mask = bit_or p.mask (2 ^ i) }
    else p

-- The loop `for(i = 0; …)` over the characters, last one first.
unfoldable pub put_chars : ℕ → List ℕ → Pattern → Pattern
put_chars i [] p = p
put_chars i (c ∷ cs) p = put_chars (i + 1) cs (put_char i c p)

unfoldable pub register_instr : List ℕ → Pattern
register_instr mask = put_chars 0 (reverse mask) (record { mask = 0; match = 0 })

-- The test that `decode_inst_slow` makes of a candidate: `(inst & mask) == match`.
abbrev pub fits : Pattern → ℕ → Bool
fits p inst = bit_and inst p.mask == p.match
