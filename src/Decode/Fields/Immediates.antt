-- ===== src/Decode/Fields/Immediates.antt =====
-- The immediates against the instruction formats of the manual: an encoder for each format, the
-- other bits of the word given as fields, and what the extractors read back.
use rv64_vm.Prelude.{ℕ, ◌+◌, ◌*◌, ◌/◌, ◌%◌, ◌^◌, ◌<◌, ◌≡◌, arith, ◌<<<◌, ap, ◌∙◌}
use rv64_vm.Bits.Join.{bit_or-shifted}
use rv64_vm.Decode.Fields.{sext, get_bits, imm_b, imm_j}

-- The sum that the source writes with `|`.
b_parts : ℕ → ℕ
b_parts inst =
    (get_bits inst 11 8 <<< 1)
    + (get_bits inst 30 25 <<< 5)
    + (get_bits inst 7 7 <<< 11)
    + (get_bits inst 31 31 <<< 12)

imm_b-parts : (inst : ℕ) → imm_b inst ≡ sext (b_parts inst) 13
unfolding imm_b b_parts
imm_b-parts inst =
    ap (λ (t : ℕ). sext t 13)
      (ground (
        arith,
        bit_or-shifted 5 (get_bits inst 30 25) (get_bits inst 11 8 <<< 1),
        bit_or-shifted 11 (get_bits inst 7 7)
            ((get_bits inst 11 8 <<< 1) + (get_bits inst 30 25 <<< 5)),
        bit_or-shifted 12 (get_bits inst 31 31)
            ((get_bits inst 11 8 <<< 1) + (get_bits inst 30 25 <<< 5) + (get_bits inst 7 7 <<< 11)),
      ))

j_parts : ℕ → ℕ
j_parts inst =
    (get_bits inst 30 21 <<< 1)
    + (get_bits inst 20 20 <<< 11)
    + (get_bits inst 19 12 <<< 12)
    + (get_bits inst 31 31 <<< 20)

imm_j-parts : (inst : ℕ) → imm_j inst ≡ sext (j_parts inst) 21
unfolding imm_j j_parts
imm_j-parts inst =
    ap (λ (t : ℕ). sext t 21)
      (ground (
        arith,
        bit_or-shifted 11 (get_bits inst 20 20) (get_bits inst 30 21 <<< 1),
        bit_or-shifted 12 (get_bits inst 19 12)
            ((get_bits inst 30 21 <<< 1) + (get_bits inst 20 20 <<< 11)),
        bit_or-shifted 20 (get_bits inst 31 31) (
            (get_bits inst 30 21 <<< 1)
            + (get_bits inst 20 20 <<< 11)
            + (get_bits inst 19 12 <<< 12)),
      ))

-- A B-type word: `low` is the opcode, `mid` the bits 12 to 24 (funct3, rs1, rs2), and the offset's
-- bits 11, 4:1, 10:5 and 12 stand at 7, 8, 25 and 31.
abbrev pub encode_b : ℕ → ℕ → ℕ → ℕ
encode_b low mid imm =
    low
    + (imm / 2 ^ 11 % 2) * 2 ^ 7
    + (imm / 2 % 16) * 2 ^ 8
    + mid * 2 ^ 12
    + (imm / 2 ^ 5 % 64) * 2 ^ 25
    + (imm / 2 ^ 12 % 2) * 2 ^ 31

-- A J-type word: `low` is rd and the opcode, and the offset's bits 19:12, 11, 10:1 and 20 stand at 12,
-- 20, 21 and 31.
abbrev pub encode_j : ℕ → ℕ → ℕ
encode_j low imm =
    low
    + (imm / 2 ^ 12 % 256) * 2 ^ 12
    + (imm / 2 ^ 11 % 2) * 2 ^ 20
    + (imm / 2 % 1024) * 2 ^ 21
    + (imm / 2 ^ 20 % 2) * 2 ^ 31

-- An even branch offset of 13 bits is read back, sign-extended, from every word that encodes it in the
-- B-type format.
pub imm_b-encode_b :
    (low mid imm : ℕ)
    → low < 2 ^ 7
    → mid < 2 ^ 13
    → imm < 2 ^ 13
    → imm % 2 ≡ 0
    → imm_b (encode_b low mid imm) ≡ sext imm 13
imm_b-encode_b low mid imm hl hm hi even =
    imm_b-parts (encode_b low mid imm) ∙ ap (λ (t : ℕ). sext t 13) (unfold b_parts in omega arith)

-- An even jump offset of 21 bits is read back, sign-extended, from every word that encodes it in the
-- J-type format.
pub imm_j-encode_j :
    (low imm : ℕ)
    → low < 2 ^ 12
    → imm < 2 ^ 21
    → imm % 2 ≡ 0
    → imm_j (encode_j low imm) ≡ sext imm 21
imm_j-encode_j low imm hl hi even =
    imm_j-parts (encode_j low imm) ∙ ap (λ (t : ℕ). sext t 21) (unfold j_parts in omega arith)

-- Whatever the instruction word, branch and jump offsets are even.
pub offsets_even : (inst : ℕ) → (imm_b inst % 2 ≡ 0) × (imm_j inst % 2 ≡ 0)
unfolding sext b_parts j_parts
offsets_even inst = (ground (arith, imm_b-parts inst), ground (arith, imm_j-parts inst))
