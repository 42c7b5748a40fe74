-- ===== src/Decode/Fields.antt =====
-- The field and immediate extractors of include/decode.hpp. An instruction word is a `uint32_t`, an
-- immediate is sign-extended to 64 bits.
pub mod Immediates
pub mod Compressed
use rv64_vm.Prelude.{
  ℕ, ◌+◌, ◌-◌, ◌*◌, ◌/◌, ◌%◌, ◌^◌, bit_and, bit_or, Bool, true, false, ltb, if◌then◌else◌, field,
  u32, ◌<<<◌, ◌>>>◌,
}

-- `sext(val, bits)`, the `int32_t` converted on to `uint64_t`: bit `bits - 1` is copied upwards.
unfoldable pub sext : ℕ → ℕ → ℕ
sext val bits =
    let v = val % 2 ^ bits in if ltb v (2 ^ (bits - 1)) then v else v + (2 ^ 64 - 2 ^ bits)

-- `get_bits(inst, hi, lo)`
abbrev pub get_bits : ℕ → ℕ → ℕ → ℕ
get_bits inst hi lo = (inst >>> lo) % 2 ^ (hi - lo + 1)

unfoldable pub d_rd : ℕ → ℕ
d_rd inst = (inst >>> 7) % 32

unfoldable pub d_rs1 : ℕ → ℕ
d_rs1 inst = (inst >>> 15) % 32

unfoldable pub d_rs2 : ℕ → ℕ
d_rs2 inst = (inst >>> 20) % 32

unfoldable pub d_rs3 : ℕ → ℕ
d_rs3 inst = (inst >>> 27) % 32

unfoldable pub d_rm : ℕ → ℕ
d_rm inst = (inst >>> 12) % 8

unfoldable pub imm_zicsr : ℕ → ℕ
imm_zicsr inst = inst >>> 20

unfoldable pub imm_i : ℕ → ℕ
imm_i inst = sext (inst >>> 20) 12

-- `((inst >> 7) & 0x1f) | ((inst >> 20) & 0xfe0)`
unfoldable pub imm_s : ℕ → ℕ
imm_s inst = sext (bit_or (bit_and (inst >>> 7) 0x1f) (bit_and (inst >>> 20) 0xfe0)) 12

unfoldable pub imm_b : ℕ → ℕ
imm_b inst =
    sext
      (bit_or
        (bit_or (bit_or (get_bits inst 11 8 <<< 1) (get_bits inst 30 25 <<< 5))
          (get_bits inst 7 7 <<< 11))
        (get_bits inst 31 31 <<< 12))
      13

-- `(int64_t)(int32_t)(inst & 0xFFFFF000)`
unfoldable pub imm_u : ℕ → ℕ
imm_u inst = sext (bit_and inst 0xfffff000) 32

unfoldable pub imm_j : ℕ → ℕ
imm_j inst =
    sext
      (bit_or
        (bit_or (bit_or (get_bits inst 30 21 <<< 1) (get_bits inst 20 20 <<< 11))
          (get_bits inst 19 12 <<< 12))
        (get_bits inst 31 31 <<< 20))
      21

unfoldable pub shamt : ℕ → ℕ
shamt inst = imm_i inst % 32

unfoldable pub shamt64 : ℕ → ℕ
shamt64 inst = imm_i inst % 64
