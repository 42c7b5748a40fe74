-- ===== src/Decode/Fields/Compressed.antt =====
-- The extractors of 16-bit instructions of include/decode.hpp.
use rv64_vm.Prelude.{ℕ, bit_and, bit_or, field, ◌<<<◌, ◌>>>◌}
use rv64_vm.Decode.Fields.{sext, get_bits}

-- The arguments are `uint16_t`.
unfoldable pub d_c_rd : ℕ → ℕ
d_c_rd inst = field inst 2 3

unfoldable pub d_c_rs1 : ℕ → ℕ
d_c_rs1 inst = field inst 7 3

unfoldable pub d_c_rs2 : ℕ → ℕ
d_c_rs2 inst = field inst 2 5

-- `|` of several parts, from the left.
infixl 40 ◌with◌
abbrev ◌with◌ : ℕ → ℕ → ℕ
a with b = bit_or a b

unfoldable pub d_c_uimm : ℕ → ℕ
d_c_uimm inst =
    bit_and (inst >>> 1) 0x3c0
    with bit_and (inst >>> 7) 0x30
    with bit_and (inst >>> 2) 0x8
    with bit_and (inst >>> 4) 0x4

unfoldable pub d_c_uimm_cl : ℕ → ℕ
d_c_uimm_cl inst = get_bits inst 6 6 <<< 2 with field inst 10 3 <<< 3 with get_bits inst 5 5 <<< 6

unfoldable pub d_c_uimm_cl1 : ℕ → ℕ
d_c_uimm_cl1 inst = get_bits inst 6 6 <<< 7 with field inst 10 3 <<< 3 with get_bits inst 5 5 <<< 6

unfoldable pub d_c_uimm_arith : ℕ → ℕ
d_c_uimm_arith inst = field inst 2 5 with field inst 12 1 <<< 5

unfoldable pub d_c_nzimm : ℕ → ℕ
d_c_nzimm inst = sext (field inst 2 5 with field inst 12 1 <<< 5) 6

unfoldable pub d_c_nzimm_9 : ℕ → ℕ
d_c_nzimm_9 inst =
    sext
      (field inst 6 1 <<< 4
        with field inst 2 1 <<< 5
        with field inst 5 1 <<< 6
        with field inst 3 1 <<< 7
        with field inst 4 1 <<< 8
        with field inst 12 1 <<< 9)
      10

unfoldable pub d_c_j_imm : ℕ → ℕ
d_c_j_imm inst =
    sext
      (field inst 3 3 <<< 1
        with field inst 11 1 <<< 4
        with field inst 2 1 <<< 5
        with field inst 7 1 <<< 6
        with field inst 6 1 <<< 7
        with field inst 9 1 <<< 8
        with field inst 10 1 <<< 9
        with field inst 8 1 <<< 10
        with field inst 12 1 <<< 11)
      12

unfoldable pub d_c_b_imm : ℕ → ℕ
d_c_b_imm inst =
    sext
      (field inst 3 2 <<< 1
        with field inst 10 2 <<< 3
        with field inst 2 1 <<< 5
        with field inst 5 2 <<< 6
        with field inst 12 1 <<< 8)
      9

unfoldable pub d_c_uimm_lwsp : ℕ → ℕ
d_c_uimm_lwsp inst = field inst 4 3 <<< 2 with field inst 12 1 <<< 5 with field inst 2 2 <<< 6

unfoldable pub d_c_uimm_ldsp : ℕ → ℕ
d_c_uimm_ldsp inst =
    field inst 5 2 <<< 3
    with field inst 12 1 <<< 5
    with field inst 2 2 <<< 6
    with field inst 4 1 <<< 8

unfoldable pub d_c_uimm_swsp : ℕ → ℕ
d_c_uimm_swsp inst = field inst 9 4 <<< 2 with field inst 7 1 <<< 6 with field inst 8 1 <<< 7

unfoldable pub d_c_uimm_sdsp : ℕ → ℕ
d_c_uimm_sdsp inst =
    field inst 10 3 <<< 3
    with field inst 7 1 <<< 6
    with field inst 8 1 <<< 7
    with field inst 9 1 <<< 8
