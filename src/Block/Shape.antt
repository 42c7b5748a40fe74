-- ===== src/Block/Shape.antt =====
-- The two tests on an instruction word in src/block.cpp.
use rv64_vm.Prelude.{ℕ, bit_and, Bool, true, false, ◌&&◌, ◌||◌, not, ◌==◌, if◌then◌else◌, ◌>>>◌}

-- `writes_reg`: OP-IMM, OP, LUI, AUIPC, JAL, JALR and the loads.
unfoldable pub writes_reg : ℕ → Bool
writes_reg inst =
    let opcode = bit_and inst 0x7f in
    opcode == 0x13
    || opcode == 0x33
    || opcode == 0x37
    || opcode == 0x17
    || opcode == 0x6f
    || opcode == 0x67
    || opcode == 0x03

-- `is_block_end`: branches, jumps, SYSTEM and FENCE, and the compressed jumps and branches.
unfoldable pub is_block_end : ℕ → Bool
is_block_end inst =
    let opcode = bit_and inst 0x7f in
    let f3 = bit_and (inst >>> 13) 7 in
    if opcode == 0x63 || opcode == 0x6f || opcode == 0x67 || opcode == 0x73 || opcode == 0x0f
    then true
    else if not (bit_and inst 3 == 3)
    then (if bit_and inst 3 == 1
        then f3 == 5 || f3 == 1 || f3 == 6 || f3 == 7
        else opcode == 0x02 && bit_and inst 0xe003 == 0x8002)
    else false

-- The test in `compile_block` on a 32-bit instruction with rd = 0.
unfoldable pub poisons_x0 : ℕ → Bool
poisons_x0 inst = bit_and inst 3 == 3 && writes_reg inst && bit_and (inst >>> 7) 0x1f == 0
