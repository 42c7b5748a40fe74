-- ===== src/Isa/Zbs.antt =====
-- src/sets/zbs.cpp: single-bit instructions. `1 << index` is written as a power of two.
use rv64_vm.Prelude.{◌%◌, ◌^◌, bit_and, bit_or, bit_xor, not64, ◌>>>◌}
use rv64_vm.Hart.State.{Hart, ExecReturn, InstructionData}
use rv64_vm.Isa.Rv64i.Alu.{rs1, rs2, write_rd}

unfoldable pub exec_bclr : Hart → InstructionData → Hart × ExecReturn
exec_bclr hart inst =
    write_rd hart inst (bit_and (rs1 hart inst) (not64 (2 ^ (rs2 hart inst % 64))))

unfoldable pub exec_bclri : Hart → InstructionData → Hart × ExecReturn
exec_bclri hart inst = write_rd hart inst (bit_and (rs1 hart inst) (not64 (2 ^ (inst.imm % 64))))

unfoldable pub exec_bext : Hart → InstructionData → Hart × ExecReturn
exec_bext hart inst = write_rd hart inst ((rs1 hart inst >>> (rs2 hart inst % 64)) % 2)

unfoldable pub exec_bexti : Hart → InstructionData → Hart × ExecReturn
exec_bexti hart inst = write_rd hart inst ((rs1 hart inst >>> (inst.imm % 64)) % 2)

unfoldable pub exec_binv : Hart → InstructionData → Hart × ExecReturn
exec_binv hart inst = write_rd hart inst (bit_xor (rs1 hart inst) (2 ^ (rs2 hart inst % 64)))

unfoldable pub exec_binvi : Hart → InstructionData → Hart × ExecReturn
exec_binvi hart inst = write_rd hart inst (bit_xor (rs1 hart inst) (2 ^ (inst.imm % 64)))

unfoldable pub exec_bset : Hart → InstructionData → Hart × ExecReturn
exec_bset hart inst = write_rd hart inst (bit_or (rs1 hart inst) (2 ^ (rs2 hart inst % 64)))

unfoldable pub exec_bseti : Hart → InstructionData → Hart × ExecReturn
exec_bseti hart inst = write_rd hart inst (bit_or (rs1 hart inst) (2 ^ (inst.imm % 64)))
