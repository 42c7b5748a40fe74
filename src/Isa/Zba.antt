-- ===== src/Isa/Zba.antt =====
-- src/sets/zba.cpp: address generation.
use rv64_vm.Prelude.{◌+◌, u32, u64, ◌<<<◌}
use rv64_vm.Hart.State.{Hart, ExecReturn, InstructionData}
use rv64_vm.Isa.Rv64i.Alu.{rs1, rs2, write_rd}

unfoldable pub exec_add_uw : Hart → InstructionData → Hart × ExecReturn
exec_add_uw hart inst = write_rd hart inst (u64 (rs2 hart inst + u32 (rs1 hart inst)))

unfoldable pub exec_sh1add : Hart → InstructionData → Hart × ExecReturn
exec_sh1add hart inst = write_rd hart inst (u64 (rs2 hart inst + u64 (rs1 hart inst <<< 1)))

unfoldable pub exec_sh1add_uw : Hart → InstructionData → Hart × ExecReturn
exec_sh1add_uw hart inst =
    write_rd hart inst (u64 (rs2 hart inst + u64 (u32 (rs1 hart inst) <<< 1)))

unfoldable pub exec_sh2add : Hart → InstructionData → Hart × ExecReturn
exec_sh2add hart inst = write_rd hart inst (u64 (rs2 hart inst + u64 (rs1 hart inst <<< 2)))

unfoldable pub exec_sh2add_uw : Hart → InstructionData → Hart × ExecReturn
exec_sh2add_uw hart inst =
    write_rd hart inst (u64 (rs2 hart inst + u64 (u32 (rs1 hart inst) <<< 2)))

unfoldable pub exec_sh3add : Hart → InstructionData → Hart × ExecReturn
exec_sh3add hart inst = write_rd hart inst (u64 (rs2 hart inst + u64 (rs1 hart inst <<< 3)))

unfoldable pub exec_sh3add_uw : Hart → InstructionData → Hart × ExecReturn
exec_sh3add_uw hart inst =
    write_rd hart inst (u64 (rs2 hart inst + u64 (u32 (rs1 hart inst) <<< 3)))

unfoldable pub exec_slli_uw : Hart → InstructionData → Hart × ExecReturn
exec_slli_uw hart inst = write_rd hart inst (u64 (u32 (rs1 hart inst) <<< inst.imm))
