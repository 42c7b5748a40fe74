-- ===== src/Isa/Rv64i/Alu.antt =====
-- The register and immediate instructions of src/sets/rv64i.cpp, with LUI, AUIPC and FENCE. Each
-- writes one register and goes on to the next instruction.
use rv64_vm.Prelude.{
  ℕ, ◌+◌, ◌-◌, ◌%◌, ◌^◌, bit_and, bit_or, bit_xor, ltb, if◌then◌else◌, u32, u64, ◌<<<◌, ◌>>>◌,
}
use rv64_vm.Hart.State.{Hart, set_gpr, ExecReturn, InstructionData, next}
use rv64_vm.Isa.Arith.{sext32, sra64, sra32, lt_signed}

-- `hart.GPR[inst.rs1]` and `hart.GPR[inst.rs2]`
abbrev pub rs1 : Hart → InstructionData → ℕ
rs1 hart inst = hart.gpr inst.rs1

abbrev pub rs2 : Hart → InstructionData → ℕ
rs2 hart inst = hart.gpr inst.rs2

-- `hart.GPR[inst.rd] = v; return { true, false, 4, 0, 0 };`
abbrev pub write_rd : Hart → InstructionData → ℕ → Hart × ExecReturn
write_rd hart inst v = (set_gpr hart inst.rd v, next)

unfoldable pub exec_addw : Hart → InstructionData → Hart × ExecReturn
exec_addw hart inst = write_rd hart inst (sext32 (u32 (u32 (rs1 hart inst) + u32 (rs2 hart inst))))

unfoldable pub exec_subw : Hart → InstructionData → Hart × ExecReturn
exec_subw hart inst =
    write_rd hart inst (sext32 (u32 (u32 (rs1 hart inst) + 2 ^ 32 - u32 (rs2 hart inst))))

unfoldable pub exec_sllw : Hart → InstructionData → Hart × ExecReturn
exec_sllw hart inst =
    write_rd hart inst (sext32 (u32 (u32 (rs1 hart inst) <<< (u32 (rs2 hart inst) % 32))))

unfoldable pub exec_srlw : Hart → InstructionData → Hart × ExecReturn
exec_srlw hart inst =
    write_rd hart inst (sext32 (u32 (rs1 hart inst) >>> (u32 (rs2 hart inst) % 32)))

unfoldable pub exec_sraw : Hart → InstructionData → Hart × ExecReturn
exec_sraw hart inst = write_rd hart inst (sra32 (rs1 hart inst) (u32 (rs2 hart inst) % 32))

unfoldable pub exec_addiw : Hart → InstructionData → Hart × ExecReturn
exec_addiw hart inst = write_rd hart inst (sext32 (u64 (u32 (rs1 hart inst) + inst.imm)))

unfoldable pub exec_slliw : Hart → InstructionData → Hart × ExecReturn
exec_slliw hart inst = write_rd hart inst (sext32 (u32 (u32 (rs1 hart inst) <<< inst.imm)))

unfoldable pub exec_srliw : Hart → InstructionData → Hart × ExecReturn
exec_srliw hart inst = write_rd hart inst (sext32 (u32 (rs1 hart inst) >>> inst.imm))

unfoldable pub exec_sraiw : Hart → InstructionData → Hart × ExecReturn
exec_sraiw hart inst = write_rd hart inst (sra32 (rs1 hart inst) inst.imm)

unfoldable pub exec_add : Hart → InstructionData → Hart × ExecReturn
exec_add hart inst = write_rd hart inst (u64 (rs1 hart inst + rs2 hart inst))

unfoldable pub exec_sub : Hart → InstructionData → Hart × ExecReturn
exec_sub hart inst = write_rd hart inst (u64 (rs1 hart inst + 2 ^ 64 - rs2 hart inst))

unfoldable pub exec_xor : Hart → InstructionData → Hart × ExecReturn
exec_xor hart inst = write_rd hart inst (bit_xor (rs1 hart inst) (rs2 hart inst))

unfoldable pub exec_or : Hart → InstructionData → Hart × ExecReturn
exec_or hart inst = write_rd hart inst (bit_or (rs1 hart inst) (rs2 hart inst))

unfoldable pub exec_and : Hart → InstructionData → Hart × ExecReturn
exec_and hart inst = write_rd hart inst (bit_and (rs1 hart inst) (rs2 hart inst))

unfoldable pub exec_sll : Hart → InstructionData → Hart × ExecReturn
exec_sll hart inst = write_rd hart inst (u64 (rs1 hart inst <<< (rs2 hart inst % 64)))

unfoldable pub exec_srl : Hart → InstructionData → Hart × ExecReturn
exec_srl hart inst = write_rd hart inst (rs1 hart inst >>> (rs2 hart inst % 64))

unfoldable pub exec_sra : Hart → InstructionData → Hart × ExecReturn
exec_sra hart inst = write_rd hart inst (sra64 (rs1 hart inst) (rs2 hart inst % 64))

unfoldable pub exec_slt : Hart → InstructionData → Hart × ExecReturn
exec_slt hart inst = write_rd hart inst (if lt_signed (rs1 hart inst) (rs2 hart inst) then 1 else 0)

unfoldable pub exec_sltu : Hart → InstructionData → Hart × ExecReturn
exec_sltu hart inst = write_rd hart inst (if ltb (rs1 hart inst) (rs2 hart inst) then 1 else 0)

unfoldable pub exec_addi : Hart → InstructionData → Hart × ExecReturn
exec_addi hart inst = write_rd hart inst (u64 (rs1 hart inst + inst.imm))

unfoldable pub exec_xori : Hart → InstructionData → Hart × ExecReturn
exec_xori hart inst = write_rd hart inst (bit_xor (rs1 hart inst) inst.imm)

unfoldable pub exec_ori : Hart → InstructionData → Hart × ExecReturn
exec_ori hart inst = write_rd hart inst (bit_or (rs1 hart inst) inst.imm)

unfoldable pub exec_andi : Hart → InstructionData → Hart × ExecReturn
exec_andi hart inst = write_rd hart inst (bit_and (rs1 hart inst) inst.imm)

unfoldable pub exec_slli : Hart → InstructionData → Hart × ExecReturn
exec_slli hart inst = write_rd hart inst (u64 (rs1 hart inst <<< inst.imm))

unfoldable pub exec_srli : Hart → InstructionData → Hart × ExecReturn
exec_srli hart inst = write_rd hart inst (rs1 hart inst >>> inst.imm)

unfoldable pub exec_srai : Hart → InstructionData → Hart × ExecReturn
exec_srai hart inst = write_rd hart inst (sra64 (rs1 hart inst) inst.imm)

unfoldable pub exec_slti : Hart → InstructionData → Hart × ExecReturn
exec_slti hart inst = write_rd hart inst (if lt_signed (rs1 hart inst) inst.imm then 1 else 0)

unfoldable pub exec_sltiu : Hart → InstructionData → Hart × ExecReturn
exec_sltiu hart inst = write_rd hart inst (if ltb (rs1 hart inst) inst.imm then 1 else 0)

unfoldable pub exec_lui : Hart → InstructionData → Hart × ExecReturn
exec_lui hart inst = write_rd hart inst (inst.imm)

unfoldable pub exec_auipc : Hart → InstructionData → Hart × ExecReturn
exec_auipc hart inst = write_rd hart inst (u64 (hart.pc + inst.imm))

unfoldable pub exec_fence : Hart → InstructionData → Hart × ExecReturn
exec_fence hart inst = (hart, next)
