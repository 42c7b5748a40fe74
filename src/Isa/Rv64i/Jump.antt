-- ===== src/Isa/Rv64i/Jump.antt =====
-- Branches, jumps and environment calls of src/sets/rv64i.cpp.
use rv64_vm.Prelude.{ℕ, ◌+◌, ◌-◌, ◌%◌, Bool, true, false, not, ltb, ◌==◌, if◌then◌else◌, u64}
use rv64_vm.Hart.State.{
  Hart, set_gpr, user, supervisor, hypervisor, machine, ExecReturn, InstructionData, next, jumped,
  fail,
}
use rv64_vm.Mem.Exc
use rv64_vm.Isa.Arith.{lt_signed}
use rv64_vm.Isa.Rv64i.Alu.{rs1, rs2}

-- `hart.pc + (int64_t)inst.imm`
abbrev pub target : Hart → InstructionData → ℕ
target hart inst = u64 (hart.pc + inst.imm)

-- The body that the six branches share, behind their condition.
abbrev pub branch : Bool → Hart → InstructionData → Hart × ExecReturn
branch taken hart inst =
    if taken
    then (if not (target hart inst % 2 == 0)
        then (hart, fail false Exc.inst_addr_misaligned (target hart inst))
        else (record hart { pc = target hart inst }, jumped))
    else (hart, next)

unfoldable pub exec_beq : Hart → InstructionData → Hart × ExecReturn
exec_beq hart inst = branch (rs1 hart inst == rs2 hart inst) hart inst

unfoldable pub exec_bne : Hart → InstructionData → Hart × ExecReturn
exec_bne hart inst = branch (not (rs1 hart inst == rs2 hart inst)) hart inst

unfoldable pub exec_blt : Hart → InstructionData → Hart × ExecReturn
exec_blt hart inst = branch (lt_signed (rs1 hart inst) (rs2 hart inst)) hart inst

unfoldable pub exec_bge : Hart → InstructionData → Hart × ExecReturn
exec_bge hart inst = branch (not (lt_signed (rs1 hart inst) (rs2 hart inst))) hart inst

unfoldable pub exec_bltu : Hart → InstructionData → Hart × ExecReturn
exec_bltu hart inst = branch (ltb (rs1 hart inst) (rs2 hart inst)) hart inst

unfoldable pub exec_bgeu : Hart → InstructionData → Hart × ExecReturn
exec_bgeu hart inst = branch (not (ltb (rs1 hart inst) (rs2 hart inst))) hart inst

unfoldable pub exec_jal : Hart → InstructionData → Hart × ExecReturn
exec_jal hart inst =
    if not (target hart inst % 2 == 0)
    then (hart, fail true Exc.inst_addr_misaligned (target hart inst))
    else (set_gpr (record hart { pc = target hart inst }) inst.rd (u64 (hart.pc + 4)), jumped)

-- `(hart.GPR[inst.rs1] + (int64_t)inst.imm) & ~1`
abbrev pub jalr_target : Hart → InstructionData → ℕ
jalr_target hart inst = let t = u64 (rs1 hart inst + inst.imm) in t - t % 2

unfoldable pub exec_jalr : Hart → InstructionData → Hart × ExecReturn
exec_jalr hart inst =
    if not (jalr_target hart inst % 2 == 0)
    then (hart, fail true Exc.inst_addr_misaligned (jalr_target hart inst))
    else (set_gpr (record hart { pc = jalr_target hart inst }) inst.rd (u64 (hart.pc + 4)), jumped)

unfoldable pub exec_ecall : Hart → InstructionData → Hart × ExecReturn
exec_ecall hart inst = (
  hart,
  elim (hart.mode) [
    | machine ↦ fail true Exc.env_call_from_m 0
    | supervisor ↦ fail true Exc.env_call_from_s 0
    | user ↦ fail true Exc.env_call_from_u 0
    | hypervisor ↦ next
  ],
)

unfoldable pub exec_ebreak : Hart → InstructionData → Hart × ExecReturn
exec_ebreak hart inst = (hart, fail true Exc.breakpoint hart.pc)
