-- ===== src/Isa/Rv64m.antt =====
-- src/sets/rv64m.cpp: multiplication and division. A signed 128-bit product is taken as its pattern
-- mod 2 ^ 128 of the sign-extended factors.
pub mod Products
pub mod Division
use rv64_vm.Prelude.{
  ℕ, ◌+◌, ◌-◌, ◌*◌, ◌/◌, ◌%◌, ◌^◌, Bool, true, false, ◌&&◌, ltb, ◌==◌, if◌then◌else◌, u32, u64,
}
use rv64_vm.Hart.State.{Hart, ExecReturn, InstructionData}
use rv64_vm.Isa.Arith.{sext32, signed64, signed32, to_word, tdiv, tmod}
use rv64_vm.Isa.Rv64i.Alu.{rs1, rs2, write_rd}

-- `(uint64_t)-1`
abbrev pub all_ones : ℕ
all_ones = 2 ^ 64 - 1

-- `(__int128_t)(int64_t)x`, as a pattern of 128 bits
abbrev pub sext128 : ℕ → ℕ
sext128 x = if ltb x (2 ^ 63) then x else x + (2 ^ 128 - 2 ^ 64)

unfoldable pub exec_mulw : Hart → InstructionData → Hart × ExecReturn
exec_mulw hart inst = write_rd hart inst (sext32 (u32 (rs1 hart inst) * u32 (rs2 hart inst)))

unfoldable pub exec_divw : Hart → InstructionData → Hart × ExecReturn
exec_divw hart inst = write_rd hart inst (
    if u32 (rs2 hart inst) == 0
    then all_ones
    else if u32 (rs1 hart inst) == 0
    then 0
    else if u32 (rs1 hart inst) == 2 ^ 31 && u32 (rs2 hart inst) == 2 ^ 32 - 1
    then sext32 (rs1 hart inst)
    else to_word (tdiv (signed32 (rs1 hart inst)) (signed32 (rs2 hart inst))))

unfoldable pub exec_divuw : Hart → InstructionData → Hart × ExecReturn
exec_divuw hart inst = write_rd hart inst (
    if u32 (rs2 hart inst) == 0
    then all_ones
    else if u32 (rs1 hart inst) == 0
    then 0
    else sext32 (u32 (rs1 hart inst) / u32 (rs2 hart inst)))

unfoldable pub exec_remw : Hart → InstructionData → Hart × ExecReturn
exec_remw hart inst = write_rd hart inst (
    if u32 (rs2 hart inst) == 0
    then sext32 (rs1 hart inst)
    else if u32 (rs1 hart inst) == 2 ^ 31 && u32 (rs2 hart inst) == 2 ^ 32 - 1
    then 0
    else to_word (tmod (signed32 (rs1 hart inst)) (signed32 (rs2 hart inst))))

unfoldable pub exec_remuw : Hart → InstructionData → Hart × ExecReturn
exec_remuw hart inst = write_rd hart inst (
    if u32 (rs2 hart inst) == 0
    then rs1 hart inst
    else sext32 (u32 (rs1 hart inst) % u32 (rs2 hart inst)))

unfoldable pub exec_mul : Hart → InstructionData → Hart × ExecReturn
exec_mul hart inst = write_rd hart inst (u64 ((rs1 hart inst) * (rs2 hart inst)))

unfoldable pub exec_mulh : Hart → InstructionData → Hart × ExecReturn
exec_mulh hart inst =
    write_rd hart inst (sext128 (rs1 hart inst) * sext128 (rs2 hart inst) % 2 ^ 128 / 2 ^ 64)

unfoldable pub exec_mulhsu : Hart → InstructionData → Hart × ExecReturn
exec_mulhsu hart inst =
    write_rd hart inst (sext128 (rs1 hart inst) * (rs2 hart inst) % 2 ^ 128 / 2 ^ 64)

unfoldable pub exec_mulhu : Hart → InstructionData → Hart × ExecReturn
exec_mulhu hart inst = write_rd hart inst ((rs1 hart inst) * (rs2 hart inst) / 2 ^ 64)

unfoldable pub exec_div : Hart → InstructionData → Hart × ExecReturn
exec_div hart inst = write_rd hart inst (
    if rs2 hart inst == 0
    then all_ones
    else if rs1 hart inst == 0
    then 0
    else if rs1 hart inst == 2 ^ 63 && rs2 hart inst == 2 ^ 64 - 1
    then rs1 hart inst
    else to_word (tdiv (signed64 (rs1 hart inst)) (signed64 (rs2 hart inst))))

unfoldable pub exec_divu : Hart → InstructionData → Hart × ExecReturn
exec_divu hart inst = write_rd hart inst (
    if rs2 hart inst == 0
    then all_ones
    else if rs1 hart inst == 0
    then 0
    else (rs1 hart inst) / (rs2 hart inst))

unfoldable pub exec_rem : Hart → InstructionData → Hart × ExecReturn
exec_rem hart inst = write_rd hart inst (
    if rs2 hart inst == 0
    then rs1 hart inst
    else if rs1 hart inst == 2 ^ 63 && rs2 hart inst == 2 ^ 64 - 1
    then 0
    else to_word (tmod (signed64 (rs1 hart inst)) (signed64 (rs2 hart inst))))

unfoldable pub exec_remu : Hart → InstructionData → Hart × ExecReturn
exec_remu hart inst =
    write_rd hart inst
      (if rs2 hart inst == 0 then rs1 hart inst else (rs1 hart inst) % (rs2 hart inst))
