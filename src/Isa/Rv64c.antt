-- ===== src/Isa/Rv64c.antt =====
-- src/sets/rv64c.cpp: the 16-bit instructions but those of the floating-point registers.
pub mod Expand
use rv64_vm.Prelude.{
  ℕ, ◌+◌, ◌-◌, ◌%◌, ◌^◌, bit_and, bit_or, bit_xor, Bool, true, not, ◌==◌, if◌then◌else◌, u64, ◌<<<◌,
  ◌>>>◌,
}
use rv64_vm.Hart.State.{Hart, set_gpr, ExecReturn, InstructionData, next, jumped, fail}
use rv64_vm.Mem.Exc
use rv64_vm.Decode.Fields.{sext}
use rv64_vm.Decode.Fields.Compressed.{d_c_rd, d_c_rs1, d_c_rs2, d_c_nzimm_9}
use rv64_vm.Isa.Arith.{sext32, sra64}
use rv64_vm.Isa.Rv64i.LoadStore.{Bus, of_memory}

-- `{ true, false, 2, 0, 0 }`
abbrev pub next_half : ExecReturn
next_half = record next { increase_pc = 2 }

-- `hart.GPR[i] = v; return { true, false, 2, 0, 0 };`
abbrev pub write_half : Hart → ℕ → ℕ → Hart × ExecReturn
write_half hart i v = (set_gpr hart i v, next_half)

-- `8 + (inst.rd & 0x7)`, and the registers 8 to 15 that the other 3-bit fields name.
module _ (inst : InstructionData) where
  abbrev pub rd' : ℕ
  rd' = 8 + inst.rd % 8

  abbrev pub rs2' : ℕ
  rs2' = 8 + d_c_rd inst.inst

  abbrev pub rs1' : ℕ
  rs1' = 8 + d_c_rs1 inst.inst

unfoldable pub exec_c_addi4spn : Hart → InstructionData → Hart × ExecReturn
exec_c_addi4spn hart inst = write_half hart (rs2' inst) (u64 (hart.gpr 2 + inst.imm))

unfoldable pub exec_c_nop : Hart → InstructionData → Hart × ExecReturn
exec_c_nop hart inst = (hart, next_half)

unfoldable pub exec_c_addi : Hart → InstructionData → Hart × ExecReturn
exec_c_addi hart inst = write_half hart inst.rd (u64 (hart.gpr inst.rd + inst.imm))

unfoldable pub exec_c_addiw : Hart → InstructionData → Hart × ExecReturn
exec_c_addiw hart inst = write_half hart inst.rd (sext32 (u64 (hart.gpr inst.rd + inst.imm)))

unfoldable pub exec_c_li : Hart → InstructionData → Hart × ExecReturn
exec_c_li hart inst = write_half hart inst.rd inst.imm

unfoldable pub exec_c_lui_addi16sp : Hart → InstructionData → Hart × ExecReturn
exec_c_lui_addi16sp hart inst =
    if inst.rd == 2
    then write_half hart 2 (u64 (hart.gpr 2 + sext (d_c_nzimm_9 inst.inst) 10))
    else write_half hart inst.rd (u64 (inst.imm <<< 12))

-- Here the two high bits of `inst.rd` are clear.
unfoldable pub exec_c_srli : Hart → InstructionData → Hart × ExecReturn
exec_c_srli hart inst = write_half hart (8 + inst.rd) (hart.gpr (8 + inst.rd) >>> inst.imm)

unfoldable pub exec_c_srai : Hart → InstructionData → Hart × ExecReturn
exec_c_srai hart inst = write_half hart (rd' inst) (sra64 (hart.gpr (rd' inst)) inst.imm)

unfoldable pub exec_c_andi : Hart → InstructionData → Hart × ExecReturn
exec_c_andi hart inst = write_half hart (rd' inst) (bit_and (hart.gpr (rd' inst)) (sext inst.imm 6))

unfoldable pub exec_c_sub : Hart → InstructionData → Hart × ExecReturn
exec_c_sub hart inst =
    write_half hart (rd' inst) (u64 (hart.gpr (rd' inst) + 2 ^ 64 - hart.gpr (rs2' inst)))

unfoldable pub exec_c_xor : Hart → InstructionData → Hart × ExecReturn
exec_c_xor hart inst =
    write_half hart (rd' inst) (bit_xor (hart.gpr (rd' inst)) (hart.gpr (rs2' inst)))

unfoldable pub exec_c_or : Hart → InstructionData → Hart × ExecReturn
exec_c_or hart inst =
    write_half hart (rd' inst) (bit_or (hart.gpr (rd' inst)) (hart.gpr (rs2' inst)))

unfoldable pub exec_c_and : Hart → InstructionData → Hart × ExecReturn
exec_c_and hart inst =
    write_half hart (rd' inst) (bit_and (hart.gpr (rd' inst)) (hart.gpr (rs2' inst)))

unfoldable pub exec_c_subw : Hart → InstructionData → Hart × ExecReturn
exec_c_subw hart inst =
    write_half hart (rd' inst) (sext32 (u64 (hart.gpr (rd' inst) + 2 ^ 64 - hart.gpr (rs2' inst))))

unfoldable pub exec_c_addw : Hart → InstructionData → Hart × ExecReturn
exec_c_addw hart inst =
    write_half hart (rd' inst) (sext32 (u64 (hart.gpr (rd' inst) + hart.gpr (rs2' inst))))

-- `hart.pc += (int32_t)inst.imm; return { true, true, 0, 0, 0 };`
abbrev pub jump_by : Hart → InstructionData → Hart × ExecReturn
jump_by hart inst = (record hart { pc = u64 (hart.pc + sext32 inst.imm) }, jumped)

unfoldable pub exec_c_j : Hart → InstructionData → Hart × ExecReturn
exec_c_j hart inst = jump_by hart inst

unfoldable pub exec_c_beqz : Hart → InstructionData → Hart × ExecReturn
exec_c_beqz hart inst = if hart.gpr (rd' inst) == 0 then jump_by hart inst else (hart, next_half)

unfoldable pub exec_c_bnez : Hart → InstructionData → Hart × ExecReturn
exec_c_bnez hart inst =
    if not (hart.gpr (rd' inst) == 0) then jump_by hart inst else (hart, next_half)

unfoldable pub exec_c_slli : Hart → InstructionData → Hart × ExecReturn
exec_c_slli hart inst = write_half hart inst.rd (u64 (hart.gpr inst.rd <<< inst.imm))

-- `x & ~1ULL`
abbrev pub even : ℕ → ℕ
even x = x - x % 2

unfoldable pub exec_c_jr : Hart → InstructionData → Hart × ExecReturn
exec_c_jr hart inst = (record hart { pc = even (hart.gpr inst.rd) }, jumped)

unfoldable pub exec_c_mv : Hart → InstructionData → Hart × ExecReturn
exec_c_mv hart inst = write_half hart inst.rd (hart.gpr (d_c_rs2 inst.inst))

unfoldable pub exec_c_ebreak : Hart → InstructionData → Hart × ExecReturn
exec_c_ebreak hart inst = (hart, fail true Exc.breakpoint hart.pc)

unfoldable pub exec_c_jalr : Hart → InstructionData → Hart × ExecReturn
exec_c_jalr hart inst =
    (set_gpr (record hart { pc = even (hart.gpr inst.rd) }) 1 (u64 (hart.pc + 2)), jumped)

unfoldable pub exec_c_add : Hart → InstructionData → Hart × ExecReturn
exec_c_add hart inst =
    write_half hart inst.rd (u64 (hart.gpr inst.rd + hart.gpr (d_c_rs2 inst.inst)))

module _ (bus : Bus) where
  open bus use {World, read, write}

  -- The shape of the four loads: the address is in register `base`, the value goes to register `rd`.
  abbrev load_half :
      ℕ
      → (ℕ → ℕ)
      → ℕ
      → ℕ
      → Hart
      → World
      → InstructionData
      → record { hart : Hart; world : World; out : ExecReturn }
  load_half size extend base rd hart w inst =
      let r = read hart w (u64 (hart.gpr base + inst.imm)) size in
      record {
        hart = if r.ret.is_success then set_gpr r.hart rd (extend r.val) else r.hart;
        world = r.world;
        out = record (of_memory r.ret) { increase_pc = 2 };
      }

  abbrev store_half :
      ℕ
      → ℕ
      → ℕ
      → Hart
      → World
      → InstructionData
      → record { hart : Hart; world : World; out : ExecReturn }
  store_half size base rs2 hart w inst =
      let r = write hart w (u64 (hart.gpr base + inst.imm)) size (hart.gpr rs2) in
      record { hart = r.hart; world = r.world; out = record (of_memory r.ret) { increase_pc = 2 } }

  unfoldable pub exec_c_lw :
      Hart → World → InstructionData → record { hart : Hart; world : World; out : ExecReturn }
  exec_c_lw hart w inst = load_half 4 sext32 (rs1' inst) (rs2' inst) hart w inst

  unfoldable pub exec_c_ld :
      Hart → World → InstructionData → record { hart : Hart; world : World; out : ExecReturn }
  exec_c_ld hart w inst = load_half 8 (λ v. v) (rs1' inst) (rs2' inst) hart w inst

  unfoldable pub exec_c_sw :
      Hart → World → InstructionData → record { hart : Hart; world : World; out : ExecReturn }
  exec_c_sw hart w inst = store_half 4 (rs1' inst) (rs2' inst) hart w inst

  unfoldable pub exec_c_sd :
      Hart → World → InstructionData → record { hart : Hart; world : World; out : ExecReturn }
  exec_c_sd hart w inst = store_half 8 (rs1' inst) (rs2' inst) hart w inst

  unfoldable pub exec_c_lwsp :
      Hart → World → InstructionData → record { hart : Hart; world : World; out : ExecReturn }
  exec_c_lwsp hart w inst = load_half 4 sext32 2 inst.rd hart w inst

  unfoldable pub exec_c_ldsp :
      Hart → World → InstructionData → record { hart : Hart; world : World; out : ExecReturn }
  exec_c_ldsp hart w inst = load_half 8 (λ v. v) 2 inst.rd hart w inst

  unfoldable pub exec_c_swsp :
      Hart → World → InstructionData → record { hart : Hart; world : World; out : ExecReturn }
  exec_c_swsp hart w inst = store_half 4 2 (d_c_rs2 inst.inst) hart w inst

  unfoldable pub exec_c_sdsp :
      Hart → World → InstructionData → record { hart : Hart; world : World; out : ExecReturn }
  exec_c_sdsp hart w inst = store_half 8 2 (d_c_rs2 inst.inst) hart w inst
