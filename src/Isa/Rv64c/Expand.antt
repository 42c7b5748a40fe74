-- ===== src/Isa/Rv64c/Expand.antt =====
-- src/sets/rv64c.cpp: each 16-bit instruction does what a 32-bit one does, and goes on by two bytes.
use rv64_vm.Prelude.{ℕ, ◌+◌, ◌-◌, ◌%◌, ◌^◌, ◌<◌, ◌≡◌, ap, refl, arith, u32, u64, ltb, if◌then◌else◌}
use rv64_vm.Hart.State.{Hart, ExecReturn, InstructionData}
use rv64_vm.Decode.Fields.Compressed.{d_c_rs2}
use rv64_vm.Isa.Arith.{sext32}
use rv64_vm.Isa.Rv64i.Alu
use rv64_vm.Isa.Rv64i.LoadStore.{Bus}
use rv64_vm.Isa.Rv64i.LoadStore
use rv64_vm.Isa.Rv64c.{
  rd', rs1', rs2', exec_c_addi, exec_c_addiw, exec_c_srai, exec_c_sub, exec_c_xor, exec_c_or,
  exec_c_and, exec_c_subw, exec_c_addw, exec_c_slli, exec_c_add, exec_c_lw, exec_c_ld, exec_c_sw,
  exec_c_sd, exec_c_lwsp, exec_c_ldsp, exec_c_swsp, exec_c_sdsp,
}

-- The result of a 32-bit instruction, as that of a 16-bit one.
abbrev half : Hart × ExecReturn → Hart × ExecReturn
half r = (r.0, record r.1 { increase_pc = 2 })

-- `sext32` reads the low 32 bits only.
sext32_low : (a b : ℕ) → a % 2 ^ 32 ≡ b % 2 ^ 32 → sext32 a ≡ sext32 b
unfolding sext32
sext32_low a b e = ap (λ (v : ℕ). if ltb v (2 ^ 31) then v else v + (2 ^ 64 - 2 ^ 32)) e

-- The operands of the register instructions: `rd` and `rs1` are one register.
abbrev with_regs : ℕ → ℕ → InstructionData → InstructionData
with_regs r1 r2 inst = record inst { rd = r1; rs1 = r1; rs2 = r2 }

-- What the 16-bit register and immediate instructions do, as the 32-bit ones that they abbreviate.
pub AluExpands : Hart → InstructionData → Type 0
AluExpands h i =
    (exec_c_addi h i ≡ half (Alu.exec_addi h (with_regs i.rd i.rs2 i)))
    × (exec_c_addiw h i ≡ half (Alu.exec_addiw h (with_regs i.rd i.rs2 i)))
    × (exec_c_slli h i ≡ half (Alu.exec_slli h (with_regs i.rd i.rs2 i)))
    × (exec_c_srai h i ≡ half (Alu.exec_srai h (with_regs (rd' i) i.rs2 i)))
    × (exec_c_add h i ≡ half (Alu.exec_add h (with_regs i.rd (d_c_rs2 i.inst) i)))
    × (exec_c_sub h i ≡ half (Alu.exec_sub h (with_regs (rd' i) (rs2' i) i)))
    × (exec_c_xor h i ≡ half (Alu.exec_xor h (with_regs (rd' i) (rs2' i) i)))
    × (exec_c_or h i ≡ half (Alu.exec_or h (with_regs (rd' i) (rs2' i) i)))
    × (exec_c_and h i ≡ half (Alu.exec_and h (with_regs (rd' i) (rs2' i) i)))
    × (exec_c_addw h i ≡ half (Alu.exec_addw h (with_regs (rd' i) (rs2' i) i)))
    × (exec_c_subw h i ≡ half (Alu.exec_subw h (with_regs (rd' i) (rs2' i) i)))

-- The 16-bit register and immediate instructions do what ADDI, ADDIW, SLLI, SRAI, ADD, SUB, XOR, OR, AND,
-- ADDW and SUBW do on the registers that they name, whose values are below 2 ^ 64, but go on by two bytes.
pub alu-AluExpands :
    (h : Hart) (i : InstructionData) → ((k : ℕ) → h.gpr k < 2 ^ 64) → AluExpands h i
unfolding AluExpands exec_c_addi exec_c_addiw exec_c_slli exec_c_srai exec_c_add exec_c_sub
    exec_c_xor exec_c_or exec_c_and exec_c_addw exec_c_subw Alu.exec_addi Alu.exec_addiw
    Alu.exec_slli Alu.exec_srai Alu.exec_add Alu.exec_sub Alu.exec_xor Alu.exec_or Alu.exec_and
    Alu.exec_addw Alu.exec_subw
alu-AluExpands h i w = (
  refl,
  rw (sext32_low (u64 (h.gpr i.rd + i.imm)) (u64 (u32 (h.gpr i.rd) + i.imm)) (omega arith)) refl,
  refl,
  refl,
  refl,
  refl,
  refl,
  refl,
  refl,
  rw
      (sext32_low (u64 (h.gpr (rd' i) + h.gpr (rs2' i)))
        (u32 (u32 (h.gpr (rd' i)) + u32 (h.gpr (rs2' i)))) (omega arith))
      refl,
  rw
      (sext32_low (u64 (h.gpr (rd' i) + 2 ^ 64 - h.gpr (rs2' i)))
        (u32 (u32 (h.gpr (rd' i)) + 2 ^ 32 - u32 (h.gpr (rs2' i)))) (omega (arith, w (rs2' i))))
      refl,
)

abbrev Result : Bus → Type 0
Result bus = record { hart : Hart; world : bus.World; out : ExecReturn }

abbrev short : (bus : Bus) → Result bus → Result bus
short bus r = record r { out = record r.out { increase_pc = 2 } }

-- The 16-bit loads and stores do what the 32-bit ones do.
pub memory-Expands :
    (bus : Bus) (h : Hart) (w : bus.World) (i : InstructionData)
    → (exec_c_lw bus h w i
        ≡ short bus (LoadStore.exec_lw bus h w (record i { rd = rs2' i; rs1 = rs1' i })))
      × (exec_c_ld bus h w i
          ≡ short bus (LoadStore.exec_ld bus h w (record i { rd = rs2' i; rs1 = rs1' i })))
      × (exec_c_sw bus h w i
          ≡ short bus (LoadStore.exec_sw bus h w (record i { rs1 = rs1' i; rs2 = rs2' i })))
      × (exec_c_sd bus h w i
          ≡ short bus (LoadStore.exec_sd bus h w (record i { rs1 = rs1' i; rs2 = rs2' i })))
      × (exec_c_lwsp bus h w i ≡ short bus (LoadStore.exec_lw bus h w (record i { rs1 = 2 })))
      × (exec_c_ldsp bus h w i ≡ short bus (LoadStore.exec_ld bus h w (record i { rs1 = 2 })))
      × (exec_c_swsp bus h w i
          ≡ short bus (LoadStore.exec_sw bus h w (record i { rs1 = 2; rs2 = d_c_rs2 i.inst })))
      × (exec_c_sdsp bus h w i
          ≡ short bus (LoadStore.exec_sd bus h w (record i { rs1 = 2; rs2 = d_c_rs2 i.inst })))
unfolding exec_c_lw exec_c_ld exec_c_sw exec_c_sd exec_c_lwsp exec_c_ldsp exec_c_swsp exec_c_sdsp
    LoadStore.exec_lw LoadStore.exec_ld LoadStore.exec_sw LoadStore.exec_sd
memory-Expands bus h w i = (refl, refl, refl, refl, refl, refl, refl, refl)
