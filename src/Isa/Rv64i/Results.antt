-- ===== src/Isa/Rv64i/Results.antt =====
-- What the register instructions compute.
use native.Mathlib.Nat.{div-le_self}
use rv64_vm.Prelude.{ℕ, ◌+◌, ◌-◌, ◌%◌, ◌^◌, ◌<◌, if◌then◌else◌, ◌==◌, u64, ◌≡◌, ◌≢◌, arith, ◌>>>◌}
use rv64_vm.Prelude.Int.{ℤ, pos, negsuc}
use rv64_vm.Hart.State.{Hart, InstructionData, ExecReturn, next, jumped}
use rv64_vm.Isa.Arith.{signed64, sext32, sra64}
use rv64_vm.Isa.Rv64i.Alu.{
  rs1, rs2, exec_add, exec_addw, exec_sub, exec_subw, exec_addi, exec_addiw, exec_sra, exec_srai,
  exec_slt, exec_sltu,
}
use rv64_vm.Isa.Rv64i.Jump.{exec_blt, exec_bge, exec_bltu, exec_bgeu, exec_jalr, target}

-- The value that an instruction left in its destination.
abbrev pub result : (Hart → InstructionData → Hart × ExecReturn) → Hart → InstructionData → ℕ
result exec h inst = (exec h inst).0.gpr inst.rd

-- For a second operand of 64 bits, ADDW, SUBW and ADDIW give the low word of ADD, SUB and ADDI,
-- sign-extended, also across a wrap.
pub word_ops :
    (h : Hart) (inst : InstructionData)
    → rs2 h inst < 2 ^ 64
    → (result exec_addw h inst ≡ sext32 (result exec_add h inst))
      × (result exec_subw h inst ≡ sext32 (result exec_sub h inst))
      × (result exec_addiw h inst ≡ sext32 (result exec_addi h inst))
unfolding exec_addw exec_add exec_subw exec_sub exec_addiw exec_addi sext32
word_ops h inst b = (ground arith, ground arith, ground arith)

-- SUB after an ADD into its own first operand gives that operand back, for 64-bit operands in different
-- registers.
pub sub-add :
    (h : Hart) (inst : InstructionData)
    → rs1 h inst < 2 ^ 64
    → rs2 h inst < 2 ^ 64
    → inst.rd ≡ inst.rs1
    → inst.rs1 ≢ inst.rs2
    → result exec_sub (exec_add h inst).0 inst ≡ rs1 h inst
unfolding exec_sub exec_add
sub-add h inst a b e ne = ground arith

-- Of -(n + 1) the arithmetic shift makes -(n / 2 ^ s + 1).
signed64-sra64 :
    (x s : ℕ)
    → x < 2 ^ 64
    → signed64 (sra64 x s)
      ≡ elim (signed64 x) [ pos n ↦ pos (n >>> s) | negsuc n ↦ negsuc (n >>> s) ]
unfolding signed64 sra64
signed64-sra64 x s h = ground (arith, div-le_self x (2 ^ s), div-le_self (2 ^ 64 - 1 - x) (2 ^ s))

-- SRA and SRAI divide the signed value of a 64-bit operand by the power of two of the shift amount (for
-- SRA the low six bits of `rs2`) and round towards minus infinity: -(n + 1) becomes -(n / 2 ^ s + 1).
pub exec_sra_floor :
    (h : Hart) (inst : InstructionData)
    → rs1 h inst < 2 ^ 64
    → let by : ℕ → ℤ → ℤ = λ s x. elim x [ pos n ↦ pos (n >>> s) | negsuc n ↦ negsuc (n >>> s) ] in
      (signed64 (result exec_sra h inst) ≡ by (rs2 h inst % 64) (signed64 (rs1 h inst)))
      × (signed64 (result exec_srai h inst) ≡ by inst.imm (signed64 (rs1 h inst)))
unfolding exec_sra exec_srai
exec_sra_floor h inst b = (
  ground (arith, signed64-sra64 (rs1 h inst) (rs2 h inst % 64) b),
  ground (arith, signed64-sra64 (rs1 h inst) inst.imm b),
)

-- A conditional branch to an even target jumps there exactly when the comparison instruction on the
-- same operands gives 1 (BLT and SLT, BLTU and SLTU), and its opposite exactly when it does not.
pub branch-compare :
    (h : Hart) (inst : InstructionData)
    → target h inst % 2 ≡ 0
    → let s = result exec_slt h inst == 1 in
      let u = result exec_sltu h inst == 1 in
      (exec_blt h inst ≡ (if s then (record h { pc = target h inst }, jumped) else (h, next)))
      × (exec_bge h inst ≡ (if s then (h, next) else (record h { pc = target h inst }, jumped)))
      × (exec_bltu h inst ≡ (if u then (record h { pc = target h inst }, jumped) else (h, next)))
      × (exec_bgeu h inst ≡ (if u then (h, next) else (record h { pc = target h inst }, jumped)))
unfolding exec_slt exec_sltu exec_blt exec_bge exec_bltu exec_bgeu
branch-compare h inst even = (ground arith, ground arith, ground arith, ground arith)

-- JALR always jumps, to the even address that is the sum of `rs1` and the immediate without its lowest
-- bit, and puts the address after itself in `rd`, also where `rd` is `rs1`.
pub exec_jalr-jumped :
    (h : Hart) (inst : InstructionData)
    → let (h', out) = exec_jalr h inst in
      (out ≡ jumped)
      × (h'.pc % 2 ≡ 0)
      × (h'.pc + u64 (rs1 h inst + inst.imm) % 2 ≡ u64 (rs1 h inst + inst.imm))
      × (h'.gpr inst.rd ≡ u64 (h.pc + 4))
unfolding exec_jalr
exec_jalr-jumped h inst = (ground arith, ground arith, ground arith, ground arith)
