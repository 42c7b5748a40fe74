-- ===== src/Isa/Rv64m/Products.antt =====
-- Multiplication: the high and low halves make up the whole product.
use rv64_vm.Prelude.{ℕ, ◌+◌, ◌-◌, ◌*◌, ◌%◌, ◌^◌, ◌<◌, ◌≡◌, ◌⊎◌, inl, inr, arith}
use rv64_vm.Hart.State.{Hart, InstructionData}
use rv64_vm.Isa.Rv64i.Alu.{rs1, rs2}
use rv64_vm.Isa.Rv64i.Results.{result}
use rv64_vm.Isa.Rv64m.{exec_mul, exec_mulh, exec_mulhu, exec_mulhsu, sext128}

sext128_cases : (x : ℕ) → (sext128 x ≡ x) ⊎ (sext128 x ≡ x + (2 ^ 128 - 2 ^ 64))
sext128_cases x = ground arith

low_word : (x y : ℕ) → sext128 x * y % 2 ^ 64 ≡ x * y % 2 ^ 64
low_word x y = elim (sext128_cases x) [ inl e ↦ rw e | inr e ↦ rw e (omega arith) ]

-- For 64-bit operands, MUL gives the low 64 bits of the product for each reading of them, and MULHU,
-- MULHSU and MULH the high 64 bits of the unsigned, mixed and signed 128-bit product.
pub mul-halves :
    (h : Hart) (inst : InstructionData)
    → rs1 h inst < 2 ^ 64
    → rs2 h inst < 2 ^ 64
    → let a = rs1 h inst in
      let b = rs2 h inst in
      let low = result exec_mul h inst in
      (result exec_mulhu h inst * 2 ^ 64 + low ≡ a * b)
      × (result exec_mulhsu h inst * 2 ^ 64 + low ≡ sext128 a * b % 2 ^ 128)
      × (result exec_mulh h inst * 2 ^ 64 + low ≡ sext128 a * sext128 b % 2 ^ 128)
unfolding exec_mul exec_mulh exec_mulhu exec_mulhsu
mul-halves h inst ha hb = (
  ground arith,
  ground (arith, low_word (rs1 h inst) (rs2 h inst)),
  ground (arith, low_word (rs1 h inst) (sext128 (rs2 h inst)), low_word (rs2 h inst) (rs1 h inst)),
)
