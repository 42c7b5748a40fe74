-- ===== src/Isa/Zbb/Count.antt =====
-- src/sets/zbb.cpp: what the counting loops count.
use native.Mathlib.Nat.{pow-succ', mul-mod_right, div-add-mod}
use rv64_vm.Prelude.{
  ℕ, zero, suc, ◌+◌, ◌*◌, ◌/◌, ◌%◌, ◌^◌, ◌≤◌, ◌≡◌, ◌⊎◌, inl, inr, ap, ◌∙◌, arith, bit, ◌==◌,
  Bool-cases, refl, ==_self,
}
use rv64_vm.Hart.State.{Hart, InstructionData}
use rv64_vm.Isa.Rv64i.Alu.{rs1}
use rv64_vm.Isa.Zbb.{lowest, exec_ctz}

-- A number whose `i` lowest bits and bit `i` are clear has its `i + 1` lowest bits clear.
clear_suc : (x i : ℕ) → x % 2 ^ i ≡ 0 → bit x i ≡ 0 → x % 2 ^ suc i ≡ 0
clear_suc x i low here =
    ap (λ (t : ℕ). t % 2 ^ suc i) whole ∙ mul-mod_right (2 ^ suc i) (x / 2 ^ i / 2)
  where
    whole : x ≡ 2 ^ suc i * (x / 2 ^ i / 2)
    whole =
        let even : x / 2 ^ i ≡ 2 * (x / 2 ^ i / 2) = omega arith in
        rw (pow-succ' 2 i) (omega (arith, div-add-mod x (2 ^ i), ap (λ (t : ℕ). 2 ^ i * t) even))

-- `k` is the number of clear bits below the lowest set bit of `x`, or `c` if there is none below `c`.
pub Trails : ℕ → ℕ → ℕ → Type 0
Trails x c k = (k ≤ c) × (x % 2 ^ k ≡ 0) × ((k ≡ c) ⊎ (bit x k ≡ 1))

lowest-Trails : (x c i left : ℕ) → i + left ≡ c → x % 2 ^ i ≡ 0 → Trails x c (lowest x c i left)
unfolding lowest Trails
lowest-Trails x c i zero all low =
    (omega arith, rw (let e : c ≡ i = omega arith in e) low, inl (omega arith))
lowest-Trails x c i (suc left) all low = elim (Bool-cases (bit x i == 1)) [
  | inl here ↦ rw here (omega arith, low, inr (ground arith))
  | inr skip ↦ rw skip (
      lowest-Trails x c (i + 1) left (omega arith)
        (rw (let e : i + 1 ≡ suc i = omega arith in e) (clear_suc x i low (ground arith))))
]

-- CTZ writes 64 for 0, and otherwise the number of clear bits below the lowest set bit.
pub exec_ctz_lem :
    (h : Hart) (inst : InstructionData) → Trails (rs1 h inst) 64 ((exec_ctz h inst).0.gpr inst.rd)
unfolding exec_ctz
exec_ctz_lem h inst = rw (==_self inst.rd) (lowest-Trails (rs1 h inst) 64 0 64 refl (omega arith))
