-- ===== src/Isa/Rv64m/Division.antt =====
-- Division and remainder.
use native.Mathlib.Nat.{div-add-mod', mod-lt, div-le_self}
use rv64_vm.Prelude.{
  ℕ, zero, suc, ◌+◌, ◌-◌, ◌*◌, ◌/◌, ◌%◌, ◌^◌, ◌<◌, ◌≤◌, u32, u64, ◌≡◌, ◌≢◌, refl, arith, ap, ◌⊎◌,
  inl, inr,
}
use rv64_vm.Prelude.Int.{ℤ, pos, negsuc}
use rv64_vm.Hart.State.{Hart, InstructionData}
use rv64_vm.Isa.Arith.{sext32, signed64, to_word, tdiv, tmod, neg}
use rv64_vm.Isa.Rv64i.Alu.{rs1, rs2}
use rv64_vm.Isa.Rv64i.Results.{result}
use rv64_vm.Isa.Rv64m.{exec_div, exec_divu, exec_rem, exec_remu, exec_remuw, exec_remw}

-- By a divisor that is not zero, DIVU and REMU give a quotient and a remainder: quotient times divisor
-- plus remainder is the dividend, and the remainder is less than the divisor.
pub divu-remu :
    (h : Hart) (inst : InstructionData)
    → rs2 h inst ≢ 0
    → let a = rs1 h inst in
      let b = rs2 h inst in
      (result exec_divu h inst * b + result exec_remu h inst ≡ a) × (result exec_remu h inst < b)
unfolding exec_divu exec_remu
divu-remu h inst ne =
    ground (arith, div-add-mod' (rs1 h inst) (rs2 h inst), mod-lt (rs1 h inst) {m = rs2 h inst})

-- By a divisor whose low word is zero, REMUW gives the whole dividend register, where REMW gives its
-- sign-extended low word.
pub remuw_by_zero :
    (h : Hart) (inst : InstructionData)
    → u32 (rs2 h inst) ≡ 0
    → (result exec_remuw h inst ≡ rs1 h inst) × (result exec_remw h inst ≡ sext32 (rs1 h inst))
unfolding exec_remuw exec_remw
remuw_by_zero h inst z = (ground arith, ground arith)

-- The product of a negated quotient and a negative divisor, or of either sign, wraps to the product
-- of the magnitudes.
to_word-neg : (m : ℕ) → m < 2 ^ 64 → u64 (to_word (neg m) + m) ≡ 0
unfolding to_word neg
to_word-neg zero h = omega arith
to_word-neg (suc m) h = omega arith

to_word-lt : (z : ℤ) → to_word z < 2 ^ 64
unfolding to_word
to_word-lt (pos n) = omega arith
to_word-lt (negsuc n) = omega arith

-- A negated factor negates the product, mod 2 ^ 64.
neg_mul : (w m b : ℕ) → u64 (w + m) ≡ 0 → u64 (w * b + m * b) ≡ 0
neg_mul w m b e =
    omega (
      arith,
      ap (λ (t : ℕ). t * b) (let f : w + m ≡ 2 ^ 64 * ((w + m) / 2 ^ 64) = omega arith in f),
    )

signed64_cases :
    (x : ℕ)
    → x < 2 ^ 64
    → ((x < 2 ^ 63) × (signed64 x ≡ pos x))
      ⊎ ((2 ^ 63 ≤ x) × (signed64 x ≡ negsuc (2 ^ 64 - 1 - x)))
unfolding signed64
signed64_cases x h = ground arith

-- The four combinations of signs. `n + 1` is the magnitude of a negative operand.
module _ (a b : ℕ) where
  pos_pos :
      b ≢ 0
      → a < 2 ^ 63
      → u64 (to_word (tdiv (pos a) (pos b)) * b + to_word (tmod (pos a) (pos b))) ≡ a
  unfolding tdiv tmod to_word
  pos_pos ne ha =
      let q : u64 (a / b) ≡ a / b = omega (arith, div-le_self a b) in
      let r : u64 (a % b) ≡ a % b =
        omega (arith, mod-lt a {m = b} (omega arith), div-add-mod' a b) in
      rw (q, r) (omega (arith, div-add-mod' a b))

  pos_neg :
      (n : ℕ)
      → n + 1 + b ≡ 2 ^ 64
      → a < 2 ^ 63
      → u64 (to_word (tdiv (pos a) (negsuc n)) * b + to_word (tmod (pos a) (negsuc n))) ≡ a
  unfolding tdiv tmod
  pos_neg n hb ha =
      let m = a / suc n in
      let r : to_word (pos (a % suc n)) ≡ a % suc n =
        unfold to_word in omega (arith, div-add-mod' a (suc n)) in
      rw r (
        omega (
          arith,
          neg_mul (to_word (neg m)) m b (to_word-neg m (omega (arith, div-le_self a (suc n)))),
          ap (λ (t : ℕ). m * t) hb,
          div-add-mod' a (suc n),
        ))

  neg_pos :
      (n : ℕ)
      → b ≢ 0
      → n < 2 ^ 63
      → n + 1 + a ≡ 2 ^ 64
      → u64 (to_word (tdiv (negsuc n) (pos b)) * b + to_word (tmod (negsuc n) (pos b))) ≡ a
  unfolding tdiv tmod
  neg_pos n ne small ha =
      let m = suc n / b in
      let r = suc n % b in
      omega (
        arith,
        neg_mul (to_word (neg m)) m b (to_word-neg m (omega (arith, div-le_self (suc n) b))),
        to_word-neg r (omega (arith, div-add-mod' (suc n) b)),
        div-add-mod' (suc n) b,
      )

  neg_neg :
      (n k : ℕ)
      → n < 2 ^ 63
      → n + 1 + a ≡ 2 ^ 64
      → k + 1 + b ≡ 2 ^ 64
      → u64 (to_word (tdiv (negsuc n) (negsuc k)) * b + to_word (tmod (negsuc n) (negsuc k))) ≡ a
  unfolding tdiv tmod
  neg_neg n k small ha hb =
      let m = suc n / suc k in
      let r = suc n % suc k in
      let q : to_word (pos m) ≡ m = unfold to_word in omega (arith, div-le_self (suc n) (suc k)) in
      rw q (
        omega (
          arith,
          to_word-neg r (omega (arith, div-add-mod' (suc n) (suc k))),
          ap (λ (t : ℕ). m * t) hb,
          div-add-mod' (suc n) (suc k),
        ))

  -- Whatever the signs, except for the one quotient that does not fit.
  signed_division :
      a < 2 ^ 64
      → b < 2 ^ 64
      → b ≢ 0
      → u64
          (to_word (tdiv (signed64 a) (signed64 b)) * b + to_word (tmod (signed64 a) (signed64 b)))
        ≡ a
  signed_division ha hb ne = by_signs (signed64_cases a ha) (signed64_cases b hb)
    where
      by_signs :
          ((a < 2 ^ 63) × (signed64 a ≡ pos a))
            ⊎ ((2 ^ 63 ≤ a) × (signed64 a ≡ negsuc (2 ^ 64 - 1 - a)))
          → ((b < 2 ^ 63) × (signed64 b ≡ pos b))
            ⊎ ((2 ^ 63 ≤ b) × (signed64 b ≡ negsuc (2 ^ 64 - 1 - b)))
          → u64 (
              to_word (tdiv (signed64 a) (signed64 b)) * b
              + to_word (tmod (signed64 a) (signed64 b)))
            ≡ a
      by_signs (inl (la, ea)) (inl (lb, eb)) = rw (ea, eb) (pos_pos ne la)
      by_signs (inl (la, ea)) (inr (lb, eb)) =
          rw (ea, eb) (pos_neg (2 ^ 64 - 1 - b) (omega arith) la)
      by_signs (inr (la, ea)) (inl (lb, eb)) =
          rw (ea, eb) (neg_pos (2 ^ 64 - 1 - a) ne (omega arith) (omega arith))
      by_signs (inr (la, ea)) (inr (lb, eb)) =
          rw (ea, eb)
            (neg_neg (2 ^ 64 - 1 - a) (2 ^ 64 - 1 - b) (omega arith) (omega arith) (omega arith))

tdiv_zero : (b : ℕ) → b < 2 ^ 64 → to_word (tdiv (signed64 0) (signed64 b)) ≡ 0
tdiv_zero b h = elim (signed64_cases b h) [
  | inl (lb, eb) ↦ rw (zero_signed, eb) (unfold tdiv to_word in omega (arith, div-le_self 0 b))
  | inr (lb, eb) ↦
      rw (zero_signed, eb)
        (unfold tdiv to_word neg in
          rw
            (let e : 0 / suc (2 ^ 64 - 1 - b) ≡ 0 =
                omega (arith, div-le_self 0 (suc (2 ^ 64 - 1 - b))) in
              e)
            refl)
]
  where
    zero_signed : signed64 0 ≡ pos 0
    zero_signed = unfold signed64 in refl

-- For 64-bit operands and a divisor that is not zero, quotient times divisor plus remainder, as DIV and
-- REM give them, is the dividend mod 2 ^ 64: for every combination of signs and in the overflow case.
pub div-rem :
    (h : Hart) (inst : InstructionData)
    → rs1 h inst < 2 ^ 64
    → rs2 h inst < 2 ^ 64
    → rs2 h inst ≢ 0
    → u64 (result exec_div h inst * rs2 h inst + result exec_rem h inst) ≡ rs1 h inst
unfolding exec_div exec_rem
div-rem h inst ha hb ne =
    ground (arith, signed_division (rs1 h inst) (rs2 h inst) ha hb ne, tdiv_zero (rs2 h inst) hb)
