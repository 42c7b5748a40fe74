-- ===== src/Bits/Step.antt =====
-- The lowest digit of `^`, `&` and `|`, from their meaning: a walk over the binary digits of both
-- operands that stops when its fuel, the first operand, is used up.
use Prim.Native.Nat.{digits, differ, bitwise, bit_and-bitwise, bit_or-bitwise, bit_xor-bitwise}
use native.Mathlib.Nat.{le_refl}
use rv64_vm.Prelude.{
  ℕ, zero, suc, ◌+◌, ◌*◌, ◌/◌, ◌%◌, ◌≤◌, ◌<◌, min, max, bit_and, bit_or, bit_xor, ◌≡◌, refl, sym,
  ◌∙◌, arith,
}

-- What the walk does at the end of the second operand is `last`, and at a digit `join`.
module _ (last : ℕ → ℕ) (join : ℕ → ℕ → ℕ) where
  digits-zero : (fuel y : ℕ) → digits last join fuel 0 y ≡ last y
  digits-zero zero y = refl
  digits-zero (suc fuel) y = refl

  -- All fuel from the first operand upwards gives the same.
  digits_enough :
      (x y more fuel : ℕ)
      → x ≤ fuel
      → x ≤ more
      → digits last join fuel x y ≡ digits last join more x y
  digits_enough zero y more fuel h g = digits-zero fuel y ∙ sym (digits-zero more y)
  digits_enough (suc x) y zero fuel h g = absurd (omega arith)
  digits_enough (suc x) y (suc more) zero h g = absurd (omega arith)
  digits_enough (suc x) y (suc more) (suc fuel) h g =
      rw (digits_enough (suc x / 2) (y / 2) more fuel (omega arith) (omega arith))

  lowest_digit :
      (x y : ℕ)
      → let h = suc x / 2 in
        bitwise last join (suc x) y ≡ join (suc x % 2) (y % 2) + 2 * bitwise last join h (y / 2)
  lowest_digit x y =
      let enough = digits_enough (suc x / 2) (y / 2) (suc x / 2) x (omega arith) (le_refl _) in
      omega (arith, enough)

pub bit_xor_step : (x y : ℕ) → bit_xor x y ≡ bit_xor (x / 2) (y / 2) * 2 + differ (x % 2) (y % 2)
bit_xor_step (suc x) y = simp bit_xor-bitwise (omega (arith, lowest_digit (λ t. t) differ x y))
bit_xor_step zero y = simp bit_xor-bitwise (omega arith)

pub bit_and_step : (x y : ℕ) → bit_and x y ≡ bit_and (x / 2) (y / 2) * 2 + min (x % 2) (y % 2)
bit_and_step (suc x) y = simp bit_and-bitwise (omega (arith, lowest_digit (λ _. 0) min x y))
bit_and_step zero y = simp bit_and-bitwise (omega arith)

pub bit_or_step : (x y : ℕ) → bit_or x y ≡ bit_or (x / 2) (y / 2) * 2 + max (x % 2) (y % 2)
bit_or_step (suc x) y = simp bit_or-bitwise (omega (arith, lowest_digit (λ t. t) max x y))
bit_or_step zero y = simp bit_or-bitwise (omega arith)

pub differ-lt : (a b : ℕ) → a < 2 → b < 2 → differ a b < 2
differ-lt zero b p q = q
differ-lt (suc zero) zero p q = omega arith
differ-lt (suc zero) (suc zero) p q = omega arith
differ-lt (suc zero) (suc (suc b)) p q = absurd (omega arith)
differ-lt (suc (suc a)) b p q = absurd (omega arith)

pub zero-bit_and : (b : ℕ) → bit_and 0 b ≡ 0
zero-bit_and b = bit_and-bitwise 0 b

pub zero-bit_or_step : (b : ℕ) → bit_or 0 b ≡ b
zero-bit_or_step b = bit_or-bitwise 0 b
