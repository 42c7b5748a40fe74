-- ===== src/Bits/Masks.antt =====
-- `&` with the mask of a page or of its number, as remainder and quotient.
use native.Mathlib.Nat.{mod-eq_of_lt, pow-succ', one-le-pow, div-div-eq-div-mul, div-add-mod}
use rv64_vm.Prelude.{
  ℕ, zero, suc, ◌+◌, ◌-◌, ◌*◌, ◌/◌, ◌%◌, ◌^◌, ◌≤◌, ◌<◌, min, bit_and, bit_or, ◌≡◌, ap, arith, not64,
}
use rv64_vm.Bits.{bit_and-zero, bit-bit_or, bit_ext, bit_or-lt}
use rv64_vm.Bits.Step.{bit_and_step}

-- A remainder and a quotient, from those of `x / 2`.
mod-half : (n x : ℕ) → x % 2 ^ suc n ≡ x / 2 % 2 ^ n * 2 + x % 2
mod-half n x =
    let halves = ap (λ (t : ℕ). 2 ^ n * t) (div-div-eq-div-mul x 2 (2 ^ n)) in
    rw (pow-succ' 2 n)
      (omega (arith, div-add-mod x (2 * 2 ^ n), div-add-mod (x / 2) (2 ^ n), halves))

pub bit_and-mask : (n x : ℕ) → bit_and x (2 ^ n - 1) ≡ x % 2 ^ n
bit_and-mask zero x = omega (arith, bit_and-zero x)
bit_and-mask (suc n) x =
    let half : (2 ^ suc n - 1) / 2 ≡ 2 ^ n - 1 = omega (arith, pow-succ' 2 n) in
    let odd : (2 ^ suc n - 1) % 2 ≡ 1 = omega (arith, pow-succ' 2 n, one-le-pow n 2) in
    let step : bit_and x (2 ^ suc n - 1) ≡ bit_and (x / 2) (2 ^ n - 1) * 2 + min (x % 2) 1 =
      rw (half, odd) at (bit_and_step x (2 ^ suc n - 1)) in
    omega (arith, step, bit_and-mask n (x / 2), mod-half n x)

-- The bits from `n` on of a number of `w` bits.
bit_and-high : (n w x : ℕ) → n ≤ w → x < 2 ^ w → bit_and x (2 ^ w - 2 ^ n) ≡ x - x % 2 ^ n
bit_and-high zero w x le lt = omega (arith, bit_and-mask w x, mod-eq_of_lt lt)
bit_and-high (suc n) zero x le lt = absurd (omega arith)
bit_and-high (suc n) (suc w) x le lt =
    let half : (2 ^ suc w - 2 ^ suc n) / 2 ≡ 2 ^ w - 2 ^ n =
      omega (arith, pow-succ' 2 n, pow-succ' 2 w) in
    let even : (2 ^ suc w - 2 ^ suc n) % 2 ≡ 0 = omega (arith, pow-succ' 2 n, pow-succ' 2 w) in
    let step : bit_and x (2 ^ suc w - 2 ^ suc n)
        ≡ bit_and (x / 2) (2 ^ w - 2 ^ n) * 2 + min (x % 2) 0 =
      rw (half, even) at (bit_and_step x (2 ^ suc w - 2 ^ suc n)) in
    let rest = bit_and-high n w (x / 2) (omega arith) (omega (arith, pow-succ' 2 w)) in
    omega (arith, step, rest, mod-half n x)

pub bit_and-not_mask :
    (n x : ℕ) → n ≤ 64 → x < 2 ^ 64 → bit_and x (not64 (2 ^ n - 1)) ≡ x - x % 2 ^ n
bit_and-not_mask n x le lt =
    let e : not64 (2 ^ n - 1) ≡ 2 ^ 64 - 2 ^ n = omega (arith, one-le-pow n 2) in
    rw e (bit_and-high n 64 x le lt)

pub bit_or_comm : (a b : ℕ) → a < 2 ^ 64 → b < 2 ^ 64 → bit_or a b ≡ bit_or b a
bit_or_comm a b ha hb =
    bit_ext 64 (bit_or a b) (bit_or b a) (bit_or-lt 64 a b ha hb) (bit_or-lt 64 b a hb ha)
      (λ k hk. omega (arith, bit-bit_or a b k, bit-bit_or b a k))
