-- ===== src/Bits.antt =====
-- `&`, `|`, `^` and `~` bit by bit, at every width.
mod Step
pub mod Join
pub mod Masks
use Prim.Native.Nat.{differ}
use rv64_vm.Bits.Step.{
  bit_or_step, bit_and_step, bit_xor_step, differ-lt, zero-bit_and, zero-bit_or_step,
}
use mathlib.Core.WellFounded
use native.Mathlib.Nat.{pow-succ', div-div-eq-div-mul, one-le-pow, div-add-mod}
use rv64_vm.Prelude.{
  ℕ, zero, suc, ◌+◌, ◌-◌, ◌*◌, ◌/◌, ◌%◌, ◌^◌, ◌≤◌, ◌<◌, min, max, bit_and, bit_or, bit_xor, bit,
  not64, with_bit, ◌≡◌, ◌≢◌, refl, sym, ap, ◌∙◌, arith, ◌==◌, if◌then◌else◌, lt_wf,
}

div-pow-suc : (x k : ℕ) → x / 2 ^ suc k ≡ x / 2 / 2 ^ k
div-pow-suc x k = rw (pow-succ' 2 k) (sym (div-div-eq-div-mul x 2 (2 ^ k)))

pub bit-suc : (x k : ℕ) → bit x (suc k) ≡ bit (x / 2) k
bit-suc x k = ap (λ t. t % 2) (div-pow-suc x k)

pub zero-bit_or : (b : ℕ) → bit_or 0 b ≡ b
zero-bit_or b = zero-bit_or_step b

pub bit_and-zero : (a : ℕ) → bit_and a 0 ≡ 0
bit_and-zero a = WellFounded.induction lt_wf {C = λ k. bit_and k 0 ≡ 0} a step
  where
    step : (n : ℕ) → ((m : ℕ) → m < n → bit_and m 0 ≡ 0) → bit_and n 0 ≡ 0
    step zero ih = zero-bit_and 0
    step (suc n) ih = omega (arith, bit_and_step (suc n) 0, ih (suc n / 2) (omega arith))

pub half-bit_and : (a b : ℕ) → bit_and a b / 2 ≡ bit_and (a / 2) (b / 2)
half-bit_and a b = omega (arith, bit_and_step a b)

half-bit_or : (a b : ℕ) → bit_or a b / 2 ≡ bit_or (a / 2) (b / 2)
half-bit_or a b = omega (arith, bit_or_step a b)

pub bit-bit_and : (a b k : ℕ) → bit (bit_and a b) k ≡ min (bit a k) (bit b k)
bit-bit_and a b zero = omega (arith, bit_and_step a b)
bit-bit_and a b (suc k) =
    rw (bit-suc (bit_and a b) k, half-bit_and a b, bit-suc a k, bit-suc b k)
      (bit-bit_and (a / 2) (b / 2) k)

pub bit-bit_or : (a b k : ℕ) → bit (bit_or a b) k ≡ max (bit a k) (bit b k)
bit-bit_or a b zero = omega (arith, bit_or_step a b)
bit-bit_or a b (suc k) =
    rw (bit-suc (bit_or a b) k, half-bit_or a b, bit-suc a k, bit-suc b k)
      (bit-bit_or (a / 2) (b / 2) k)

-- The complement of a number of `n` bits.
bit-complement : (n m k : ℕ) → m < 2 ^ n → k < n → bit (2 ^ n - 1 - m) k ≡ 1 - bit m k
bit-complement zero m k hm hk = elim hk [ ]
bit-complement (suc n) m zero hm hk = omega (arith, pow-succ' 2 n)
bit-complement (suc n) m (suc k) hm hk =
    rw (bit-suc (2 ^ suc n - 1 - m) k, halves, bit-suc m k)
      (bit-complement n (m / 2) k (omega (arith, pow-succ' 2 n)) (omega arith))
  where
    halves : (2 ^ suc n - 1 - m) / 2 ≡ 2 ^ n - 1 - m / 2
    halves = omega (arith, pow-succ' 2 n, one-le-pow n 2)

pub bit-not64 : (m k : ℕ) → m < 2 ^ 64 → k < 64 → bit (not64 m) k ≡ 1 - bit m k
bit-not64 m k = bit-complement 64 m k

-- Numbers below `2 ^ n` with the same bits are the same.
pub bit_ext : (n a b : ℕ) → a < 2 ^ n → b < 2 ^ n → ((k : ℕ) → k < n → bit a k ≡ bit b k) → a ≡ b
bit_ext zero a b ha hb h = omega arith
bit_ext (suc n) a b ha hb h =
    let rest =
      bit_ext n (a / 2) (b / 2) (omega (arith, pow-succ' 2 n)) (omega (arith, pow-succ' 2 n))
        (λ k hk. sym (bit-suc a k) ∙ h (suc k) (omega arith) ∙ bit-suc b k) in
    omega (arith, rest, h 0 (omega arith))

half-bit_xor : (a b : ℕ) → bit_xor a b / 2 ≡ bit_xor (a / 2) (b / 2)
half-bit_xor a b =
    omega (arith, bit_xor_step a b, differ-lt (a % 2) (b % 2) (omega arith) (omega arith))

bit-zero : (x : ℕ) → bit x 0 ≡ x % 2
bit-zero x = omega arith

pub bit-bit_xor : (a b k : ℕ) → bit (bit_xor a b) k ≡ differ (bit a k) (bit b k)
bit-bit_xor a b zero =
    rw (bit-zero (bit_xor a b), bit-zero a, bit-zero b)
      (omega (arith, bit_xor_step a b, differ-lt (a % 2) (b % 2) (omega arith) (omega arith)))
bit-bit_xor a b (suc k) =
    rw (bit-suc (bit_xor a b) k, half-bit_xor a b, bit-suc a k, bit-suc b k)
      (bit-bit_xor (a / 2) (b / 2) k)

mod-pow-suc : (x k : ℕ) → x % 2 ^ suc k ≡ x / 2 % 2 ^ k * 2 + x % 2
mod-pow-suc x k = rw (pow-succ' 2 k) (
    omega (
      arith,
      div-add-mod x (2 * 2 ^ k),
      div-add-mod (x / 2) (2 ^ k),
      ap (λ (t : ℕ). 2 ^ k * t) (div-div-eq-div-mul x 2 (2 ^ k)),
    ))

-- The step from `x / 2` to `x` for `with_bit`.
with_bit-suc : (x k b : ℕ) → with_bit x (suc k) b ≡ with_bit (x / 2) k b * 2 + x % 2
with_bit-suc x k b = omega (
  arith,
  mod-pow-suc x k,
  pow-succ' 2 (suc k),
  div-pow-suc x (suc k),
  ap (λ (t : ℕ). t * 2 ^ suc (suc k)) (div-pow-suc x (suc k)),
  ap (λ (t : ℕ). x / 2 / 2 ^ suc k * t) (pow-succ' 2 (suc k)),
  ap (λ (t : ℕ). b * t) (pow-succ' 2 k),
)

half-with_bit : (x k b : ℕ) → with_bit x (suc k) b / 2 ≡ with_bit (x / 2) k b
half-with_bit x k b = omega (arith, with_bit-suc x k b)

-- A written bit reads back.
pub bit-with_bit_self : (x k b : ℕ) → b < 2 → bit (with_bit x k b) k ≡ b
bit-with_bit_self x zero b hb = omega arith
bit-with_bit_self x (suc k) b hb =
    rw (bit-suc (with_bit x (suc k) b) k, half-with_bit x k b) (bit-with_bit_self (x / 2) k b hb)

-- Writing bit `k` changes no other bit.
pub bit-with_bit_ne : (x k j b : ℕ) → b < 2 → k ≢ j → bit (with_bit x k b) j ≡ bit x j
bit-with_bit_ne x zero zero b hb ne = absurd (ne refl)
bit-with_bit_ne x zero (suc j) b hb ne =
    rw (bit-suc (with_bit x 0 b) j, bit-suc x j) (ap (λ (t : ℕ). t / 2 ^ j % 2) (omega arith))
bit-with_bit_ne x (suc k) zero b hb ne = omega (arith, with_bit-suc x k b)
bit-with_bit_ne x (suc k) (suc j) b hb ne =
    rw (bit-suc (with_bit x (suc k) b) j, half-with_bit x k b, bit-suc x j)
      (bit-with_bit_ne (x / 2) k j b hb (λ e. ne (ap suc e)))

-- `(a & m) | (v & ~m)`: the bits of `m` from `a`, the others from `v`.
pub bit_merge :
    (a v m k : ℕ)
    → m < 2 ^ 64
    → k < 64
    → bit (bit_or (bit_and a m) (bit_and v (not64 m))) k
      ≡ (if bit m k == 1 then bit a k else bit v k)
bit_merge a v m k hm hk = ground (
  arith,
  bit-bit_or (bit_and a m) (bit_and v (not64 m)) k,
  bit-bit_and a m k,
  bit-bit_and v (not64 m) k,
  bit-not64 m k hm hk,
)

half-lt : (n a : ℕ) → a < 2 ^ suc n → a / 2 < 2 ^ n
half-lt n a h = omega (arith, pow-succ' 2 n)

pub bit_and-lt : (n a b : ℕ) → a < 2 ^ n → bit_and a b < 2 ^ n
bit_and-lt zero a b h = rw (let e : a ≡ 0 = omega arith in e) (omega (arith, zero-bit_and b))
bit_and-lt (suc n) a b h =
    omega (arith, pow-succ' 2 n, bit_and_step a b, bit_and-lt n (a / 2) (b / 2) (half-lt n a h))

pub bit_and-le : (n a b : ℕ) → a < 2 ^ n → bit_and a b ≤ a
bit_and-le zero a b h = rw (let e : a ≡ 0 = omega arith in e) (omega (arith, zero-bit_and b))
bit_and-le (suc n) a b h =
    omega (arith, bit_and_step a b, bit_and-le n (a / 2) (b / 2) (half-lt n a h))

pub bit_or-lt : (n a b : ℕ) → a < 2 ^ n → b < 2 ^ n → bit_or a b < 2 ^ n
bit_or-lt zero a b h k =
    rw (let e : a ≡ 0 = omega arith in e, let e : b ≡ 0 = omega arith in e) (omega arith)
bit_or-lt (suc n) a b h k = omega (
  arith,
  pow-succ' 2 n,
  bit_or_step a b,
  bit_or-lt n (a / 2) (b / 2) (half-lt n a h) (half-lt n b k),
)

pub bit_xor-lt : (n a b : ℕ) → a < 2 ^ n → b < 2 ^ n → bit_xor a b < 2 ^ n
bit_xor-lt zero a b h k =
    rw (let e : a ≡ 0 = omega arith in e, let e : b ≡ 0 = omega arith in e) (omega arith)
bit_xor-lt (suc n) a b h k = omega (
  arith,
  pow-succ' 2 n,
  bit_xor_step a b,
  differ-lt (a % 2) (b % 2) (omega arith) (omega arith),
  bit_xor-lt n (a / 2) (b / 2) (half-lt n a h) (half-lt n b k),
)

pub bit_and-lt_right : (n a b : ℕ) → b < 2 ^ n → bit_and a b < 2 ^ n
bit_and-lt_right zero a b h = rw (let e : b ≡ 0 = omega arith in e) (omega (arith, bit_and-zero a))
bit_and-lt_right (suc n) a b h =
    omega
      (arith, pow-succ' 2 n, bit_and_step a b, bit_and-lt_right n (a / 2) (b / 2) (half-lt n b h))
