-- ===== src/Dev/Plic/Lowest.antt =====
-- The inner loop's way through the set bits of a word: `active & (active - 1)` clears the bit that
-- `countr_zero` found and no other, so as many rounds are enough as there are set bits.
use rv64_vm.Prelude.{
  ℕ, zero, suc, ◌+◌, ◌-◌, ◌/◌, ◌%◌, ◌^◌, ◌≤◌, ◌<◌, min, bit_and, bit, ◌≡◌, ◌≢◌, ◌⊎◌, inl, inr, ap,
  ◌∙◌, arith, ◌==◌, if◌then◌else◌,
}
use native.Mathlib.Nat.{pow-succ'}
use rv64_vm.Bits.{bit-suc, bit-bit_and, bit_ext, bit_and-lt, half-bit_and}
use rv64_vm.Dev.Plic.{countr_zero}

half-lt : (n x : ℕ) → x < 2 ^ suc n → x / 2 < 2 ^ n
half-lt n x h = omega (arith, pow-succ' 2 n)

pub bit-countr_zero :
    (n x : ℕ) → x < 2 ^ n → x ≢ 0 → (countr_zero n x < n) × (bit x (countr_zero n x) ≡ 1)
unfolding countr_zero
bit-countr_zero zero x h ne = absurd (omega arith)
bit-countr_zero (suc n) x h ne = elim (parity x) [
  | inl odd ↦ ground (arith, odd)
  | inr even ↦
      let rest = bit-countr_zero n (x / 2) (half-lt n x h) (omega arith) in
      ground (arith, even, rest, bit-suc x (countr_zero n (x / 2)))
]
  where
    parity : (x : ℕ) → (x % 2 ≡ 1) ⊎ (x % 2 ≡ 0)
    parity x = omega arith

bit-pred :
    (n x k : ℕ)
    → x < 2 ^ n
    → x ≢ 0
    → min (bit x k) (bit (x - 1) k) ≡ (if k == countr_zero n x then 0 else bit x k)
unfolding countr_zero
bit-pred zero x k h ne = absurd (omega arith)
bit-pred (suc n) x zero h ne = ground arith
bit-pred (suc n) x (suc k) h ne = ground (
  arith,
  bit-suc x k,
  bit-suc (x - 1) k,
  (let e : x % 2 ≡ 1 → (x - 1) / 2 ≡ x / 2 = λ o. omega arith in e),
  (let e : x % 2 ≡ 0 → (x - 1) / 2 ≡ x / 2 - 1 = λ o. omega arith in e),
  bit-pred n (x / 2) k (half-lt n x h),
)

-- The bits of `active & (active - 1)`.
pub bit-clear_lowest :
    (n x k : ℕ)
    → x < 2 ^ n
    → x ≢ 0
    → bit (bit_and x (x - 1)) k ≡ (if k == countr_zero n x then 0 else bit x k)
bit-clear_lowest n x k h ne = bit-bit_and x (x - 1) k ∙ bit-pred n x k h ne

-- How many of the lowest `n` bits are set.
pub ones : ℕ → ℕ → ℕ
ones zero x = 0
ones (suc n) x = ones n (x / 2) + x % 2

pub ones-le : (n x : ℕ) → ones n x ≤ n
unfolding ones
ones-le zero x = omega arith
ones-le (suc n) x = omega (arith, ones-le n (x / 2))

pub bit_of_ones : (n x k : ℕ) → k < n → ones n x ≡ 0 → bit x k ≡ 0
unfolding ones
bit_of_ones zero x k hk none = absurd (omega arith)
bit_of_ones (suc n) x zero hk none = omega arith
bit_of_ones (suc n) x (suc k) hk none =
    bit-suc x k ∙ bit_of_ones n (x / 2) k (omega arith) (omega arith)

bit_and_self : (n x : ℕ) → x < 2 ^ n → bit_and x x ≡ x
bit_and_self n x h =
    bit_ext n (bit_and x x) x (bit_and-lt n x x h) h (λ k hk. omega (arith, bit-bit_and x x k))

pub ones-clear_lowest : (n x : ℕ) → x < 2 ^ n → x ≢ 0 → ones n (bit_and x (x - 1)) + 1 ≡ ones n x
unfolding ones
ones-clear_lowest zero x h ne = absurd (omega arith)
ones-clear_lowest (suc n) x h ne = elim (parity x) [
  | inl odd ↦
      let e : bit_and x (x - 1) / 2 ≡ x / 2 =
        half-bit_and x (x - 1)
        ∙ ap (λ (t : ℕ). bit_and (x / 2) t) (omega arith)
        ∙ bit_and_self n (x / 2) (half-lt n x h) in
      let z : bit_and x (x - 1) % 2 ≡ 0 = omega (arith, bit-bit_and x (x - 1) 0) in
      rw (e, z) (omega arith)
  | inr even ↦
      let e : bit_and x (x - 1) / 2 ≡ bit_and (x / 2) (x / 2 - 1) =
        half-bit_and x (x - 1) ∙ ap (λ (t : ℕ). bit_and (x / 2) t) (omega arith) in
      let z : bit_and x (x - 1) % 2 ≡ 0 = omega (arith, bit-bit_and x (x - 1) 0) in
      rw (e, z) (omega (arith, ones-clear_lowest n (x / 2) (half-lt n x h) (omega arith)))
]
  where
    parity : (x : ℕ) → (x % 2 ≡ 1) ⊎ (x % 2 ≡ 0)
    parity x = omega arith
