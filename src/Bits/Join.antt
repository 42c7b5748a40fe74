-- ===== src/Bits/Join.antt =====
-- `|` of disjoint parts is a sum, and `&` with a mask splits off its highest bit.
use native.Mathlib.Nat.{pow-succ', one-mul}
use rv64_vm.Prelude.{ℕ, zero, suc, ◌+◌, ◌*◌, ◌/◌, ◌^◌, ◌<◌, bit_and, bit_or, bit, ◌≡◌, ap, arith}
use rv64_vm.Bits.{bit-suc, zero-bit_or}
use rv64_vm.Bits.Step.{bit_or_step, bit_and_step}

shift-suc : (k q : ℕ) → q * 2 ^ suc k ≡ q * 2 ^ k + q * 2 ^ k
shift-suc k q = let twice = ap (λ (t : ℕ). q * t) (pow-succ' 2 k) in omega (arith, twice)

-- `r | (q << k)` is a sum when `r` fits `k` bits.
pub bit_or-shifted : (k q r : ℕ) → r < 2 ^ k → bit_or r (q * 2 ^ k) ≡ r + q * 2 ^ k
bit_or-shifted zero q r h =
    rw (let e : r ≡ 0 = omega arith in e) (omega (arith, zero-bit_or (q * 2 ^ 0)))
bit_or-shifted (suc k) q r h =
    ground (
      arith,
      bit_or_step r (q * 2 ^ suc k),
      shift-suc k q,
      pow-succ' 2 k,
      bit_or-shifted k q (r / 2),
    )

pub bit_or_top : (k m : ℕ) → m < 2 ^ k → bit_or m (2 ^ k) ≡ m + 2 ^ k
bit_or_top k m h = rw (one-mul (2 ^ k)) at (bit_or-shifted k 1 m h)

-- A mask with a new highest bit.
pub bit_and_top : (i x m : ℕ) → m < 2 ^ i → bit_and x (m + 2 ^ i) ≡ bit_and x m + bit x i * 2 ^ i
bit_and_top zero x m h =
    rw (let e : m ≡ 0 = omega arith in e) (omega (arith, bit_and_step x 1, bit_and_step x 0))
bit_and_top (suc i) x m h = ground (
  arith,
  bit_and_step x (m + 2 ^ suc i),
  bit_and_step x m,
  bit-suc x i,
  shift-suc i (bit x (suc i)),
  pow-succ' 2 i,
  bit_and_top i (x / 2) (m / 2),
)
