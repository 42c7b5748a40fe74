-- ===== src/Hart/Ints/Choice.antt =====
-- Which interrupt `check_ints` takes, and when it takes none.
use rv64_vm.Prelude.{
  ℕ, zero, suc, ◌/◌, ◌^◌, ◌<◌, ◌*◌, bit_and, bit, not64, nonzero, true, ◌≡◌, ◌≢◌, ◌⊎◌, inl, inr,
  arith, ◌==◌, Bool-cases,
}
use native.Mathlib.Nat.{pow-succ', one-le-pow, div-lt_iff_lt-mul, div-le_self}
use rv64_vm.Bits.{bit-bit_and, bit-not64, bit_and-lt, bit_and-le}
use rv64_vm.Hart.Csrs
use rv64_vm.Hart.State.{Hart}
use rv64_vm.Hart.Trap.{trap}
use rv64_vm.Hart.Trap.Entry.{trap_frame}
use mathlib.Core.Bool.{◌&&◌}
use rv64_vm.Hart.Ints.{
  highest_bit, m_global, s_global, pending_m, pending_s, check_ints, int_local_pending,
}

lt_of_clear : (n x : ℕ) → x < 2 ^ suc n → bit x n ≢ 1 → x < 2 ^ n
lt_of_clear n x h clear =
    let q : x / 2 ^ n < 2 =
      (div-lt_iff_lt-mul {k = 2 ^ n} {x = x} {y = 2} (one-le-pow n 2 (omega arith))).1
        (omega (arith, pow-succ' 2 n)) in
    let r : x < 1 * 2 ^ n =
      (div-lt_iff_lt-mul {k = 2 ^ n} {x = x} {y = 1} (one-le-pow n 2 (omega arith))).0
        (omega arith) in
    omega arith

-- `63 - clz(x)` is a bit of `x` with none above it.
pub highest_bit_lem :
    (n x : ℕ) → x < 2 ^ n → x ≢ 0 → (highest_bit n x < n) × (bit x (highest_bit n x) ≡ 1)
unfolding highest_bit
highest_bit_lem zero x h ne = absurd (omega arith)
highest_bit_lem (suc n) x h ne = elim (Bool-cases (bit x n == 1)) [
  | inl set ↦ rw set (omega arith, ground arith)
  | inr clear ↦
      let small : x < 2 ^ n = lt_of_clear n x h (ground arith) in
      rw clear (let r = highest_bit_lem n x small ne in (omega (arith, r.0), r.1))
]

pub highest_bit_above : (n x k : ℕ) → highest_bit n x < k → k < n → bit x k ≡ 0
unfolding highest_bit
highest_bit_above zero x k h hk = absurd (omega arith)
highest_bit_above (suc n) x k h hk = ground (arith, highest_bit_above n x k)

-- The width of a core's interrupt registers and delegation register.
pub record IsSized (h : Hart) : Type 0 where
  pub ip : h.ip < 2 ^ 16
  pub ie : h.ie < 2 ^ 16
  pub mideleg : h.csrs Csrs.mideleg < 2 ^ 64

-- Interrupt `c` is pending and enabled, and its level may be interrupted in the present mode.
pub record IsTakable (h : Hart) (c : ℕ) : Type 0 where
  pub pending : bit h.ip c ≡ 1
  pub enabled : bit h.ie c ≡ 1
  pub level :
      ((bit (h.csrs Csrs.mideleg) c ≡ 0) × (m_global h ≡ true))
      ⊎ ((bit (h.csrs Csrs.mideleg) c ≡ 1) × (bit Csrs.se_mask c ≡ 1) × (s_global h ≡ true))

ne_zero_of_bit : (x c : ℕ) → bit x c ≡ 1 → x ≢ 0
ne_zero_of_bit x c b e = let z : bit 0 c ≡ 1 = rw e at b in omega (arith, z, div-le_self 0 (2 ^ c))

highest_bit_unique :
    (x c : ℕ)
    → x < 2 ^ 64
    → c < 64
    → bit x c ≡ 1
    → ((k : ℕ) → c < k → k < 64 → bit x k ≡ 0)
    → highest_bit 64 x ≡ c
highest_bit_unique x c h hc set above =
    let top = highest_bit_lem 64 x h (ne_zero_of_bit x c set) in
    ground (arith, top, highest_bit_above 64 x c, above (highest_bit 64 x))

module _ (h : Hart) (sized : IsSized h) where
  pending_m-lt : pending_m h < 2 ^ 64
  unfolding pending_m
  pending_m-lt =
      bit_and-lt 64 (bit_and h.ip h.ie) _ (omega (arith, bit_and-le 16 h.ip h.ie sized.ip))

  pending_s-lt : pending_s h < 2 ^ 64
  unfolding pending_s
  pending_s-lt = bit_and-lt 64 (bit_and (bit_and h.ip Csrs.se_mask) (h.csrs Csrs.mideleg)) _ (
      bit_and-lt 64 (bit_and h.ip Csrs.se_mask) _
        (omega (arith, bit_and-le 16 h.ip Csrs.se_mask sized.ip)))

  IsTakable-of_m : (c : ℕ) → c < 64 → m_global h ≡ true → bit (pending_m h) c ≡ 1 → IsTakable h c
  unfolding pending_m
  IsTakable-of_m c hc g p = ground (
    arith,
    bit-bit_and (bit_and h.ip h.ie) (not64 (h.csrs Csrs.mideleg)) c,
    bit-bit_and h.ip h.ie c,
    bit-not64 (h.csrs Csrs.mideleg) c sized.mideleg hc,
  )

  IsTakable-of_s : (c : ℕ) → s_global h ≡ true → bit (pending_s h) c ≡ 1 → IsTakable h c
  unfolding pending_s
  IsTakable-of_s c g p = ground (
    arith,
    bit-bit_and (bit_and (bit_and h.ip Csrs.se_mask) (h.csrs Csrs.mideleg))
        (bit_and h.ie Csrs.se_mask) c,
    bit-bit_and (bit_and h.ip Csrs.se_mask) (h.csrs Csrs.mideleg) c,
    bit-bit_and h.ip Csrs.se_mask c,
    bit-bit_and h.ie Csrs.se_mask c,
  )

  takable_m :
      (c : ℕ)
      → c < 64
      → bit h.ip c ≡ 1
      → bit h.ie c ≡ 1
      → bit (h.csrs Csrs.mideleg) c ≡ 0
      → bit (pending_m h) c ≡ 1
  unfolding pending_m
  takable_m c hc p e d = ground (
    arith,
    bit-bit_and (bit_and h.ip h.ie) (not64 (h.csrs Csrs.mideleg)) c,
    bit-bit_and h.ip h.ie c,
    bit-not64 (h.csrs Csrs.mideleg) c sized.mideleg hc,
  )

  takable_s :
      (c : ℕ)
      → bit h.ip c ≡ 1
      → bit h.ie c ≡ 1
      → bit (h.csrs Csrs.mideleg) c ≡ 1
      → bit Csrs.se_mask c ≡ 1
      → bit (pending_s h) c ≡ 1
  unfolding pending_s
  takable_s c p e d m = ground (
    arith,
    bit-bit_and (bit_and (bit_and h.ip Csrs.se_mask) (h.csrs Csrs.mideleg))
        (bit_and h.ie Csrs.se_mask) c,
    bit-bit_and (bit_and h.ip Csrs.se_mask) (h.csrs Csrs.mideleg) c,
    bit-bit_and h.ip Csrs.se_mask c,
    bit-bit_and h.ie Csrs.se_mask c,
  )

  -- When `check_ints` reports an interrupt, in a core whose registers have their widths, it has trapped
  -- with an interrupt that is pending, enabled and of a level that may be interrupted in that mode.
  pub check_ints-IsTakable :
      (check_ints h).1 ≡ true → (c : ℕ) × IsTakable h c × ((check_ints h).0 ≡ trap h c 0 true)
  unfolding check_ints
  check_ints-IsTakable e = elim (Bool-cases (m_global h && nonzero (pending_m h))) [
    | inl m ↦ (
      highest_bit 64 (pending_m h),
      IsTakable-of_m _ (m_hit (ground arith)).0 (ground arith) (m_hit (ground arith)).1,
      ground arith,
    )
    | inr nm ↦ (
      highest_bit 64 (pending_s h),
      IsTakable-of_s _ (ground arith) (s_hit (ground arith)).1,
      ground arith,
    )
  ]
    where
      m_hit :
          pending_m h ≢ 0
          → (highest_bit 64 (pending_m h) < 64)
            × (bit (pending_m h) (highest_bit 64 (pending_m h)) ≡ 1)
      m_hit = highest_bit_lem 64 (pending_m h) pending_m-lt

      s_hit :
          pending_s h ≢ 0
          → (highest_bit 64 (pending_s h) < 64)
            × (bit (pending_s h) (highest_bit 64 (pending_s h)) ≡ 1)
      s_hit = highest_bit_lem 64 (pending_s h) pending_s-lt

  -- In a core whose registers have their widths, `check_ints` takes some interrupt whenever there is one
  -- that is pending, enabled and of a level that may be interrupted.
  pub check_ints_takes : (c : ℕ) → c < 64 → IsTakable h c → (check_ints h).1 ≡ true
  unfolding check_ints
  check_ints_takes c hc t = ground (
    arith,
    ne_zero_of_bit (bit_and h.ip h.ie) c,
    bit-bit_and h.ip h.ie c,
    takable_m c,
    takable_s c,
    ne_zero_of_bit (pending_m h) c,
    ne_zero_of_bit (pending_s h) c,
  )

  pending_needs : (c : ℕ) → bit (pending_m h) c ≡ 1 → bit_and h.ip h.ie ≢ 0
  unfolding pending_m
  pending_needs c b = ground (
    arith,
    bit-bit_and (bit_and h.ip h.ie) (not64 (h.csrs Csrs.mideleg)) c,
    ne_zero_of_bit (bit_and h.ip h.ie) c,
  )

  -- In a core whose registers have their widths and that may be interrupted at machine level,
  -- `check_ints` takes interrupt `c` if it is pending, enabled and not delegated and no interrupt with a
  -- higher number is: the order is that of the bit numbers.
  pub check_ints_highest :
      (c : ℕ)
      → c < 64
      → m_global h ≡ true
      → bit (pending_m h) c ≡ 1
      → ((k : ℕ) → c < k → k < 64 → bit (pending_m h) k ≡ 0)
      → (check_ints h).0 ≡ trap h c 0 true
  unfolding check_ints
  check_ints_highest c hc g set above = ground (
    arith,
    highest_bit_unique (pending_m h) c pending_m-lt hc set above,
    ne_zero_of_bit (pending_m h) c set,
    pending_needs c set,
  )

  -- In a core whose registers have their widths, `int_local_pending`, the test that ends a wait, holds
  -- whenever there is an interrupt that `check_ints` may take.
  pub int_local_pending_wakes : (c : ℕ) → c < 64 → IsTakable h c → int_local_pending h ≡ true
  unfolding int_local_pending s_global
  int_local_pending_wakes c hc t = ground (
    arith,
    ne_zero_of_bit (bit_and h.ip h.ie) c,
    bit-bit_and h.ip h.ie c,
    bit-bit_and (bit_and h.ip h.ie) (not64 (h.csrs Csrs.mideleg)) c,
    bit-not64 (h.csrs Csrs.mideleg) c sized.mideleg hc,
    bit-bit_and (bit_and (bit_and h.ip h.ie) Csrs.se_mask) (h.csrs Csrs.mideleg) c,
    bit-bit_and (bit_and h.ip h.ie) Csrs.se_mask c,
    ne_zero_of_bit (bit_and (bit_and h.ip h.ie) (not64 (h.csrs Csrs.mideleg))) c,
    ne_zero_of_bit (bit_and (bit_and (bit_and h.ip h.ie) Csrs.se_mask) (h.csrs Csrs.mideleg)) c,
  )

-- Taking an interrupt leaves the general registers alone.
pub gpr-check_ints : (h : Hart) → (check_ints h).0.gpr ≡ h.gpr
unfolding check_ints
gpr-check_ints h = ground (
  arith,
  (trap_frame h (highest_bit 64 (pending_m h)) 0 true).0,
  (trap_frame h (highest_bit 64 (pending_s h)) 0 true).0,
)
