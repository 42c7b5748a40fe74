-- ===== src/Hart/Csr/Views.antt =====
-- The supervisor's views of machine registers: what a write to sstatus, sie, sip or mstatus changes.
use rv64_vm.Prelude.{ℕ, ◌^◌, ◌<◌, bit_and, bit, not64, ◌≡◌, arith, ◌==◌, if◌then◌else◌, ◌∙◌, ap}
use rv64_vm.Bits.{bit-bit_and, bit-bit_or, bit-not64, bit_merge, bit_and-lt, bit_or-lt}
use rv64_vm.Hart.Csrs
use rv64_vm.Hart.Status.{raw, raw-of_raw, IsValid, raw-lt}
use rv64_vm.Hart.State.{Hart}
use rv64_vm.Hart.Csr.{csr_write, keep, take}

not64-lt : (m : ℕ) → not64 m < 2 ^ 64
not64-lt m = omega arith

keep-lt : (mask old val : ℕ) → old < 2 ^ 64 → val < 2 ^ 64 → keep mask old val < 2 ^ 64
keep-lt mask old val ho hv =
    bit_or-lt 64 (bit_and old mask) (bit_and val (not64 mask)) (bit_and-lt 64 old mask ho)
      (bit_and-lt 64 val (not64 mask) hv)

take-lt : (mask old val : ℕ) → old < 2 ^ 64 → val < 2 ^ 64 → take mask old val < 2 ^ 64
take-lt mask old val ho hv =
    bit_or-lt 64 (bit_and old (not64 mask)) (bit_and val mask) (bit_and-lt 64 old (not64 mask) ho)
      (bit_and-lt 64 val mask hv)

pub bit-take :
    (mask old val k : ℕ)
    → mask < 2 ^ 64
    → k < 64
    → bit (take mask old val) k ≡ (if bit mask k == 1 then bit val k else bit old k)
bit-take mask old val k hm hk = ground (
  arith,
  bit-bit_or (bit_and old (not64 mask)) (bit_and val mask) k,
  bit-bit_and old (not64 mask) k,
  bit-bit_and val mask k,
  bit-not64 mask k hm hk,
)

-- From a well-formed status, a write of a 64-bit word to sstatus changes the bits of mstatus that
-- SSTATUS_MASK names and no other, and a write to mstatus changes all but those of MSTATUS_RO_MASK.
pub csr_write-status :
    (h : Hart) (val k : ℕ)
    → IsValid h.status
    → val < 2 ^ 64
    → k < 64
    → (bit (raw (csr_write h Csrs.sstatus val).status) k
        ≡ (if bit Csrs.sstatus_mask k == 1 then bit val k else bit (raw h.status) k))
      × (bit (raw (csr_write h Csrs.mstatus val).status) k
          ≡ (if bit Csrs.mstatus_ro_mask k == 1 then bit (raw h.status) k else bit val k))
unfolding csr_write
csr_write-status h val k v hv hk = (
  ap (λ (t : ℕ). bit t k) (raw-of_raw _ (take-lt Csrs.sstatus_mask _ val (raw-lt h.status v) hv))
      ∙ bit-take Csrs.sstatus_mask (raw h.status) val k (omega arith) hk,
  ap (λ (t : ℕ). bit t k) (raw-of_raw _ (keep-lt Csrs.mstatus_ro_mask _ val (raw-lt h.status v) hv))
      ∙ bit_merge (raw h.status) val Csrs.mstatus_ro_mask k (omega arith) hk,
)
