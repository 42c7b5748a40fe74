-- ===== src/Mem/Mmu/Permissions.antt =====
-- The permission bits that a walk puts into the translation cache allow what the leaf allowed.
use rv64_vm.Prelude.{ℕ, ◌^◌, bit, true, false, ◌≡◌, ◌⊎◌, arith, ◌==◌, nonzero}
use rv64_vm.Bits.{bit_and-zero, bit-bit_and}
use rv64_vm.Bits.Join.{bit_and_top}
use rv64_vm.Hart.State.{
  Hart, PrivilegeMode, user, supervisor, hypervisor, machine, to_number, get_effective_mode,
  is_mode,
}
use rv64_vm.Mem.Access.{AccessType, load, store, exec}
use rv64_vm.Mem.Tlb.{has, lookup_allowed}
use rv64_vm.Mem.Mmu.{perm_bits, without_write, leaf_allowed, is_store, pte_r, pte_x, pte_u}

has-bit : (p k : ℕ) → has p (2 ^ k) ≡ (bit p k == 1)
has-bit p k = ground (
  arith,
  bit_and_top k p 0,
  bit_and-zero p,
  (let b : (bit p k ≡ 0) ⊎ (bit p k ≡ 1) = omega arith in b),
)

-- `p` has the bits of the leaf `pte`, those of W and D perhaps not.
pub record IsOf (pte p : ℕ) : Type 0 where
  pub r : bit p 0 ≡ pte_r pte
  pub x : bit p 2 ≡ pte_x pte
  pub u : bit p 3 ≡ pte_u pte

pub perm_bits-IsOf : (pte : ℕ) → IsOf pte (perm_bits pte)
perm_bits-IsOf pte = record { r = omega arith; x = omega arith; u = omega arith }

pub without_write-IsOf : (pte p : ℕ) → IsOf pte p → IsOf pte (without_write p)
without_write-IsOf pte p o = record {
  r = omega (arith, bit-bit_and p 0xdd 0, o.r);
  x = omega (arith, bit-bit_and p 0xdd 2, o.x);
  u = omega (arith, bit-bit_and p 0xdd 3, o.u);
}

-- What the leaf allows for a load or a fetch, a lookup allows on the cached bits.
pub allowed :
    (m : PrivilegeMode) (h : Hart) (type : AccessType) (i pte p : ℕ)
    → get_effective_mode h type ≡ m
    → is_mode m machine ≡ false
    → is_store type ≡ false
    → IsOf pte p
    → leaf_allowed h type i pte ≡ true
    → lookup_allowed p type (to_number m) (nonzero h.status.mxr) (nonzero h.status.sum) ≡ true
unfolding lookup_allowed leaf_allowed
allowed m h store i pte p e m' s o a = ground arith
allowed user h load i pte p e m' s o a =
    ground (arith, a, e, has-bit p 0, has-bit p 2, has-bit p 3, o.r, o.x, o.u)
allowed supervisor h load i pte p e m' s o a =
    ground (arith, a, e, has-bit p 0, has-bit p 2, has-bit p 3, o.r, o.x, o.u)
allowed hypervisor h load i pte p e m' s o a =
    ground (arith, a, e, has-bit p 0, has-bit p 2, has-bit p 3, o.r, o.x, o.u)
allowed machine h type i pte p e m' s o a = ground arith
allowed user h exec i pte p e m' s o a =
    ground (arith, a, e, has-bit p 0, has-bit p 2, has-bit p 3, o.r, o.x, o.u)
allowed supervisor h exec i pte p e m' s o a =
    ground (arith, a, e, has-bit p 0, has-bit p 2, has-bit p 3, o.r, o.x, o.u)
allowed hypervisor h exec i pte p e m' s o a =
    ground (arith, a, e, has-bit p 0, has-bit p 2, has-bit p 3, o.r, o.x, o.u)
