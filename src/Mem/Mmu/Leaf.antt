-- ===== src/Mem/Mmu/Leaf.antt =====
-- include/mmu.inl: the level, the alignment and the physical address of the leaf where a walk ends.
use native.Mathlib.Nat.{one-le-pow}
use rv64_vm.Prelude.{
  ℕ, zero, suc, ◌+◌, ◌-◌, ◌*◌, ◌/◌, ◌%◌, ◌^◌, ◌≤◌, ◌<◌, bit_and, bit_or, true, some, ◌≡◌, inl, inr,
  ◌∙◌, arith, Option-cases, not64, ◌<<<◌,
}
use rv64_vm.Bits.Join.{bit_or-shifted}
use rv64_vm.Bits.Masks.{bit_and-mask, bit_and-not_mask, bit_or_comm}
use rv64_vm.Mem.Access.{AccessType}
use rv64_vm.Mem.Map.{MemoryMap}
use rv64_vm.Mem.Tlb.{page_mask}
use rv64_vm.Hart.State.{Hart}
use rv64_vm.Mem.Mmu.{
  leaf, walk_from, load_pte, is_aligned, get_vpn, get_solid_ppn, leaf_pa, leaf_allowed,
}

-- The walk only goes down.
pub walk_from-level :
    (m : MemoryMap) (va i a j addr pte : ℕ) → walk_from m va i a ≡ some (leaf j addr pte) → j ≤ i
unfolding walk_from
walk_from-level m va zero a j addr pte e = ground (arith, e)
walk_from-level m va (suc i) a j addr pte e =
    elim (Option-cases (load_pte m (a + get_vpn va (suc i) * 8))) [
      | inl n ↦ ground (arith, e, n)
      | inr (p, n) ↦
          ground (arith, e, n, walk_from-level m va i (get_solid_ppn p * 4096) j addr pte)
    ]

-- The page of a leaf at level `i` whose number has its low bits clear.
aligned_page :
    (i ppn : ℕ)
    → i ≤ 2
    → ppn % 2 ^ (9 * i) ≡ 0
    → ppn <<< 12 ≡ (ppn / 2 ^ (9 * i)) * 2 ^ (12 + i * 9)
aligned_page zero ppn le e = omega arith
aligned_page (suc zero) ppn le e = omega arith
aligned_page (suc (suc zero)) ppn le e = omega arith
aligned_page (suc (suc (suc i))) ppn le e = omega arith

-- An offset below a page's size neither leaves the address space nor reaches the page's number.
below_next :
    (i q r : ℕ)
    → i ≤ 2
    → r < 2 ^ (12 + i * 9)
    → q * 2 ^ (12 + i * 9) < 2 ^ 56
    → r + q * 2 ^ (12 + i * 9) < 2 ^ 56
below_next zero q r le h k = omega arith
below_next (suc zero) q r le h k = omega arith
below_next (suc (suc zero)) q r le h k = omega arith
below_next (suc (suc (suc i))) q r le h k = omega arith

page-mod : (i q : ℕ) → i ≤ 2 → q * 2 ^ (12 + i * 9) % 2 ^ (12 + i * 9) ≡ 0
page-mod zero q le = omega arith
page-mod (suc zero) q le = omega arith
page-mod (suc (suc zero)) q le = omega arith
page-mod (suc (suc (suc i))) q le = omega arith

drop_offset :
    (i q r : ℕ)
    → i ≤ 2
    → r < 2 ^ (12 + i * 9)
    → (r + q * 2 ^ (12 + i * 9)) - (r + q * 2 ^ (12 + i * 9)) % 2 ^ (12 + i * 9)
      ≡ q * 2 ^ (12 + i * 9)
drop_offset zero q r le h = omega arith
drop_offset (suc zero) q r le h = omega arith
drop_offset (suc (suc zero)) q r le h = omega arith
drop_offset (suc (suc (suc i))) q r le h = omega arith

offset_same : (i va ppn : ℕ) → i ≤ 2 → (va % 2 ^ (12 + i * 9) + ppn <<< 12) % 2 ^ 12 ≡ va % 2 ^ 12
offset_same zero va ppn le = omega arith
offset_same (suc zero) va ppn le = omega arith
offset_same (suc (suc zero)) va ppn le = omega arith
offset_same (suc (suc (suc i))) va ppn le = omega arith

module _ (va i pte : ℕ) (lt : va < 2 ^ 64) (le : i ≤ 2)
    (e : get_solid_ppn pte % 2 ^ (9 * i) ≡ 0) where
  abbrev base : ℕ
  base = get_solid_ppn pte <<< 12

  below : base < 2 ^ 56
  below = omega arith

  multiple : base ≡ get_solid_ppn pte / 2 ^ (9 * i) * 2 ^ (12 + i * 9)
  multiple = aligned_page i (get_solid_ppn pte) le e

  offset_lt : va % 2 ^ (12 + i * 9) < 2 ^ (12 + i * 9)
  offset_lt = omega (arith, one-le-pow (12 + i * 9) 2)

  joined : bit_or base (bit_and va (page_mask (12 + i * 9))) ≡ va % 2 ^ (12 + i * 9) + base
  joined = rw (bit_and-mask (12 + i * 9) va) (
      bit_or_comm base (va % 2 ^ (12 + i * 9)) (omega arith) (omega arith)
      ∙ rw (multiple) (
          bit_or-shifted (12 + i * 9) (get_solid_ppn pte / 2 ^ (9 * i)) (va % 2 ^ (12 + i * 9))
            offset_lt))

  pub leaf_pa-lt : leaf_pa va i pte < 2 ^ 56
  leaf_pa-lt =
      rw (joined, multiple)
        (below_next i (get_solid_ppn pte / 2 ^ (9 * i)) (va % 2 ^ (12 + i * 9)) le offset_lt
          (rw multiple at below))

  page_of : bit_and (leaf_pa va i pte) (not64 (page_mask (12 + i * 9))) ≡ base
  page_of =
      bit_and-not_mask (12 + i * 9) (leaf_pa va i pte) (omega arith) (omega (arith, leaf_pa-lt))
      ∙ rw (joined, multiple)
          (drop_offset i (get_solid_ppn pte / 2 ^ (9 * i)) (va % 2 ^ (12 + i * 9)) le offset_lt)

  pub leaf_pa_offset : leaf_pa va i pte % 2 ^ 12 ≡ va % 2 ^ 12
  leaf_pa_offset = rw joined (offset_same i va (get_solid_ppn pte) le)

  -- Dropping the offset twice is dropping it once.
  pub same_page :
      bit_and
        (bit_and (leaf_pa va i pte) (not64 (page_mask (12 + i * 9))))
        (not64 (page_mask (12 + i * 9)))
      ≡ base
  same_page = rw page_of (
      bit_and-not_mask (12 + i * 9) base (omega arith) (omega (arith, below))
      ∙ rw multiple (omega (arith, page-mod i (get_solid_ppn pte / 2 ^ (9 * i)) le)))

pub leaf_allowed-is_aligned :
    (h : Hart) (type : AccessType) (i pte : ℕ)
    → leaf_allowed h type i pte ≡ true
    → is_aligned i pte ≡ true
unfolding leaf_allowed
leaf_allowed-is_aligned h type i pte e = ground (arith, e)

pub is_aligned_lem :
    (i pte : ℕ) → i ≤ 2 → is_aligned i pte ≡ true → get_solid_ppn pte % 2 ^ (9 * i) ≡ 0
unfolding is_aligned
is_aligned_lem zero pte le e = omega arith
is_aligned_lem (suc i) pte le e = ground (arith, e)
