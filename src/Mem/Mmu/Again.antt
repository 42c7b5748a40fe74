-- ===== src/Mem/Mmu/Again.antt =====
-- include/mmu.inl: what a walk that succeeded leaves in the translation cache is found by the next
-- translation of the same address.
use rv64_vm.Prelude.{
  ℕ, ◌+◌, ◌*◌, ◌%◌, ◌^◌, ◌≤◌, ◌<◌, bit_and, bit_or, Bool, true, false, ◌&&◌, ◌||◌, Option, none,
  some, ◌≡◌, inl, inr, refl, ap, sym, ◌∙◌, arith, if◌then◌else◌, nonzero, Bool-cases, Option-cases,
  some_inj,
}
use rv64_vm.Mem.Access.{AccessType, load, store, exec, success}
use rv64_vm.Mem.Map.{MemoryMap}
use rv64_vm.Mem.Tlb.{page_mask}
use rv64_vm.Mem.SelfMod.{SelfMod, was_page_executed}
use rv64_vm.Hart.State.{
  Hart, machine, is_mode, to_number, get_effective_mode, satp_mode, satp_asid, satp_ppn,
}
use rv64_vm.Mem.Tlb.{Tlb, has, strip_executed}
use rv64_vm.Mem.Tlb
use rv64_vm.Mem.Perm
use rv64_vm.Mem.Tlb.Refill.{lookup-insert}
use rv64_vm.Mem.Mmu.Leaf.{
  walk_from-level, same_page, leaf_pa-lt, leaf_pa_offset, is_aligned_lem, leaf_allowed-is_aligned,
}
use rv64_vm.Mem.Mmu.Permissions.{IsOf, perm_bits-IsOf, without_write-IsOf, allowed}
use rv64_vm.Mem.Mmu.{
  Translation, translate, translate_impl, refill, store_pte, is_store, is_exec, is_valid, pte_r,
  pte_w, pte_x, pte_u, needs_update, updated, perm_bits, without_write, leaf, no_leaf, walk_from,
  is_aligned, get_solid_ppn, leaf_pa, leaf_allowed,
}

effective_mode-tlb :
    (h : Hart) (t : Tlb) (type : AccessType)
    → get_effective_mode (record h { tlb = t }) type ≡ get_effective_mode h type
unfolding get_effective_mode
effective_mode-tlb h t type = refl

-- A translation that finds its address in the cache changes nothing.
pub translate_found :
    (s : SelfMod) (h : Hart) (m : MemoryMap) (type : AccessType) (va pa : ℕ)
    → is_mode (get_effective_mode h type) machine ≡ false
    → satp_mode h.satp ≡ 8
    → Tlb.lookup h.tlb va type
        (satp_asid h.satp)
        (to_number (get_effective_mode h type))
        (nonzero h.status.mxr)
        (nonzero h.status.sum)
      ≡ some pa
    → translate s h m type va ≡ some (record { hart = h; mmap = m; ret = success; pa = pa })
unfolding translate
translate_found s h m type va pa n sv e = ground (arith, n, sv, e)

pub chosen : {b : Bool} {x : Option ℕ} → b ≡ true → (if b then x else none) ≡ x
chosen e = rw e refl

strip_executed-IsOf : (s : SelfMod) (l pte p : ℕ) → IsOf pte p → IsOf pte (strip_executed s l p)
strip_executed-IsOf s l pte p o = elim (Bool-cases (has p Perm.w && was_page_executed s l)) [
  | inl y ↦ rw y (without_write-IsOf pte p o)
  | inr n ↦ rw n o
]

module _ (s : SelfMod) (h : Hart) (m : MemoryMap) (type : AccessType) (va i pte : ℕ) where
  abbrev perm : ℕ
  perm =
      if was_page_executed s (leaf_pa va i pte) || is_exec type
      then without_write (perm_bits pte)
      else perm_bits pte

  perm-IsOf : IsOf pte perm
  perm-IsOf = elim (Bool-cases (was_page_executed s (leaf_pa va i pte) || is_exec type)) [
    | inl y ↦ rw y (without_write-IsOf pte (perm_bits pte) (perm_bits-IsOf pte))
    | inr n ↦ rw n (perm_bits-IsOf pte)
  ]

  abbrev after : Translation
  after = refill s h m type va i pte

  module _ (lt : va < 2 ^ 64) (le : i ≤ 2) (st : is_store type ≡ false)
      (mode : is_mode (get_effective_mode h type) machine ≡ false)
      (a : leaf_allowed h type i pte ≡ true) where
    found :
        Tlb.lookup after.hart.tlb va type
          (satp_asid h.satp)
          (to_number (get_effective_mode h type))
          (nonzero h.status.mxr)
          (nonzero h.status.sum)
        ≡ some (leaf_pa va i pte)
    unfolding refill
    found =
        lookup-insert s h.tlb va _ (12 + i * 9) _ _ _ _ type _ _ _
        ∙ (chosen (
              allowed (get_effective_mode h type) h type i pte _ refl mode st
                (strip_executed-IsOf s _ pte perm perm-IsOf) a)
            ∙ ap (λ (base : ℕ). some (bit_or base (bit_and va (page_mask (12 + i * 9)))))
                (same_page va i pte lt le
                  (is_aligned_lem i pte le (leaf_allowed-is_aligned h type i pte a))))

    refill_again : satp_mode h.satp ≡ 8 → translate s after.hart after.mmap type va ≡ some after
    unfolding refill
    refill_again sv =
        translate_found s after.hart m type va (leaf_pa va i pte)
          (rw (effective_mode-tlb h after.hart.tlb type) mode) sv
          (rw (effective_mode-tlb h after.hart.tlb type) found)

-- The A and D bits are no part of what the leaf allows.
updated-same :
    (type : AccessType) (pte : ℕ)
    → (pte_r (updated type pte) ≡ pte_r pte)
      × (pte_w (updated type pte) ≡ pte_w pte)
      × (pte_x (updated type pte) ≡ pte_x pte)
      × (pte_u (updated type pte) ≡ pte_u pte)
      × (get_solid_ppn (updated type pte) ≡ get_solid_ppn pte)
updated-same load pte = (omega arith, omega arith, omega arith, omega arith, omega arith)
updated-same store pte = (omega arith, omega arith, omega arith, omega arith, omega arith)
updated-same exec pte = (omega arith, omega arith, omega arith, omega arith, omega arith)

leaf_allowed-updated :
    (h : Hart) (type : AccessType) (i pte : ℕ)
    → leaf_allowed h type i (updated type pte) ≡ leaf_allowed h type i pte
unfolding leaf_allowed is_aligned
leaf_allowed-updated h load i pte = let e = updated-same load pte in rw (e.0, e.2, e.3, e.4) refl
leaf_allowed-updated h store i pte = let e = updated-same store pte in rw (e.1, e.3, e.4) refl
leaf_allowed-updated h exec i pte = let e = updated-same exec pte in rw (e.2, e.3, e.4) refl

-- Where a walk succeeds, it ends at an allowed leaf.
pub record EndsAtLeaf (s : SelfMod) (h : Hart) (type : AccessType) (va : ℕ) (r : Translation)
    : Type 0 where
  pub level : ℕ
  pub pte : ℕ
  pub mmap : MemoryMap
  pub le : level ≤ 2
  pub is_allowed : leaf_allowed h type level pte ≡ true
  pub eq : r ≡ refill s h mmap type va level pte

module _ (s : SelfMod) (h : Hart) (m : MemoryMap) (type : AccessType) (va : ℕ) (r : Translation)
    (ok : r.ret.is_success ≡ true) where
  at_leaf :
      (i addr pte : ℕ)
      → walk_from m va 2 (satp_ppn h.satp * 4096) ≡ some (leaf i addr pte)
      → is_valid va ≡ true
      → translate_impl s h m type va ≡ some r
      → EndsAtLeaf s h type va r
  unfolding translate_impl
  at_leaf i addr pte w v e = elim (Bool-cases (leaf_allowed h type i pte)) [
    | inr n ↦ absurd (ground (arith, e, v, w, n, ok))
    | inl a ↦ elim (Bool-cases (needs_update type pte)) [
      | inr n ↦ ends pte m a (ground (arith, e, v, w, a, n))
      | inl y ↦ elim (Option-cases (store_pte m addr (updated type pte))) [
        | inl z ↦ absurd (ground (arith, e, v, w, a, y, z))
        | inr (m', z) ↦
            ends (updated type pte) m' (leaf_allowed-updated h type i pte ∙ a)
              (ground (arith, e, v, w, a, y, z))
      ]
    ]
  ]
    where
      ends :
          (pte' : ℕ) (m' : MemoryMap)
          → leaf_allowed h type i pte' ≡ true
          → some (refill s h m' type va i pte') ≡ some r
          → EndsAtLeaf s h type va r
      ends pte' m' a e' = record {
        level = i;
        pte = pte';
        mmap = m';
        le = walk_from-level m va 2 (satp_ppn h.satp * 4096) i addr pte w;
        is_allowed = a;
        eq = sym (some_inj e');
      }

  pub translate_impl-EndsAtLeaf : translate_impl s h m type va ≡ some r → EndsAtLeaf s h type va r
  unfolding translate_impl
  translate_impl-EndsAtLeaf e = elim (Bool-cases (is_valid va)) [
    | inl v ↦ elim (Option-cases (walk_from m va 2 (satp_ppn h.satp * 4096))) [
      | inl n ↦ absurd (ground (arith, e, v, n, ok))
      | inr (no_leaf, w) ↦ absurd (ground (arith, e, v, w, ok))
      | inr (leaf i addr pte, w) ↦ at_leaf i addr pte w v e
    ]
    | inr n ↦ absurd (ground (arith, e, n, ok))
  ]

-- A load or a fetch that a Sv39 walk has just translated is found in the translation cache by the next
-- one: it gives the same physical address and changes neither the core nor the memory.
pub translate-translate_impl :
    (s : SelfMod) (h : Hart) (m : MemoryMap) (type : AccessType) (va : ℕ) (r : Translation)
    → va < 2 ^ 64
    → is_store type ≡ false
    → is_mode (get_effective_mode h type) machine ≡ false
    → satp_mode h.satp ≡ 8
    → translate_impl s h m type va ≡ some r
    → r.ret.is_success ≡ true
    → translate s r.hart r.mmap type va ≡ some r
translate-translate_impl s h m type va r lt st mode sv e ok =
    let a = translate_impl-EndsAtLeaf s h m type va r ok e in
    rw a.eq (refill_again s h a.mmap type va a.level a.pte lt a.le st mode a.is_allowed sv)

-- A successful Sv39 walk gives a physical address of 56 bits, whose offset in its 4 KiB page is that of
-- the virtual address.
pub translate_impl_bounds :
    (s : SelfMod) (h : Hart) (m : MemoryMap) (type : AccessType) (va : ℕ) (r : Translation)
    → va < 2 ^ 64
    → translate_impl s h m type va ≡ some r
    → r.ret.is_success ≡ true
    → (r.pa < 2 ^ 56) × (r.pa % 2 ^ 12 ≡ va % 2 ^ 12)
unfolding refill
translate_impl_bounds s h m type va r lt e ok =
    let a = translate_impl-EndsAtLeaf s h m type va r ok e in
    let clear =
      is_aligned_lem a.level a.pte a.le
        (leaf_allowed-is_aligned h type a.level a.pte a.is_allowed) in
    rw a.eq
      (leaf_pa-lt va a.level a.pte lt a.le clear, leaf_pa_offset va a.level a.pte lt a.le clear)
