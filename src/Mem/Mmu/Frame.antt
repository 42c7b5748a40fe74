-- ===== src/Mem/Mmu/Frame.antt =====
-- include/mmu.inl: what a translation leaves alone.
use rv64_vm.Prelude.{
  ℕ, ◌*◌, ◌≡◌, refl, ◌==◌, ◌||◌, Option, some, none, inl, inr, Bool-cases, Option-cases, nonzero,
}
use rv64_vm.Hart.State.{
  Hart, Reservation, machine, is_mode, to_number, get_effective_mode, satp_mode, satp_asid,
  satp_ppn,
}
use rv64_vm.Mem.Access.{AccessType}
use rv64_vm.Mem.Map.{MemoryMap}
use rv64_vm.Mem.Mmu.{
  Translation, leaf, no_leaf, is_valid, walk_from, leaf_allowed, needs_update, updated, store_pte,
  refill, translate, translate_impl, translate_bare,
}
use rv64_vm.Mem.SelfMod.{SelfMod}
use rv64_vm.Mem.Tlb

-- The reservation that a translation leaves; `r` stands for one where the host program throws.
abbrev reservation_of : Option Translation → Reservation → Reservation
reservation_of none r = r
reservation_of (some t) r = t.hart.reservation

after_update :
    (s : SelfMod) (h : Hart) (m : MemoryMap) (type : AccessType) (va i addr pte : ℕ)
    → reservation_of
        (elim (store_pte m addr (updated type pte)) [
          | none ↦ none
          | some m' ↦ some (refill s h m' type va i (updated type pte))
        ])
        h.reservation
      ≡ h.reservation
unfolding refill
after_update s h m type va i addr pte = elim (Option-cases (store_pte m addr (updated type pte))) [
  | inl e ↦ rw e refl
  | inr (m', e) ↦ rw e refl
]

translate_impl-reservation :
    (s : SelfMod) (h : Hart) (m : MemoryMap) (type : AccessType) (va : ℕ)
    → reservation_of (translate_impl s h m type va) h.reservation ≡ h.reservation
unfolding translate_impl refill
translate_impl-reservation s h m type va = elim (Bool-cases (is_valid va)) [
  | inr bad ↦ rw (translate_impl, bad) refl
  | inl ok ↦ elim (Option-cases (walk_from m va 2 (satp_ppn h.satp * 4096))) [
    | inl e ↦ rw (translate_impl, ok, e) refl
    | inr (no_leaf, e) ↦ rw (translate_impl, ok, e) refl
    | inr (leaf i addr pte, e) ↦ elim (Bool-cases (leaf_allowed h type i pte)) [
      | inr refused ↦ rw (translate_impl, ok, e, refused) refl
      | inl allowed ↦ elim (Bool-cases (needs_update type pte)) [
        | inl u ↦ rw (translate_impl, ok, e, allowed, u) (after_update s h m type va i addr pte)
        | inr u ↦ rw (translate_impl, ok, e, allowed, u, refill) refl
      ]
    ]
  ]
]

translate-reservation_of :
    (s : SelfMod) (h : Hart) (m : MemoryMap) (type : AccessType) (va : ℕ)
    → reservation_of (translate s h m type va) h.reservation ≡ h.reservation
unfolding translate translate_bare
translate-reservation_of s h m type va =
    let mode = get_effective_mode h type in
    elim (Bool-cases (is_mode mode machine || satp_mode h.satp == 0)) [
      | inl bare ↦ rw (translate, bare) refl
      | inr paged ↦
          elim (Option-cases (
            Tlb.lookup h.tlb va type (satp_asid h.satp) (to_number mode) (nonzero h.status.mxr)
              (nonzero h.status.sum))) [
                | inr (pa, e) ↦ rw (translate, paged, e) refl
                | inl e ↦ elim (Bool-cases (satp_mode h.satp == 8)) [
                  | inl sv39 ↦
                      rw (translate, paged, e, sv39) (translate_impl-reservation s h m type va)
                  | inr other ↦ rw (translate, paged, e, other) refl
                ]
              ]
    ]

-- A translation leaves the reservation of the core as it is.
pub translate-reservation :
    (s : SelfMod) (h : Hart) (m : MemoryMap) (type : AccessType) (va : ℕ) (t : Translation)
    → translate s h m type va ≡ some t
    → t.hart.reservation ≡ h.reservation
translate-reservation s h m type va t e = rw e at (translate-reservation_of s h m type va)
