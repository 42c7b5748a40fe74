-- ===== src/Mem/Mmu/Bare.antt =====
-- include/mmu.inl, lines 36 to 51: what the identity mapping leaves in the translation cache.
use rv64_vm.Prelude.{
  ℕ, ◌*◌, ◌/◌, ◌%◌, ◌^◌, ◌<◌, bit_and, bit_or, Bool, true, false, some, ◌≡◌, refl, ap, ◌∙◌, arith,
  if◌then◌else◌, nonzero, not64,
}
use rv64_vm.Bits.Join.{bit_or-shifted}
use rv64_vm.Bits.Masks.{bit_and-mask, bit_and-not_mask, bit_or_comm}
use rv64_vm.Hart.State.{Hart, user, get_effective_mode, satp_mode, satp_asid}
use rv64_vm.Mem.Access.{load, success}
use rv64_vm.Mem.Map.{MemoryMap}
use rv64_vm.Mem.Mmu.{translate, translate_bare, without_write}
use rv64_vm.Mem.SelfMod.{SelfMod, was_page_executed}
use rv64_vm.Mem.Tlb.{lookup, strip_executed, lookup_allowed}
use rv64_vm.Mem.Tlb.Refill.{lookup-insert, lookup-insert_global}
use rv64_vm.Mem.Mmu.Again.{chosen, translate_found}

page_number : (va : ℕ) → va < 2 ^ 64 → bit_and va (not64 0xfff) ≡ va / 2 ^ 12 * 2 ^ 12
page_number va lt = omega (arith, bit_and-not_mask 12 va (omega arith) lt)

-- The page and the offset of an address make up the address.
page_offset :
    (va : ℕ)
    → va < 2 ^ 64
    → bit_or (bit_and (bit_and va (not64 0xfff)) (not64 0xfff)) (bit_and va 0xfff) ≡ va
page_offset va lt =
    rw (page_number va lt, page_number (va / 2 ^ 12 * 2 ^ 12) (omega arith), bit_and-mask 12 va)
      (bit_or_comm (va / 2 ^ 12 * 2 ^ 12 / 2 ^ 12 * 2 ^ 12) (va % 2 ^ 12) (omega arith)
          (omega arith)
        ∙ (bit_or-shifted 12 (va / 2 ^ 12 * 2 ^ 12 / 2 ^ 12) (va % 2 ^ 12) (omega arith)
            ∙ omega arith))

-- The permissions of the identity mapping let a load of user mode through, executed page or not.
user_load :
    (s : SelfMod) (l : ℕ) (b : Bool) (mxr sum : Bool)
    → lookup_allowed (strip_executed s l (if b then without_write 0x3f else 0x3f)) load 0 mxr sum
      ≡ true
unfolding lookup_allowed
user_load s l true mxr sum = ground arith
user_load s l false mxr sum = ground arith

module _ (s : SelfMod) (h : Hart) (m : MemoryMap) (va asid : ℕ) (mxr sum : Bool) where
  identity_found :
      va < 2 ^ 64 → lookup (translate_bare s h m va).hart.tlb va load asid 0 mxr sum ≡ some va
  unfolding translate_bare
  identity_found lt =
      lookup-insert_global s h.tlb va _ 12 _ _ _ load asid 0 mxr sum
      ∙ (lookup-insert s h.tlb va _ 12 _ _ true _ load 0 mxr sum
          ∙ (chosen (user_load s _ (was_page_executed s va) mxr sum) ∙ ap some (page_offset va lt)))

-- What the identity mapping left in the translation cache, in machine mode say, serves the loads of user
-- mode under Sv39 at the same address, whatever the ASID and the page tables: the physical address is the
-- virtual one, and neither the core nor the memory changes.
pub translate-translate_bare :
    (s : SelfMod) (h h' : Hart) (m m' : MemoryMap) (va : ℕ)
    → va < 2 ^ 64
    → h'.tlb ≡ (translate_bare s h m va).hart.tlb
    → get_effective_mode h' load ≡ user
    → satp_mode h'.satp ≡ 8
    → translate s h' m' load va ≡ some (record { hart = h'; mmap = m'; ret = success; pa = va })
translate-translate_bare s h h' m m' va lt e u sv =
    translate_found s h' m' load va va (rw u refl) sv (
      rw (u, e)
        (identity_found s h m va (satp_asid h'.satp) (nonzero h'.status.mxr) (nonzero h'.status.sum)
          lt))
