-- ===== src/Mem/Tlb/Refill.antt =====
-- What a lookup finds after an insertion and after a flush.
use rv64_vm.Prelude.{
  ℕ, ◌+◌, ◌-◌, ◌^◌, ◌≤◌, ◌<◌, bit_and, bit_or, bit, Bool, true, none, some, ◌≡◌, ap, ◌∙◌, arith,
  ◌==◌, if◌then◌else◌, u64, not64, ◌⊎◌, inl, inr,
}
use rv64_vm.Bits.{bit-bit_and, bit_ext, bit_and-lt_right}
use rv64_vm.Mem.Access.{AccessType, store}
use rv64_vm.Mem.Perm
use rv64_vm.Mem.SelfMod.{SelfMod, was_page_executed}
use rv64_vm.Mem.Tlb.{
  Tlb, TlbEntry, index, page_mask, lookup, lookup_allowed, insert, strip_executed, add_writable,
  drop_writable, flush_all,
}

-- The census of writable pages touches neither the entries nor the generation.
add_writable_frame :
    (t : Tlb) (e : TlbEntry)
    → ((add_writable t e).entries ≡ t.entries) × ((add_writable t e).generation ≡ t.generation)
unfolding add_writable
add_writable_frame t e = ground arith

drop_writable_frame :
    (t : Tlb) (e : TlbEntry)
    → ((drop_writable t e).entries ≡ t.entries) × ((drop_writable t e).generation ≡ t.generation)
unfolding drop_writable
drop_writable_frame t e = ground arith

module _ (s : SelfMod) (t : Tlb) (va pa page_bits perm asid : ℕ) (global : Bool) (host : ℕ) where
  -- The byte that the access touches.
  abbrev pub leaf_pa : ℕ
  leaf_pa = u64 (bit_and pa (not64 (page_mask page_bits)) + bit_and va (page_mask page_bits))

  -- The entry that `insert` writes.
  filled : TlbEntry
  filled = record {
    vpage_mask_inv = not64 (page_mask page_bits);
    vpage_base = bit_and va (not64 (page_mask page_bits));
    generation = t.generation;
    host_ptr =
        if host == 0 then 0 else u64 (host + 2 ^ 64 - bit_and va (not64 (page_mask page_bits)));
    ppage_base = bit_and pa (not64 (page_mask page_bits));
    asid = asid;
    page_bits = page_bits;
    perm = strip_executed s leaf_pa perm;
    global = global;
  }

  inserted_entry : (insert s t va pa page_bits perm asid global host).entries (index va) ≡ filled
  unfolding insert filled
  inserted_entry = ap (λ (f : ℕ → TlbEntry). f (index va)) (add_writable_frame _ _).0 ∙ ground arith

  inserted_generation : (insert s t va pa page_bits perm asid global host).generation ≡ t.generation
  unfolding insert
  inserted_generation =
      (add_writable_frame _ _).1 ∙ (drop_writable_frame t (t.entries (index va))).1

  -- After an insertion, a lookup of the same address under the same ASID gives the page of the inserted
  -- physical address with the offset of the virtual one, exactly if the inserted permissions, without W
  -- and D where the page was executed, allow the access.
  pub lookup-insert :
      (type : AccessType) (mode : ℕ) (mxr sum : Bool)
      → lookup (insert s t va pa page_bits perm asid global host) va type asid mode mxr sum ≡ (
          if lookup_allowed (strip_executed s leaf_pa perm) type mode mxr sum
          then some
              (bit_or (bit_and pa (not64 (page_mask page_bits))) (bit_and va (page_mask page_bits)))
          else none)
  unfolding lookup filled
  lookup-insert type mode mxr sum = rw (inserted_entry, inserted_generation) (ground arith)

  not_writable : (perm' : ℕ) → bit_and (bit_and perm' 0xdd) Perm.w ≡ 0
  not_writable perm' =
      bit_ext 2 _ 0 (bit_and-lt_right 2 (bit_and perm' 0xdd) Perm.w (omega arith)) (omega arith)
        each
    where
      each : (k : ℕ) → k < 2 → bit (bit_and (bit_and perm' 0xdd) Perm.w) k ≡ bit 0 k
      each k h = elim (below k h) [
        | inl z ↦ rw z (omega (arith, bit-bit_and (bit_and perm' 0xdd) Perm.w 0))
        | inr o ↦
            rw o
              (omega (arith, bit-bit_and (bit_and perm' 0xdd) Perm.w 1, bit-bit_and perm' 0xdd 1))
      ]
        where
          below : (k : ℕ) → k < 2 → (k ≡ 0) ⊎ (k ≡ 1)
          below k h = omega arith

  -- No store goes through an entry that was inserted for an address on a page that was executed: whatever
  -- the permissions of the mapping, a lookup for a store at that address finds nothing.
  pub lookup-insert_executed :
      (mode : ℕ) (mxr sum : Bool)
      → was_page_executed s leaf_pa ≡ true
      → lookup (insert s t va pa page_bits perm asid global host) va store asid mode mxr sum ≡ none
  unfolding lookup_allowed
  lookup-insert_executed mode mxr sum executed =
      lookup-insert store mode mxr sum ∙ ground (arith, executed, not_writable perm)

-- An entry that was inserted as global serves every ASID.
pub lookup-insert_global :
    (s : SelfMod) (t : Tlb) (va pa page_bits perm asid host : ℕ) (type : AccessType)
    (asid' mode : ℕ) (mxr sum : Bool)
    → lookup (insert s t va pa page_bits perm asid true host) va type asid' mode mxr sum
      ≡ lookup (insert s t va pa page_bits perm asid true host) va type asid mode mxr sum
unfolding lookup filled
lookup-insert_global s t va pa page_bits perm asid host type asid' mode mxr sum =
    rw
      (
        inserted_entry s t va pa page_bits perm asid true host,
        inserted_generation s t va pa page_bits perm asid true host,
      )
      (ground arith)

-- In a cache whose entries are of its own or an earlier generation, no lookup finds anything after
-- `flush_all`, as long as the generation counter does not wrap.
pub lookup-flush_all :
    (t : Tlb) (va : ℕ) (type : AccessType) (asid mode : ℕ) (mxr sum : Bool)
    → ((i : ℕ) → (t.entries i).generation ≤ t.generation)
    → t.generation + 1 < 2 ^ 64
    → lookup (flush_all t) va type asid mode mxr sum ≡ none
unfolding lookup flush_all
lookup-flush_all t va type asid mode mxr sum old small = ground (arith, old (index va))
