-- ===== src/Mem/Tlb.antt =====
-- include/tlb.hpp and src/tlb.cpp: the direct-mapped translation cache.
-- `w_writable` is a vector that grows on demand: its size, and its elements as a function.
pub mod Refill
use rv64_vm.Prelude.{
  ℕ, zero, suc, ◌+◌, ◌-◌, ◌%◌, ◌^◌, bit_and, bit_or, Bool, true, false, not, ◌&&◌, ◌||◌, Option,
  none, some, ltb, ◌==◌, if◌then◌else◌, update, u64, not64, ◌>>>◌, nonzero,
}
use rv64_vm.Mem.Access.{AccessType, load, store, exec}
use rv64_vm.Mem.Perm
use rv64_vm.Mem.SelfMod.{SelfMod, was_page_executed}

pub record TlbEntry : Type 0 where
  pub vpage_mask_inv : ℕ
  pub vpage_base : ℕ
  pub generation : ℕ
  pub host_ptr : ℕ
  pub ppage_base : ℕ
  pub asid : ℕ
  pub page_bits : ℕ
  pub perm : ℕ
  pub global : Bool

-- `p & PERM_…` as a condition
abbrev pub has : ℕ → ℕ → Bool
has p flag = nonzero (bit_and p flag)

abbrev pub size : ℕ
size = 2 ^ 17

pub record Tlb : Type 0 where
  pub entries : ℕ → TlbEntry
  pub generation : ℕ
  pub writable_size : ℕ
  pub writable : ℕ → ℕ
  pub writable_oversized : Bool

-- `(va >> 12) & (SIZE - 1)`
abbrev pub index : ℕ → ℕ
index va = (va >>> 12) % size

-- `(1ULL << page_bits) - 1`
abbrev pub page_mask : ℕ → ℕ
page_mask bits = 2 ^ bits - 1

-- The permission tests of `lookup`, after the entry was found to cover the address.
unfoldable pub lookup_allowed : ℕ → AccessType → ℕ → Bool → Bool → Bool
lookup_allowed p type mode mxr sum = by_type type && by_mode
  where
    by_type : AccessType → Bool
    by_type store = has p Perm.w && has p Perm.d
    by_type exec = has p Perm.x && not (mode == 1 && has p Perm.u)
    by_type load = has p Perm.r || (has p Perm.x && mxr)

    by_mode : Bool
    by_mode =
        if mode == 0
        then has p Perm.u
        else if mode == 1
        then not (has p Perm.u && not sum)
        else true

-- What `*pa` receives, where the function returns true.
unfoldable pub lookup : Tlb → ℕ → AccessType → ℕ → ℕ → Bool → Bool → Option ℕ
lookup t va type asid mode mxr sum =
    let e = t.entries (index va) in
    if not (e.generation == t.generation)
    then none
    else if not (bit_and va (not64 (page_mask e.page_bits)) == e.vpage_base)
    then none
    else if not e.global && not (e.asid == asid)
    then none
    else if lookup_allowed e.perm type mode mxr sum
    then some (bit_or e.ppage_base (bit_and va (page_mask e.page_bits)))
    else none

-- `for(i = 0; i < pages; i++)` from `i` on, with `left` rounds to go
unfoldable pub add_credits : ℕ → ℕ → (ℕ → ℕ) → ℕ → ℕ
add_credits first zero w = w
add_credits first (suc left) w =
    add_credits (first + 1) left (update w first (if w first == 255 then 255 else w first + 1))

abbrev pub credit_cap_pages : ℕ
credit_cap_pages = 512

unfoldable pub add_writable : Tlb → TlbEntry → Tlb
add_writable t e =
    if not (has e.perm Perm.w)
    then t
    else let first = e.ppage_base >>> 12 in
      let pages = 2 ^ (e.page_bits - 12) in
      if ltb credit_cap_pages pages then record t { writable_oversized = true } else record t {
        writable_size =
            if ltb t.writable_size (first + pages) then first + pages + 8192 else t.writable_size;
        writable = add_credits first pages t.writable;
      }

-- The loop of `drop_writable`, which also ends at the end of the vector.
unfoldable pub drop_credits : ℕ → ℕ → ℕ → (ℕ → ℕ) → ℕ → ℕ
drop_credits limit first zero w = w
drop_credits limit first (suc left) w =
    let rest = drop_credits limit (first + 1) left (update w first (w first - 1)) in
    if ltb first limit then rest else w

unfoldable pub drop_writable : Tlb → TlbEntry → Tlb
drop_writable t e =
    if not (e.generation == t.generation) || not (has e.perm Perm.w)
    then t
    else let first = e.ppage_base >>> 12 in
      let pages = 2 ^ (e.page_bits - 12) in
      if ltb credit_cap_pages pages
      then record t { writable_oversized = true }
      else record t { writable = drop_credits t.writable_size first pages t.writable }

-- The permissions that `insert` stores: a page that was executed loses W and D.
abbrev pub strip_executed : SelfMod → ℕ → ℕ → ℕ
strip_executed s leaf perm =
    if has perm Perm.w && was_page_executed s leaf then bit_and perm 0xdd else perm

-- `host_page` is 0 for the null pointer.
unfoldable pub insert : SelfMod → Tlb → ℕ → ℕ → ℕ → ℕ → ℕ → Bool → ℕ → Tlb
insert s t va pa page_bits perm asid global host_page =
    let mask = page_mask page_bits in
    let vpage = bit_and va (not64 mask) in
    let ppage = bit_and pa (not64 mask) in
    let t' = drop_writable t (t.entries (index va)) in
    let e : TlbEntry = record {
      vpage_mask_inv = not64 mask;
      vpage_base = vpage;
      generation = t.generation;
      host_ptr = if host_page == 0 then 0 else u64 (host_page + 2 ^ 64 - vpage);
      ppage_base = ppage;
      asid = asid;
      page_bits = page_bits;
      perm = strip_executed s (u64 (ppage + bit_and va mask)) perm;
      global = global;
    } in
    add_writable (record t' { entries = update t'.entries (index va) e }) e

unfoldable pub flush_all : Tlb → Tlb
flush_all t = record t {
  generation = u64 (t.generation + 1);
  writable = λ _. 0;
  writable_oversized = false;
}

unfoldable pub note_exec : Tlb → ℕ → Tlb
note_exec t phys =
    let page = phys >>> 12 in
    if not t.writable_oversized && ltb page t.writable_size && nonzero (t.writable page)
    then flush_all t
    else t

-- `drop_writable(e); e.generation = 0;` on the entry of slot `i`
abbrev pub invalidate : Tlb → ℕ → Tlb
invalidate t i =
    let t' = drop_writable t (t.entries i) in
    record t' { entries = update t'.entries i (record (t.entries i) { generation = 0 }) }

unfoldable pub flush_addr : Tlb → ℕ → Tlb
flush_addr t va =
    if (t.entries (index va)).generation == t.generation then invalidate t (index va) else t

-- The test of `flush_asid` and `flush_addr_asid` on one entry.
abbrev pub of_asid : Tlb → ℕ → TlbEntry → Bool
of_asid t asid e = e.generation == t.generation && not e.global && e.asid == asid

unfoldable pub flush_addr_asid : Tlb → ℕ → ℕ → Tlb
flush_addr_asid t va asid =
    if of_asid t asid (t.entries (index va)) then invalidate t (index va) else t

-- `for(TlbEntry& e : entries)` from slot `i` on, with `left` slots to go
unfoldable pub flush_asid_from : ℕ → ℕ → ℕ → Tlb → Tlb
flush_asid_from asid i zero t = t
flush_asid_from asid i (suc left) t =
    flush_asid_from asid (i + 1) left (if of_asid t asid (t.entries i) then invalidate t i else t)

unfoldable pub flush_asid : Tlb → ℕ → Tlb
flush_asid t asid = flush_asid_from asid 0 size t
