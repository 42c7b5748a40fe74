-- ===== src/Mem/Mmu.antt =====
-- include/mmu.hpp and include/mmu.inl: address translation. `none` is an exception or an access outside
-- an array in the host program. The walk counter is left out.
pub mod Permissions
pub mod Leaf
pub mod Again
pub mod Bare
pub mod Frame
use rv64_vm.Prelude.{
  ℕ, zero, suc, ◌+◌, ◌-◌, ◌*◌, ◌/◌, ◌%◌, ◌^◌, bit_and, bit_or, Bool, true, false, not, ◌&&◌, ◌||◌,
  Option, none, some, ltb, leb, ◌==◌, if◌then◌else◌, update, u64, not64, ◌<<<◌, ◌>>>◌, nonzero,
  field, with_bit,
}
use rv64_vm.Hart.State.{
  Hart, PrivilegeMode, user, supervisor, machine, is_mode, to_number, get_effective_mode, satp_ppn,
  satp_asid, satp_mode,
}
use rv64_vm.Mem.Access.{AccessType, load, store, exec, MemoryReturn, success, fault}
use rv64_vm.Mem.Exc
use rv64_vm.Mem.Map
use rv64_vm.Mem.Map.{MemoryMap, Region, read_at, write_at}
use rv64_vm.Mem.Perm
use rv64_vm.Mem.SelfMod.{SelfMod, was_page_executed}
use rv64_vm.Mem.Tlb.{Tlb, page_mask}
use rv64_vm.Mem.Tlb

-- `AccessType_to_Fault`
abbrev pub page_fault : AccessType → ℕ
page_fault load = Exc.load_page_fault
page_fault store = Exc.store_page_fault
page_fault exec = Exc.inst_page_fault

-- `VirtualAddress::isvalid`: bits 63 to 38 are all equal.
abbrev pub is_valid : ℕ → Bool
is_valid va = va >>> 38 == 0 || va >>> 38 == 2 ^ 26 - 1

abbrev pub get_vpn : ℕ → ℕ → ℕ
get_vpn va i = field va (12 + 9 * i) 9

-- The fields of a page table entry.
module _ (pte : ℕ) where
  abbrev pub pte_v : ℕ
  pte_v = field pte 0 1

  abbrev pub pte_r : ℕ
  pte_r = field pte 1 1

  abbrev pub pte_w : ℕ
  pte_w = field pte 2 1

  abbrev pub pte_x : ℕ
  pte_x = field pte 3 1

  abbrev pub pte_u : ℕ
  pte_u = field pte 4 1

  abbrev pub pte_g : ℕ
  pte_g = field pte 5 1

  abbrev pub pte_a : ℕ
  pte_a = field pte 6 1

  abbrev pub pte_d : ℕ
  pte_d = field pte 7 1

  abbrev pub get_solid_ppn : ℕ
  get_solid_ppn = field pte 10 44

-- `addr >= ram_base && addr - ram_base <= ram_len - SvMode::PTESIZE * 8`
abbrev pub pte_in_ram : Region → ℕ → Bool
pte_in_ram r addr = leb r.base_addr addr && leb (addr - r.base_addr) (u64 (r.size + 2 ^ 64 - 64))

unfoldable pub load_pte : MemoryMap → ℕ → Option ℕ
load_pte m addr = elim (m.ram_direct) [
  | none ↦ none
  | some r ↦ if pte_in_ram r addr then read_at r (addr - r.base_addr) 8 else Map.load m addr 64
]

unfoldable pub store_pte : MemoryMap → ℕ → ℕ → Option MemoryMap
store_pte m addr pte = elim (m.ram_direct) [
  | none ↦ none
  | some r ↦
      if pte_in_ram r addr
      then elim (write_at r (addr - r.base_addr) 8 pte) [
        | none ↦ none
        | some r' ↦ some (record m { ram_direct = some r' })
      ]
      else Map.store m addr 64 pte
]

-- How the loop over the levels ends: at a leaf, with its level, the address of its entry and the entry,
-- or with a page fault.
pub data Walk : Type 0 where
  leaf : ℕ → ℕ → ℕ → Walk
  no_leaf : Walk

-- `pte.fields.V == 0 || (pte.fields.W == 1 and pte.fields.R == 0)`
abbrev pub is_bad : ℕ → Bool
is_bad pte = pte_v pte == 0 || (pte_w pte == 1 && pte_r pte == 0)

abbrev pub is_leaf : ℕ → Bool
is_leaf pte = pte_r pte == 1 || pte_x pte == 1

-- The loop from level `i` on, in the table at `a`.
unfoldable pub walk_from : MemoryMap → ℕ → ℕ → ℕ → Option Walk
walk_from m va zero a = elim (load_pte m (a + get_vpn va 0 * 8)) [
  | none ↦ none
  | some pte ↦
      if is_bad pte
      then some no_leaf
      else if is_leaf pte
      then some (leaf 0 (a + get_vpn va 0 * 8) pte)
      else some no_leaf
]
walk_from m va (suc i) a = elim (load_pte m (a + get_vpn va (suc i) * 8)) [
  | none ↦ none
  | some pte ↦
      let rest = walk_from m va i (get_solid_ppn pte * 4096) in
      if is_bad pte
      then some no_leaf
      else if is_leaf pte
      then some (leaf (suc i) (a + get_vpn va (suc i) * 8) pte)
      else rest
]

abbrev pub is_exec : AccessType → Bool
is_exec exec = true
is_exec load = false
is_exec store = false

-- A superpage whose page number has no low bits.
unfoldable pub is_aligned : ℕ → ℕ → Bool
is_aligned i pte = not (ltb 0 i && nonzero (get_solid_ppn pte % 2 ^ (9 * i)))

-- The tests of a leaf: alignment of a superpage, the U bit and the access type.
unfoldable pub leaf_allowed : Hart → AccessType → ℕ → ℕ → Bool
leaf_allowed h type i pte = is_aligned i pte && by_mode && by_type type
  where
    by_mode : Bool
    by_mode =
        if is_mode (get_effective_mode h type) user
        then nonzero (pte_u pte)
        else if is_mode (get_effective_mode h type) supervisor && nonzero (pte_u pte)
        then not (is_exec type || not (nonzero h.status.sum))
        else true

    by_type : AccessType → Bool
    by_type load = nonzero (pte_r pte) || (nonzero (pte_x pte) && nonzero h.status.mxr)
    by_type store = nonzero (pte_w pte)
    by_type exec = nonzero (pte_x pte)

-- The A bit, and for a store the D bit.
abbrev pub is_store : AccessType → Bool
is_store store = true
is_store load = false
is_store exec = false

abbrev pub needs_update : AccessType → ℕ → Bool
needs_update type pte = pte_a pte == 0 || (is_store type && pte_d pte == 0)

abbrev pub updated : AccessType → ℕ → ℕ
updated type pte =
    let accessed = with_bit pte 6 1 in if is_store type then with_bit accessed 7 1 else accessed

-- What the leaf's bits become in the translation cache.
abbrev pub perm_bits : ℕ → ℕ
perm_bits pte =
    pte_r pte * Perm.r
    + pte_w pte * Perm.w
    + pte_x pte * Perm.x
    + pte_u pte * Perm.u
    + pte_a pte * Perm.a
    + pte_d pte * Perm.d

abbrev pub without_write : ℕ → ℕ
without_write perm = bit_and perm 0xdd

-- The host address of a page of `len` bytes, 0 if it is not inside the main memory.
unfoldable pub host_page : MemoryMap → ℕ → ℕ → ℕ
host_page m base len = elim (m.ram_direct) [
  | none ↦ 0
  | some r ↦
      if leb r.base_addr base && leb (u64 (base - r.base_addr + len)) r.size
      then r.host + (base - r.base_addr)
      else 0
]

-- What `translate` leaves, `pa` being what it stores through its pointer.
pub record Translation : Type 0 where
  pub hart : Hart
  pub mmap : MemoryMap
  pub ret : MemoryReturn
  pub pa : ℕ

abbrev pub page_faulted : Hart → MemoryMap → AccessType → ℕ → Translation
page_faulted h m type va = record { hart = h; mmap = m; ret = fault (page_fault type) va; pa = 0 }

-- `(pte.get_solid_ppn() << 12) | (raw_va & vmask)`
abbrev pub leaf_pa : ℕ → ℕ → ℕ → ℕ
leaf_pa va i pte = bit_or (get_solid_ppn pte <<< 12) (bit_and va (page_mask (12 + i * 9)))

-- `translate_impl` from the point where the leaf was found to be allowed and `pte` is up to date.
unfoldable pub refill : SelfMod → Hart → MemoryMap → AccessType → ℕ → ℕ → ℕ → Translation
refill s h m type va i pte =
    let pa = leaf_pa va i pte in
    let page_bits = 12 + i * 9 in
    let all = perm_bits pte in
    let perm = if was_page_executed s pa || is_exec type then without_write all else all in
    let pa_aligned = bit_and pa (not64 (page_mask page_bits)) in
    record {
      hart = record h {
        tlb =
            Tlb.insert s h.tlb va pa_aligned page_bits perm (satp_asid h.satp) (nonzero (pte_g pte))
              (host_page m pa_aligned (2 ^ page_bits));
      };
      mmap = m;
      ret = success;
      pa = pa;
    }

-- `translate_impl` for Sv39, which has three levels.
unfoldable pub translate_impl : SelfMod → Hart → MemoryMap → AccessType → ℕ → Option Translation
translate_impl s h m type va =
    if not (is_valid va)
    then some (page_faulted h m type va)
    else elim (walk_from m va 2 (satp_ppn h.satp * 4096)) [
      | none ↦ none
      | some no_leaf ↦ some (page_faulted h m type va)
      | some (leaf i addr pte) ↦
          if not (leaf_allowed h type i pte)
          then some (page_faulted h m type va)
          else if needs_update type pte
          then elim (store_pte m addr (updated type pte)) [
            | none ↦ none
            | some m' ↦ some (refill s h m' type va i (updated type pte))
          ]
          else some (refill s h m type va i pte)
    ]

-- The identity mapping of machine mode and of `Bare`, which also seeds the translation cache.
unfoldable pub translate_bare : SelfMod → Hart → MemoryMap → ℕ → Translation
translate_bare s h m va =
    let base = bit_and va (not64 0xfff) in
    record {
      hart = record h {
        tlb =
            Tlb.insert s h.tlb va base 12
              (if was_page_executed s va then without_write 0x3f else 0x3f) (satp_asid h.satp) true
              (host_page m base 0x1000);
      };
      mmap = m;
      ret = success;
      pa = va;
    }

-- `none` for the modes Sv48 and Sv57, and the numbers that are no mode, which throw.
unfoldable pub translate : SelfMod → Hart → MemoryMap → AccessType → ℕ → Option Translation
translate s h m type va =
    let mode = get_effective_mode h type in
    if is_mode mode machine || satp_mode h.satp == 0
    then some (translate_bare s h m va)
    else elim (Tlb.lookup h.tlb va type (satp_asid h.satp) (to_number mode) (nonzero h.status.mxr)
        (nonzero h.status.sum)) [
          | some pa ↦ some (record { hart = h; mmap = m; ret = success; pa = pa })
          | none ↦ if satp_mode h.satp == 8 then translate_impl s h m type va else none
        ]
