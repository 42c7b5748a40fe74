-- ===== src/Mem/Map.antt =====
-- include/memory_map.hpp: the guest's physical memory, a list of regions. A region's `data` is a function
-- of the offset beside its size. `none` is the exception that the host program throws, or an access
-- outside a region's array. The `|` of bytes at different places is written as a sum.
pub mod Bytes
use rv64_vm.Prelude.{
  ℕ, zero, suc, ◌+◌, ◌-◌, ◌*◌, ◌/◌, ◌%◌, ◌^◌, Bool, not, ◌&&◌, ◌||◌, Option, none, some, List, [],
  ◌∷◌, ◌++◌, ltb, leb, ◌==◌, if◌then◌else◌, update, u8, u64,
}

-- `MemoryRegion`; `host` is the address of its array in the host program.
pub record Region : Type 0 where
  pub base_addr : ℕ
  pub size : ℕ
  pub host : ℕ
  pub bytes : ℕ → ℕ

-- The region that `get_ram_direct` gives, the last one added from 0x80000000 on, and those below, in the
-- order in which they were added: no other region is found by any address.
pub record MemoryMap : Type 0 where
  pub regions : List Region
  pub ram_direct : Option Region

unfoldable pub add_region : MemoryMap → Region → MemoryMap
add_region m r =
    if leb 0x80000000 r.base_addr
    then record m { ram_direct = some r }
    else record m { regions = m.regions ++ (r ∷ []) }

-- `n` bytes from offset `off` on, the lowest first.
unfoldable pub read_bytes : ℕ → (ℕ → ℕ) → ℕ → ℕ
read_bytes zero bytes off = 0
read_bytes (suc n) bytes off = u8 (bytes off) + 2 ^ 8 * read_bytes n bytes (off + 1)

unfoldable pub write_bytes : ℕ → (ℕ → ℕ) → ℕ → ℕ → ℕ → ℕ
write_bytes zero bytes off value = bytes
write_bytes (suc n) bytes off value =
    write_bytes n (update bytes off (u8 value)) (off + 1) (value / 2 ^ 8)

-- Are `n` bytes from offset `off` on inside the array?
abbrev pub inside : Region → ℕ → ℕ → Bool
inside r off n = leb (off + n) r.size

unfoldable pub read_at : Region → ℕ → ℕ → Option ℕ
read_at r off n = if inside r off n then some (read_bytes n r.bytes off) else none

unfoldable pub write_at : Region → ℕ → ℕ → ℕ → Option Region
write_at r off n value =
    if inside r off n then some (record r { bytes = write_bytes n r.bytes off value }) else none

-- `addr >= base_addr && addr < base_addr + size`
abbrev pub covers : Region → ℕ → Bool
covers r addr = leb r.base_addr addr && ltb addr (u64 (r.base_addr + r.size))

-- The sizes, in bits, that `load` and `store` accept.
abbrev pub is_size : ℕ → Bool
is_size size = not (size == 0 || ltb 64 size || not (size % 8 == 0))

-- `find_region(addr)->ptr(addr)` and the bytes read there.
unfoldable pub load_low : List Region → ℕ → ℕ → Option ℕ
load_low [] addr n = none
load_low (r ∷ rs) addr n =
    if covers r addr then read_at r (addr - r.base_addr) n else load_low rs addr n

unfoldable pub load : MemoryMap → ℕ → ℕ → Option ℕ
load m addr size =
    if not (is_size size)
    then none
    else if leb 0x80000000 addr
    then elim (m.ram_direct) [
      | none ↦ none
      | some r ↦ if covers r addr then read_at r (addr - r.base_addr) (size / 8) else none
    ]
    else load_low m.regions addr (size / 8)

unfoldable pub store_low : List Region → ℕ → ℕ → ℕ → Option (List Region)
store_low [] addr n value = none
store_low (r ∷ rs) addr n value =
    if covers r addr
    then elim (write_at r (addr - r.base_addr) n value) [ none ↦ none | some r' ↦ some (r' ∷ rs) ]
    else elim (store_low rs addr n value) [ none ↦ none | some rs' ↦ some (r ∷ rs') ]

unfoldable pub store : MemoryMap → ℕ → ℕ → ℕ → Option MemoryMap
store m addr size value =
    if not (is_size size)
    then none
    else if leb 0x80000000 addr
    then elim (m.ram_direct) [
      | none ↦ none
      | some r ↦
          if covers r addr
          then elim (write_at r (addr - r.base_addr) (size / 8) value) [
            | none ↦ none
            | some r' ↦ some (record m { ram_direct = some r' })
          ]
          else none
    ]
    else elim (store_low m.regions addr (size / 8) value) [
      | none ↦ none
      | some rs ↦ some (record m { regions = rs })
    ]
