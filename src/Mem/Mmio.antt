-- ===== src/Mem/Mmio.antt =====
-- src/mmio.cpp and include/mmio.hpp: the accesses of a core to memory and devices. The devices are an
-- interface. A size is the number of bytes of a `MemorySize`: 1, 2, 4 or 8, or that of a fragment of an
-- access that crosses a page.
pub mod Dram
use rv64_vm.Prelude.{
  ℕ, suc, ◌+◌, ◌-◌, ◌*◌, ◌/◌, ◌%◌, ◌^◌, bit_and, bit_or, Bool, true, false, not, ◌&&◌, ◌||◌, Option,
  none, some, List, [], ◌∷◌, ltb, leb, ◌==◌, if◌then◌else◌, u64, ◌<<<◌, ◌>>>◌, nonzero,
}
use rv64_vm.Hart.State.{Hart, amo_check_reservation, satp_mode}
use rv64_vm.Isa.Rv64i.LoadStore.{Bus}
use rv64_vm.Mem.Access.{AccessType, load, store, MemoryReturn, success, fault}
use rv64_vm.Mem.Exc
use rv64_vm.Mem.Map.{MemoryMap, read_at, write_at}
use rv64_vm.Mem.Mmu.{translate}
use rv64_vm.Mem.SelfMod.{SelfMod, smc_store_hit}

-- What the cores share; `devices` is the state of all devices.
pub record World (S : Type 0) : Type 0 where
  pub mmap : MemoryMap
  pub self_mod : SelfMod
  pub memsize : ℕ
  pub devices : S

pub record Range : Type 0 where
  pub start : ℕ
  pub size : ℕ

-- The devices, by their place in the list `devs`. A device may raise interrupts and reach the memory.
pub record Devices : Type 1 where
  pub State : Type 0
  pub devs : List Range
  pub read : ℕ → Hart → World State → ℕ → ℕ → record { hart : Hart; world : World State; val : ℕ }
  pub write : ℕ → Hart → World State → ℕ → ℕ → ℕ → record { hart : Hart; world : World State }

-- What a call gives back; `val` is what a read stores through its pointer.
pub record Reply (S : Type 0) : Type 0 where
  pub hart : Hart
  pub world : World S
  pub ret : MemoryReturn
  pub val : ℕ

-- A step of an access: the host program fails, the function returns early, or it goes on.
pub data Flow (S : Type 0) (A : Type 0) : Type 0 where
  crash : Flow S A
  exit : Reply S → Flow S A
  go : A → Flow S A

infixl 5 ◌>>=◌
abbrev pub ◌>>=◌ : {S A B : Type 0} → Flow S A → (A → Flow S B) → Flow S B
crash >>= f = crash
exit r >>= f = exit r
go a >>= f = f a

-- `none` where the host program fails
abbrev pub run : {S : Type 0} → Flow S (Reply S) → Option (Reply S)
run crash = none
run (exit r) = some r
run (go r) = some r

-- `paddr >= start && paddr <= start + size - access_size`
abbrev pub in_range : ℕ → ℕ → ℕ → ℕ → Bool
in_range start size paddr n = leb start paddr && leb paddr (u64 (start + size + (2 ^ 64 - n)))

abbrev pub dram_base : ℕ
dram_base = 0x80000000

-- The sizes that the two `switch`es of the fast accesses know.
abbrev pub is_memory_size : ℕ → Bool
is_memory_size n = n == 1 || n == 2 || n == 4 || n == 8

-- The first device of the list whose range holds the access, counted from `i` on.
unfoldable pub find_dev : List Range → ℕ → ℕ → ℕ → Option ℕ
find_dev [] i paddr n = none
find_dev (d ∷ ds) i paddr n =
    let rest = find_dev ds (i + 1) paddr n in
    if in_range d.start d.size paddr n then some i else rest

unfoldable pub read_dram_fast : {S : Type 0} → World S → ℕ → ℕ → Option ℕ
read_dram_fast w paddr n = elim (w.mmap.ram_direct) [
  | none ↦ none
  | some r ↦ if is_memory_size n then read_at r (paddr - dram_base) n else some 0
]

unfoldable pub write_dram_fast : {S : Type 0} → World S → ℕ → ℕ → ℕ → Option (World S)
write_dram_fast w paddr n val = elim (w.mmap.ram_direct) [
  | none ↦ none
  | some r ↦
      let hit = record w { self_mod = smc_store_hit w.self_mod paddr } in
      if is_memory_size n
      then elim (write_at r (paddr - dram_base) n val) [
        | none ↦ none
        | some r' ↦ some (record hit { mmap = record w.mmap { ram_direct = some r' } })
      ]
      else some hit
]

-- The core, the world and a number, between two steps.
pub record At (S : Type 0) : Type 0 where
  pub hart : Hart
  pub world : World S
  pub val : ℕ

module _ (dev : Devices) where
  open dev use {State, devs}

  abbrev pub in_dram : World State → ℕ → ℕ → Bool
  in_dram w paddr n = in_range dram_base w.memsize paddr n

  -- The physical address of `addr`, or the return from a failed translation.
  unfoldable pub translated : Hart → World State → AccessType → ℕ → Flow State (At State)
  translated h w type addr = elim (translate w.self_mod h w.mmap type addr) [
    | none ↦ crash
    | some t ↦
        let w' = record w { mmap = t.mmap } in
        if t.ret.is_success
        then go (record { hart = t.hart; world = w'; val = t.pa })
        else exit (record { hart = t.hart; world = w'; ret = t.ret; val = 0 })
  ]

  -- One access of `n` bytes at the physical address `paddr`, for the virtual address `addr`.
  unfoldable pub store_part : Hart → World State → ℕ → ℕ → ℕ → ℕ → Flow State (At State)
  store_part h w addr paddr n val =
      if in_dram w paddr n
      then elim (write_dram_fast w paddr n val) [
        | none ↦ crash
        | some w' ↦ go (record { hart = amo_check_reservation h paddr; world = w'; val = 0 })
      ]
      else elim (find_dev devs 0 paddr n) [
        | none ↦
            exit (record { hart = h; world = w; ret = fault Exc.store_access_fault addr; val = 0 })
        | some i ↦
            let r = dev.write i (amo_check_reservation h paddr) w paddr n val in
            go (record { hart = r.hart; world = r.world; val = 0 })
      ]

  unfoldable pub load_part : Hart → World State → ℕ → ℕ → ℕ → Flow State (At State)
  load_part h w addr paddr n =
      if in_dram w paddr n
      then elim (read_dram_fast w paddr n) [
        | none ↦ crash
        | some v ↦ go (record { hart = h; world = w; val = v })
      ]
      else elim (find_dev devs 0 paddr n) [
        | none ↦
            exit (record { hart = h; world = w; ret = fault Exc.load_access_fault addr; val = 0 })
        | some i ↦
            let r = dev.read i h w paddr n in
            go (record { hart = r.hart; world = r.world; val = r.val })
      ]

  -- `addr` itself if it is physical.
  unfoldable pub located : Hart → World State → AccessType → ℕ → Bool → Flow State (At State)
  located h w type addr isphys =
      if isphys then go (record { hart = h; world = w; val = addr }) else translated h w type addr

  -- `paging && ((addr & 0xFFF) + access_size > 0x1000)`
  abbrev pub cross_page : Hart → ℕ → ℕ → Bool → Bool
  cross_page h addr n isphys =
      not isphys && nonzero (satp_mode h.satp) && ltb 0x1000 (addr % 0x1000 + n)

  abbrev done : At State → ℕ → Flow State (Reply State)
  done a val = go (record { hart = a.hart; world = a.world; ret = success; val = val })

  unfoldable pub write : Hart → World State → ℕ → ℕ → ℕ → Bool → Option (Reply State)
  write h w addr n val isphys =
      if not (cross_page h addr n isphys)
      then run (do
        p ← located h w store addr isphys
        a ← store_part p.hart p.world addr p.val n val
        done a 0)
      else let first_size = 0x1000 - addr % 0x1000 in
        run (do
          p ← translated h w store addr
          q ← translated p.hart p.world store (u64 (addr + first_size))
          a ← store_part q.hart q.world addr p.val first_size (val % 2 ^ (first_size * 8))
          b ←
              store_part a.hart a.world (u64 (addr + first_size)) q.val (n - first_size)
                (val >>> (first_size * 8))
          done b 0)

  unfoldable pub read : Hart → World State → ℕ → ℕ → Bool → Option (Reply State)
  read h w addr n isphys =
      if not (cross_page h addr n isphys)
      then run (do
        p ← located h w load addr isphys
        a ← load_part p.hart p.world addr p.val n
        done a (a.val % 256 ^ n))
      else let first_size = 0x1000 - addr % 0x1000 in
        run (do
          p ← translated h w load addr
          q ← translated p.hart p.world load (u64 (addr + first_size))
          a ← load_part q.hart q.world addr p.val first_size
          b ← load_part a.hart a.world (u64 (addr + first_size)) q.val (n - first_size)
          done b (bit_or a.val (u64 (b.val <<< (first_size * 8))) % 256 ^ n))
