-- ===== src/Mem/Mmio/Dram.antt =====
-- src/mmio.cpp: what the accesses that reach the main memory do there.
use native.Mathlib.Nat.{mod-mod}
use rv64_vm.Prelude.{
  ℕ, ◌+◌, ◌-◌, ◌/◌, ◌%◌, ◌^◌, ◌<◌, true, false, some, ◌≡◌, inl, inr, refl, ap, ◌∙◌, arith, u64,
  Option-cases, nonzero,
}
use rv64_vm.Hart.State.{Hart, satp_mode, amo_check_reservation}
use rv64_vm.Mem.Access.{store, success}
use rv64_vm.Mem.Map.{Region, inside, read_at, write_at, read_bytes, write_bytes}
use rv64_vm.Mem.Map.Bytes.{read_at-write_at}
use rv64_vm.Mem.SelfMod.{smc_store_hit}
use rv64_vm.Mem.Mmio.{
  Devices, World, At, Reply, go, in_dram, is_memory_size, dram_base, read_dram_fast,
  write_dram_fast, translated, store_part, load_part, located, read, write,
}

read_dram_fast-write_dram_fast :
    {S : Type 0} (w w' : World S) (paddr n val : ℕ)
    → is_memory_size n ≡ true
    → write_dram_fast w paddr n val ≡ some w'
    → (read_dram_fast w' paddr n ≡ some (val % 256 ^ n)) × (w'.memsize ≡ w.memsize)
unfolding read_dram_fast write_dram_fast
read_dram_fast-write_dram_fast w w' paddr n val ok e = elim (Option-cases (w.mmap.ram_direct)) [
  | inl no_ram ↦ ground (arith, e, ok, no_ram)
  | inr (r, ram) ↦ elim (Option-cases (write_at r (paddr - dram_base) n val)) [
    | inl fail ↦ ground (arith, e, ok, ram, fail)
    | inr (r', stored) ↦
        ground (arith, e, ok, ram, stored, read_at-write_at r r' (paddr - dram_base) n val stored)
  ]
]

-- The bounds of the fast path keep it inside the array of the main memory.
in_dram-inside :
    (dev : Devices) (w : World dev.State) (ram : Region) (paddr n : ℕ)
    → ram.size ≡ w.memsize
    → w.memsize < 2 ^ 63
    → is_memory_size n ≡ true
    → in_dram dev w paddr n ≡ true
    → inside ram (paddr - dram_base) n ≡ true
in_dram-inside dev w ram paddr n size small ok h = ground arith

write_dram_fast_total :
    {S : Type 0} (w : World S) (ram : Region) (paddr n val : ℕ)
    → w.mmap.ram_direct ≡ some ram
    → is_memory_size n ≡ true
    → inside ram (paddr - dram_base) n ≡ true
    → (w' : World S) × (write_dram_fast w paddr n val ≡ some w')
unfolding write_dram_fast write_at
write_dram_fast_total w ram paddr n val is_ram ok within = (
  record w {
    self_mod = smc_store_hit w.self_mod paddr;
    mmap = record w.mmap {
      ram_direct = some (record ram { bytes = write_bytes n ram.bytes (paddr - dram_base) val });
    };
  },
  ground (arith, is_ram, ok, within),
)

read_dram_fast_total :
    {S : Type 0} (w : World S) (ram : Region) (paddr n : ℕ)
    → w.mmap.ram_direct ≡ some ram
    → is_memory_size n ≡ true
    → inside ram (paddr - dram_base) n ≡ true
    → read_dram_fast w paddr n ≡ some (read_bytes n ram.bytes (paddr - dram_base))
unfolding read_dram_fast read_at
read_dram_fast_total w ram paddr n is_ram ok within = ground (arith, is_ram, ok, within)

module _ (dev : Devices) (h : Hart) (w : World dev.State) (addr n : ℕ)
    (inside_dram : in_dram dev w addr n ≡ true) where
  write-dram :
      (w' : World dev.State) (val : ℕ)
      → write_dram_fast w addr n val ≡ some w'
      → write dev h w addr n val true
        ≡ some (record { hart = amo_check_reservation h addr; world = w'; ret = success; val = 0 })
  unfolding write located store_part
  write-dram w' val e = ground (arith, inside_dram, e)

  read-dram :
      (v : ℕ)
      → read_dram_fast w addr n ≡ some v
      → read dev h w addr n true
        ≡ some (record { hart = h; world = w; ret = success; val = v % 256 ^ n })
  unfolding read located load_part
  read-dram v e = ground (arith, inside_dram, e)

-- A read there gives a value and changes nothing.
pub read_dram_total :
    (dev : Devices) (h : Hart) (w : World dev.State) (ram : Region) (addr n : ℕ)
    → w.mmap.ram_direct ≡ some ram
    → ram.size ≡ w.memsize
    → w.memsize < 2 ^ 63
    → is_memory_size n ≡ true
    → in_dram dev w addr n ≡ true
    → (old : ℕ) × (read dev h w addr n true
        ≡ some (record { hart = h; world = w; ret = success; val = old }))
read_dram_total dev h w ram addr n is_ram size small ok h' =
    let bytes = read_bytes n ram.bytes (addr - dram_base) in
    (
      bytes % 256 ^ n,
      read-dram dev h w addr n h' bytes (
          read_dram_fast_total w ram addr n is_ram ok
            (in_dram-inside dev w ram addr n size small ok h')),
    )

-- What a core writes to the main memory at a physical address succeeds, and it reads it back there, cut
-- to the size of the access; the read changes nothing. The main memory is an array of `memsize` bytes,
-- fewer than 2 ^ 63.
pub read-write_dram :
    (dev : Devices) (h : Hart) (w : World dev.State) (ram : Region) (addr n val : ℕ)
    → w.mmap.ram_direct ≡ some ram
    → ram.size ≡ w.memsize
    → w.memsize < 2 ^ 63
    → is_memory_size n ≡ true
    → in_dram dev w addr n ≡ true
    → (r : Reply dev.State) × (write dev h w addr n val true ≡ some r)
      × (r.ret ≡ success)
      × (read dev r.hart r.world addr n true
          ≡ some (record { hart = r.hart; world = r.world; ret = success; val = val % 256 ^ n }))
read-write_dram dev h w ram addr n val is_ram size small ok h' =
    let within = in_dram-inside dev w ram addr n size small ok h' in
    let after = write_dram_fast_total w ram addr n val is_ram ok within in
    let back = read_dram_fast-write_dram_fast w after.0 addr n val ok after.1 in
    (
      record { hart = amo_check_reservation h addr; world = after.0; ret = success; val = 0 },
      write-dram dev h w addr n h' after.0 val after.1,
      refl,
      read-dram dev (amo_check_reservation h addr) after.0 addr n (rw back.1 h') (val % 256 ^ n)
            back.0
          ∙ ap
              (λ v. some (record {
                hart = amo_check_reservation h addr;
                world = after.0;
                ret = success;
                val = v;
              }))
              (mod-mod val (256 ^ n)),
    )

store_part_lost :
    (dev : Devices) (h : Hart) (w : World dev.State) (ram : Region) (addr paddr n val : ℕ)
    → w.mmap.ram_direct ≡ some ram
    → is_memory_size n ≡ false
    → in_dram dev w paddr n ≡ true
    → store_part dev h w addr paddr n val
      ≡ go (record {
        hart = amo_check_reservation h paddr;
        world = record w { self_mod = smc_store_hit w.self_mod paddr };
        val = 0;
      })
unfolding store_part write_dram_fast
store_part_lost dev h w ram addr paddr n val is_ram odd h' = ground (arith, is_ram, odd, h')

-- A write of eight bytes that crosses a page between two pages of the main memory, three of its bytes on
-- the first page, returns success without having written a byte: only the translations change the memory.
pub write-cross_page_lost :
    (dev : Devices) (h : Hart) (w : World dev.State) (ram : Region) (addr val : ℕ)
    (p q : At dev.State)
    → addr % 0x1000 ≡ 0xffd
    → nonzero (satp_mode h.satp) ≡ true
    → translated dev h w store addr ≡ go p
    → translated dev p.hart p.world store (u64 (addr + 3)) ≡ go q
    → in_dram dev q.world p.val 3 ≡ true
    → in_dram dev q.world q.val 5 ≡ true
    → q.world.mmap.ram_direct ≡ some ram
    → (r : Reply dev.State) × (write dev h w addr 8 val false ≡ some r)
      × (r.ret ≡ success)
      × (r.world.mmap ≡ q.world.mmap)
unfolding write
write-cross_page_lost dev h w ram addr val p q last paging t1 t2 d1 d2 is_ram =
    let first = store_part_lost dev q.hart q.world ram addr p.val 3 (val % 2 ^ 24) is_ram refl d1 in
    let second =
      store_part_lost dev (amo_check_reservation q.hart p.val)
        (record q.world { self_mod = smc_store_hit q.world.self_mod p.val }) ram (u64 (addr + 3))
        q.val 5 (val / 2 ^ 24) is_ram refl d2 in
    (
      record {
        hart = amo_check_reservation (amo_check_reservation q.hart p.val) q.val;
        world = record q.world {
          self_mod = smc_store_hit (smc_store_hit q.world.self_mod p.val) q.val;
        };
        ret = success;
        val = 0;
      },
      rw (last, paging, t1, t2, first, second) refl,
      refl,
      refl,
    )
