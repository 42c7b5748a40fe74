-- ===== src/Isa/Zicboz.antt =====
-- src/sets/zicboz.cpp: the cache-block instruction.
use rv64_vm.Prelude.{
  ℕ, ◌+◌, ◌-◌, ◌%◌, false, ◌&&◌, Option, none, some, leb, ltb, if◌then◌else◌, u64,
}
use rv64_vm.Hart.State.{Hart, InstructionData, next, fail}
use rv64_vm.Isa.Rv64a.{Step}
use rv64_vm.Isa.Rv64i.Alu.{rs1}
use rv64_vm.Mem.Access.{store}
use rv64_vm.Mem.Exc
use rv64_vm.Mem.Map.{Region}
use rv64_vm.Mem.Mmio.{Devices, World, crash, exit, go, dram_base, translated}

abbrev pub cbo_size : ℕ
cbo_size = 64

-- `memset` of a block to 0
abbrev pub zeroed : Region → ℕ → Region
zeroed r off = record r {
  bytes = λ i. if leb off i && ltb i (off + cbo_size) then 0 else r.bytes i;
}

module _ (dev : Devices) where
  open dev use {State}

  -- The block at the physical address `pa`, for the virtual address `va`.
  unfoldable pub zero_block : Hart → World State → ℕ → ℕ → Option (Step dev)
  zero_block h w va pa =
      if leb dram_base pa && leb (u64 (pa + cbo_size)) (u64 (dram_base + w.memsize))
      then elim (w.mmap.ram_direct) [
        | none ↦ none
        | some r ↦ some (record {
          hart = h;
          world = record w {
            mmap = record w.mmap { ram_direct = some (zeroed r (pa - dram_base)) };
          };
          out = next;
        })
      ]
      else some (record { hart = h; world = w; out = fail false Exc.store_access_fault va })

  unfoldable pub exec_cbo_zero : Hart → World State → InstructionData → Option (Step dev)
  exec_cbo_zero h w inst =
      let va = rs1 h inst - rs1 h inst % cbo_size in
      elim (translated dev h w store va) [
        | crash ↦ none
        | exit r ↦
            some (record {
              hart = r.hart;
              world = r.world;
              out = fail false r.ret.exc_code r.ret.tval;
            })
        | go p ↦ zero_block p.hart p.world va p.val
      ]
