-- ===== src/Tests/Translation.antt =====
-- Address translation on a memory of 64 KiB with one page table, and loads and stores there.
use rv64_vm.Prelude.{
  ◌/◌, ◌+◌, ◌*◌, ◌^◌, true, false, none, some, [], ◌≡◌, refl, arith, ◌==◌, if◌then◌else◌, ◌<◌, ◌%◌,
}
use rv64_vm.Hart.State.{Hart, user, machine, is_mode, get_effective_mode}
use rv64_vm.Mem.Access.{load, success}
use rv64_vm.Mem.Map.{MemoryMap, Region, read_bytes, write_bytes, read_at, write_at}
use rv64_vm.Mem.Map
use rv64_vm.Mem.Map.Bytes.{load-store}
use rv64_vm.Mem.Mmu.{
  Translation, translate, translate_impl, translate_bare, walk_from, load_pte, store_pte,
  leaf_allowed, is_aligned, refill,
}
use rv64_vm.Mem.Mmu.Again.{translate-translate_impl, translate_impl_bounds}
use rv64_vm.Mem.Mmu.Bare.{translate-translate_bare}
use rv64_vm.Mem.SelfMod.{SelfMod}
use rv64_vm.Tests.Base.{core0}

abbrev pub unmarked : SelfMod
unmarked = record { epoch = 0; executed_pages = λ _. false; code_page_gen = λ _. none }

-- The root table is at the start of the memory: entry 1 is a leaf for 1 GiB at 0x80000000, readable,
-- writable and executable, its A and D bits clear.
abbrev pub ram0 : Region
ram0 = record {
  base_addr = 0x80000000;
  size = 0x10000;
  host = 0x7000;
  bytes = λ i. if i == 8 then 0x0f else if i == 11 then 0x20 else 0;
}

abbrev pub memory0 : MemoryMap
memory0 = record { regions = []; ram_direct = some ram0 }

-- A supervisor under Sv39.
abbrev pub paged : Hart
paged = record core0 { satp = 8 * 2 ^ 60 + 0x80000 }

-- The A bit is written back.
abbrev memory1 : MemoryMap
memory1 = record {
  regions = [];
  ram_direct = some (record ram0 { bytes = write_bytes 8 ram0.bytes 8 0x2000004f });
}

abbrev walked : Translation
walked = refill unmarked paged memory1 load 0x40000123 2 0x2000004f

walked_eq : translate_impl unmarked paged memory0 load 0x40000123 ≡ some walked
unfolding translate_impl walk_from load_pte store_pte leaf_allowed is_aligned read_at write_at
    read_bytes get_effective_mode
walked_eq = refl

paged_mode : is_mode (get_effective_mode paged load) machine ≡ false
unfolding get_effective_mode
paged_mode = refl

walked_ok : walked.ret.is_success ≡ true
unfolding refill
walked_ok = refl

-- The second load of 0x40000123 finds 0x80000123.
translate-translate_impl_example :
    translate unmarked walked.hart walked.mmap load 0x40000123 ≡ some walked
translate-translate_impl_example =
    translate-translate_impl unmarked paged memory0 load 0x40000123 walked (omega arith) refl
      paged_mode refl walked_eq walked_ok

translate_impl_bounds_example : (walked.pa < 2 ^ 56) × (walked.pa % 2 ^ 12 ≡ 0x40000123 % 2 ^ 12)
translate_impl_bounds_example =
    translate_impl_bounds unmarked paged memory0 load 0x40000123 walked (omega arith) walked_eq
      walked_ok

-- A core that has just loaded from 0x80000008 in machine mode, and then runs user mode under Sv39.
abbrev firmware : Hart
firmware = record paged { mode = machine }

abbrev program : Hart
program = record paged {
  mode = user;
  tlb = (translate_bare unmarked firmware memory0 0x80000008).hart.tlb;
}

program_mode : get_effective_mode program load ≡ user
unfolding get_effective_mode
program_mode = refl

translate-translate_bare_example :
    translate unmarked program memory0 load 0x80000008
    ≡ some (record { hart = program; mmap = memory0; ret = success; pa = 0x80000008 })
translate-translate_bare_example =
    translate-translate_bare unmarked firmware program memory0 memory0 0x80000008 (omega arith) refl
      program_mode refl

-- A halfword at 0x80000100.
abbrev memory2 : MemoryMap
memory2 = record {
  regions = [];
  ram_direct = some (record ram0 { bytes = write_bytes 2 ram0.bytes 0x100 0xabcde });
}

memory2_eq : Map.store memory0 0x80000100 16 0xabcde ≡ some memory2
unfolding Map.store write_at
memory2_eq = refl

load-store_example : Map.load memory2 0x80000100 16 ≡ some (0xabcde % 256 ^ (16 / 8))
load-store_example = load-store memory0 memory2 0x80000100 16 0xabcde memory2_eq
