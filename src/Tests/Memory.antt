-- ===== src/Tests/Memory.antt =====
-- Accesses of a core to memory and to a device, and atomic instructions.
use rv64_vm.Prelude.{ℕ, ◌+◌, ◌^◌, ◌%◌, true, false, some, [], ◌∷◌, ◌≡◌, refl, arith, u64}
use rv64_vm.Hart.State.{Hart, get_effective_mode, amo_check_reservation}
use rv64_vm.Mem.Access.{store, success}
use rv64_vm.Mem.Map.{read_bytes, write_bytes, read_at, write_at}
use rv64_vm.Mem.Mmio.{
  Devices, World, At, Reply, go, translated, read, write, store_part, located, write_dram_fast,
}
use rv64_vm.Mem.Mmio.Dram.{read-write_dram, write-cross_page_lost}
use rv64_vm.Mem.Mmu.{
  translate, translate_bare, translate_impl, walk_from, load_pte, store_pte, leaf_allowed,
  is_aligned, refill,
}
use rv64_vm.Mem.SelfMod.{was_page_executed, smc_store_hit}
use rv64_vm.Mem.Tlb.{lookup, insert, add_writable, drop_writable}
use rv64_vm.Isa.Rv64a.{amo, amo_sc, store_reserved, drop_reservation}
use rv64_vm.Isa.Rv64a.Reserve.{amo_lem, amo_sc-ends}
use rv64_vm.Tests.Base.{core0}
use rv64_vm.Tests.Translation.{unmarked, ram0, memory0, paged}

-- One device, a register that a write sets.
abbrev register : Devices
register = record {
  State = ℕ;
  devs = record { start = 0x10000000; size = 8 } ∷ [];
  read = λ i h w addr n. record { hart = h; world = w; val = w.devices };
  write = λ i h w addr n v. record { hart = h; world = record w { devices = v } };
}

abbrev world0 : World ℕ
world0 = record { mmap = memory0; self_mod = unmarked; memsize = 0x10000; devices = 0 }

read-write_dram_example :
    (r : Reply ℕ) × (write register core0 world0 0x80000100 2 0xabcde true ≡ some r)
    × (r.ret ≡ success)
    × (read register r.hart r.world 0x80000100 2 true
        ≡ some (record { hart = r.hart; world = r.world; ret = success; val = 0xabcde % 256 ^ 2 }))
read-write_dram_example =
    read-write_dram register core0 world0 ram0 0x80000100 2 0xabcde refl refl (omega arith) refl
      refl

-- A store of eight bytes from the last three of one page on, both pages in the superpage of `paged`, whose
-- entry has its A and D bits from the first translation.
abbrev world1 : World ℕ
world1 = record world0 {
  mmap = record memory0 {
    ram_direct = some (record ram0 { bytes = write_bytes 8 ram0.bytes 8 0x200000cf });
  };
}

abbrev first : At ℕ
first = record {
  hart = (refill unmarked paged world1.mmap store 0x40000ffd 2 0x200000cf).hart;
  world = world1;
  val = 0x80000ffd;
}

abbrev second : At ℕ
second = record {
  hart = (refill unmarked first.hart world1.mmap store 0x40001000 2 0x200000cf).hart;
  world = world1;
  val = 0x80001000;
}

first_eq : translated register paged world0 store 0x40000ffd ≡ go first
unfolding translated translate translate_impl walk_from load_pte store_pte leaf_allowed is_aligned
    read_at write_at read_bytes get_effective_mode refill lookup
first_eq = refl

second_eq : translated register first.hart world1 store 0x40001000 ≡ go second
unfolding translated translate translate_impl walk_from load_pte store_pte leaf_allowed is_aligned
    read_at write_at read_bytes get_effective_mode refill lookup insert add_writable drop_writable
    was_page_executed write_bytes
second_eq = refl

write-cross_page_lost_example :
    (r : Reply ℕ) × (write register paged world0 0x40000ffd 8 0x1122334455667788 false ≡ some r)
    × (r.ret ≡ success)
    × (r.world.mmap ≡ second.world.mmap)
write-cross_page_lost_example =
    write-cross_page_lost register paged world0 _ 0x40000ffd 0x1122334455667788 first second refl
      refl first_eq second_eq refl refl refl

-- Bare translation of 0x80000100 on a core that has it reserved.
abbrev reserving : Hart
reserving = record core0 { reservation = record { paddr = 0x80000100; size = 8; valid = true } }

abbrev bare : At ℕ
bare = record {
  hart = (translate_bare unmarked reserving memory0 0x80000100).hart;
  world = world0;
  val = 0x80000100;
}

bare_eq : translated register reserving world0 store 0x80000100 ≡ go bare
unfolding translated translate translate_bare get_effective_mode
bare_eq = refl

amo_lem_example :
    (old : ℕ) × (r : Reply ℕ) × (read register bare.hart bare.world bare.val 8 true
      ≡ some (record { hart = bare.hart; world = bare.world; ret = success; val = old }))
    × (amo register 8 (λ a b. u64 (a + b)) reserving world0 0x80000100 5 ≡ some r)
    × (r.val ≡ old)
    × (read register r.hart r.world bare.val 8 true
        ≡ some (record {
          hart = r.hart;
          world = r.world;
          ret = success;
          val = u64 (old + 5) % 256 ^ 8;
        }))
amo_lem_example =
    amo_lem register 8 (λ a b. u64 (a + b)) reserving world0 0x80000100 5 bare ram0 bare_eq refl
      refl (omega arith) refl refl

abbrev stored : Reply ℕ
stored = record {
  hart = drop_reservation (amo_check_reservation bare.hart 0x80000100);
  world = record world0 {
    self_mod = smc_store_hit unmarked 0x80000100;
    mmap = record memory0 {
      ram_direct = some (record ram0 { bytes = write_bytes 8 ram0.bytes 0x100 42 });
    };
  };
  ret = success;
  val = 0;
}

stored_eq : amo_sc register reserving world0 0x80000100 8 42 ≡ some stored
unfolding amo_sc store_reserved translated translate translate_bare get_effective_mode write located
    store_part write_dram_fast write_at
stored_eq = refl

-- The second SC is to the same address.
abbrev bare_again : At ℕ
bare_again = record {
  hart = (translate_bare stored.world.self_mod stored.hart stored.world.mmap 0x80000100).hart;
  world = stored.world;
  val = 0x80000100;
}

bare_again_eq : translated register stored.hart stored.world store 0x80000100 ≡ go bare_again
unfolding translated translate translate_bare get_effective_mode amo_check_reservation
bare_again_eq = refl

amo_sc-ends_example :
    amo_sc register stored.hart stored.world 0x80000100 8 43
    ≡ some (record {
      hart = drop_reservation bare_again.hart;
      world = stored.world;
      ret = success;
      val = 1;
    })
amo_sc-ends_example =
    amo_sc-ends register reserving world0 0x80000100 8 42 bare stored bare_eq stored_eq refl
      0x80000100 8 43 bare_again bare_again_eq
