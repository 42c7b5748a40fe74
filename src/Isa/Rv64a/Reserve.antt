-- ===== src/Isa/Rv64a/Reserve.antt =====
-- src/sets/rv64a.cpp: store-conditional and its reservation.
use rv64_vm.Prelude.{
  ℕ, ◌%◌, ◌^◌, ◌<◌, true, false, some, ◌≡◌, inl, inr, refl, arith, Option-cases, Bool-cases,
}
use rv64_vm.Hart.State.{Hart}
use rv64_vm.Isa.Rv64a.{amo_sc, amo, store_reserved, reserves, drop_reservation}
use rv64_vm.Mem.Access.{AccessType, store, success}
use rv64_vm.Mem.Map.{Region}
use rv64_vm.Mem.Mmu.{translate}
use rv64_vm.Mem.Mmu.Frame.{translate-reservation}
use rv64_vm.Mem.Mmio.{
  Devices, World, At, Reply, go, translated, in_dram, is_memory_size, read, write,
}
use rv64_vm.Mem.Mmio.Dram.{read-write_dram, read_dram_total}

-- After an SC that got through, whether it stored or not, nothing is reserved.
amo_sc-reserves :
    (dev : Devices) (h : Hart) (w : World dev.State) (va n val : ℕ) (p : At dev.State)
    (r : Reply dev.State)
    → translated dev h w store va ≡ go p
    → amo_sc dev h w va n val ≡ some r
    → r.ret.is_success ≡ true
    → (pa m : ℕ) → reserves r.hart pa m ≡ false
unfolding amo_sc store_reserved
amo_sc-reserves dev h w va n val p r t e ok pa m = elim (Bool-cases (reserves p.hart p.val n)) [
  | inr free ↦ ground (arith, e, t, free)
  | inl held ↦ elim (Option-cases (write dev p.hart p.world p.val n val true)) [
    | inl fail ↦ absurd (ground (arith, e, t, held, fail))
    | inr (a, stored) ↦ elim (Bool-cases a.ret.is_success) [
      | inl good ↦ ground (arith, e, t, held, stored, good)
      | inr bad ↦ absurd (ground (arith, e, t, held, stored, bad, ok))
    ]
  ]
]

translated-reservation :
    (dev : Devices) (h : Hart) (w : World dev.State) (type : AccessType) (va : ℕ) (p : At dev.State)
    → translated dev h w type va ≡ go p
    → p.hart.reservation ≡ h.reservation
unfolding translated
translated-reservation dev h w type va p e =
    elim (Option-cases (translate w.self_mod h w.mmap type va)) [
      | inl crashed ↦ absurd (ground (arith, e, crashed))
      | inr (t, done) ↦
          let same = translate-reservation w.self_mod h w.mmap type va t done in
          elim (Bool-cases t.ret.is_success) [
            | inl ok ↦ ground (arith, e, done, ok, same)
            | inr bad ↦ absurd (ground (arith, e, done, bad))
          ]
    ]

-- After an SC that got through, whether it stored or not, a second one whose address is translated, at
-- any address, of any size and with any value, fails: it gives 1, and its translation is all that it
-- does to the memory and the devices.
pub amo_sc-ends :
    (dev : Devices) (h : Hart) (w : World dev.State) (va n val : ℕ) (p : At dev.State)
    (r : Reply dev.State)
    → translated dev h w store va ≡ go p
    → amo_sc dev h w va n val ≡ some r
    → r.ret.is_success ≡ true
    → (va' n' val' : ℕ) (p' : At dev.State) → translated dev r.hart r.world store va' ≡ go p'
    → amo_sc dev r.hart r.world va' n' val'
      ≡ some (record { hart = drop_reservation p'.hart; world = p'.world; ret = success; val = 1 })
unfolding amo_sc store_reserved
amo_sc-ends dev h w va n val p r t e ok va' n' val' p' t' =
    let same = translated-reservation dev r.hart r.world store va' p' t' in
    let old = amo_sc-reserves dev h w va n val p r t e ok p'.val n' in
    let free : reserves p'.hart p'.val n' ≡ false = rw same old in
    rw (amo_sc, t', store_reserved, free) refl

-- An AMO on main memory gives the old value and leaves there what its function makes of it.
pub amo_lem :
    (dev : Devices) (n : ℕ) (func : ℕ → ℕ → ℕ) (h : Hart) (w : World dev.State) (va operand : ℕ)
    (p : At dev.State) (ram : Region)
    → translated dev h w store va ≡ go p
    → p.world.mmap.ram_direct ≡ some ram
    → ram.size ≡ p.world.memsize
    → p.world.memsize < 2 ^ 63
    → is_memory_size n ≡ true
    → in_dram dev p.world p.val n ≡ true
    → (old : ℕ) × (r : Reply dev.State) × (read dev p.hart p.world p.val n true
        ≡ some (record { hart = p.hart; world = p.world; ret = success; val = old }))
      × (amo dev n func h w va operand ≡ some r)
      × (r.val ≡ old)
      × (read dev r.hart r.world p.val n true
          ≡ some (record {
            hart = r.hart;
            world = r.world;
            ret = success;
            val = func old operand % 256 ^ n;
          }))
unfolding amo
amo_lem dev n func h w va operand p ram t is_ram size small ok inside_dram =
    let before = read_dram_total dev p.hart p.world ram p.val n is_ram size small ok inside_dram in
    let after =
      read-write_dram dev p.hart p.world ram p.val n (func before.0 operand) is_ram size small ok
        inside_dram in
    (
      before.0,
      record after.0 { val = before.0; ret = success },
      before.1,
      rw (t, before.1, after.1, after.2) refl,
      refl,
      after.3,
    )
