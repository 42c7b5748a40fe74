-- ===== src/Hart/Tick/Step.antt =====
-- What one tick guarantees.
use rv64_vm.Prelude.{ℕ, ◌+◌, false, ◌≡◌, if◌then◌else◌, u64, arith, ◌∙◌, ap}
use rv64_vm.Hart.State.{Hart, set_gpr}
use rv64_vm.Hart.Csrs
use rv64_vm.Hart.Trap.{trap, delegate_to_s}
use rv64_vm.Hart.Trap.Entry.{trap_saves_pc}
use rv64_vm.Hart.Ints.Choice.{gpr-check_ints}
use rv64_vm.Hart.Tick.{Core, begin_tick, tick}

begin_tick-x0 : (h : Hart) → (begin_tick h).gpr 0 ≡ 0
unfolding begin_tick
begin_tick-x0 h =
    ground
      (arith, gpr-check_ints (record h { gpr = (set_gpr h 0 0).gpr; cycle = u64 (h.cycle + 1) }))

module _ (core : Core) where
  open core use {World, Code, fetch, exec, fetch_gpr, fetch_pc}

  -- Whatever was written to x0 before, x0 reads 0 in the core that the fetch of a tick leaves, which is
  -- the core that the instruction runs on, for every fetch that keeps the general registers.
  pub tick-x0 : (h : Hart) (w : World) → (fetch (begin_tick h) w).hart.gpr 0 ≡ 0
  tick-x0 h w = ap (λ (g : ℕ → ℕ). g 0) (fetch_gpr (begin_tick h) w) ∙ begin_tick-x0 h

  -- In a core that does not wait, a tick whose fetch fails traps with the fault's cause and value, and the
  -- trap saves the program counter that was fetched from, for every fetch that keeps it.
  pub tick-fetch_fault :
      (h : Hart) (w : World)
      → (begin_tick h).wfi ≡ false
      → (fetch (begin_tick h) w).ret.is_success ≡ false
      → let f = fetch (begin_tick h) w in
        let t = trap f.hart f.ret.exc_code f.ret.tval false in
        (tick core h w ≡ (t, f.world))
        × (t.csrs (if delegate_to_s f.hart f.ret.exc_code false then Csrs.sepc else Csrs.mepc)
            ≡ (begin_tick h).pc)
  unfolding tick
  tick-fetch_fault h w awake bad =
      (ground arith, trap_saves_pc _ _ _ false ∙ fetch_pc (begin_tick h) w)
