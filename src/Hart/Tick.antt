-- ===== src/Hart/Tick.antt =====
-- `Hart::tick` of src/hart.cpp, over an interface for the two calls that leave the core: fetching an
-- instruction (translation, memory, decode cache) and executing what was decoded.
pub mod Step
use rv64_vm.Prelude.{
  ℕ, ◌+◌, ◌%◌, ◌^◌, bit_and, Bool, true, false, not, ◌&&◌, ◌≡◌, ◌==◌, if◌then◌else◌, u64, nonzero,
  refl, arith, ◌∙◌,
}
use rv64_vm.Mem.Access.{MemoryReturn}
use rv64_vm.Hart.State.{Hart, ExecReturn, set_gpr}
use rv64_vm.Hart.Ints.{check_ints, int_local_pending}
use rv64_vm.Hart.Trap.{trap}

-- `World` is all that is shared outside the core, `Code` a decoded instruction. A fetch leaves the
-- general registers and the program counter alone.
pub record Core : Type 1 where
  pub World : Type 0
  pub Code : Type 0
  pub fetch : Hart → World → record { hart : Hart; world : World; ret : MemoryReturn; code : Code }
  pub exec : Code → Hart → World → record { hart : Hart; world : World; out : ExecReturn }
  pub fetch_gpr : (h : Hart) (w : World) → (fetch h w).hart.gpr ≡ h.gpr
  pub fetch_pc : (h : Hart) (w : World) → (fetch h w).hart.pc ≡ h.pc

-- The start of a tick: x0 reads 0 again, the cycle is counted, and now and then the interrupts are
-- looked at.
unfoldable pub begin_tick : Hart → Hart
begin_tick h =
    let h' = record h { gpr = (set_gpr h 0 0).gpr; cycle = u64 (h.cycle + 1) } in
    if bit_and h.instret 0x2fff == 0 && nonzero (bit_and h.ip h.ie) then (check_ints h').0 else h'

-- The end of a tick, after the instruction: a failure traps, a success counts and moves on.
unfoldable pub retire : Hart → ExecReturn → Hart
retire h out =
    if not out.is_success
    then trap h out.cause out.tval false
    else record h { instret = u64 (h.instret + 1); pc = u64 (h.pc + out.increase_pc) }

module _ (core : Core) where
  open core use {World, Code, fetch, exec, fetch_gpr, fetch_pc}

  pub run_inst : Hart → World → Hart × World
  run_inst h w =
      let f = fetch h w in
      if not f.ret.is_success
      then (trap f.hart f.ret.exc_code f.ret.tval false, f.world)
      else let e = exec f.code f.hart f.world in (retire e.hart e.out, e.world)

  pub tick : Hart → World → Hart × World
  unfolding run_inst
  tick h w =
      let h1 = begin_tick h in
      if h1.wfi
      then (if int_local_pending h1 then record h1 { wfi = false } else h1, w)
      else run_inst h1 w
