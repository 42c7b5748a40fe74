-- ===== src/Tests/Traps.antt =====
-- Traps, trap returns and ticks.
use rv64_vm.Prelude.{ℕ, ◌+◌, ◌^◌, true, false, ◌≡◌, ◌≢◌, refl, arith}
use rv64_vm.Hart.Csrs
use rv64_vm.Hart.Status.{of_raw, IsValid, of_raw-IsValid}
use rv64_vm.Hart.State.{Hart, user, supervisor, hypervisor, machine, jumped, next}
use rv64_vm.Hart.Trap.{trap, delegate_to_s, vector_pc}
use rv64_vm.Hart.Trap.Entry.{trap_entry}
use rv64_vm.Hart.Tick.{Core, begin_tick}
use rv64_vm.Isa.Priv.{exec_mret}
use rv64_vm.Isa.TrapReturn.{mret-trap, mret_unchecked}
use rv64_vm.Mem.Exc
use rv64_vm.Mem.Access.{fault}
use rv64_vm.Tests.Base.{core0, inst0}

not_hypervisor : core0.mode ≢ hypervisor
not_hypervisor = ground arith

-- A load fault is not delegated, an environment call of the user is.
load_fault_to_m : delegate_to_s core0 5 false ≡ false
unfolding delegate_to_s
load_fault_to_m = refl

user_call_to_s : delegate_to_s core0 8 false ≡ true
unfolding delegate_to_s
user_call_to_s = refl

mret-trap_example :
    let (h', r) = exec_mret (trap core0 5 0x1234 false) inst0 in
    (h'.pc ≡ core0.pc)
    × (h'.mode ≡ core0.mode)
    × (h'.status.mie ≡ core0.status.mie)
    × (h'.status.mpie ≡ 1)
    × (h'.status.mpp ≡ 0)
    × (h'.gpr ≡ core0.gpr)
    × (r ≡ jumped)
mret-trap_example = mret-trap core0 inst0 5 0x1234 false not_hypervisor load_fault_to_m

tsr_off : core0.status.tsr ≡ 0
unfolding of_raw
tsr_off = refl

-- A user's MRET after a trap of machine mode from itself
abbrev user_core : Hart
user_core = record core0 { mode = user; status = of_raw 0x1800 }

mpp_machine : user_core.status.mpp ≡ 3
unfolding of_raw
mpp_machine = refl

mpp_known : user_core.status.mpp ≢ 2
mpp_known = omega (arith, mpp_machine)

mret_unchecked_example :
    exec_mret (record user_core { mode = machine }) inst0 ≡ exec_mret user_core inst0
mret_unchecked_example =
    mret_unchecked user_core inst0 machine (omega (arith, mpp_machine)) mpp_known

-- A delegated interrupt, under a vectored handler.
abbrev int0 : Hart
int0 = trap core0 1 0 true

trap_entry_example :
    (int0.mode ≡ supervisor)
    × (int0.csrs Csrs.sepc ≡ core0.pc)
    × (int0.csrs Csrs.scause ≡ 2 ^ 63 + 1)
    × (int0.csrs Csrs.stval ≡ 0)
    × (int0.status.sie ≡ 0)
    × (int0.status.spie ≡ core0.status.sie)
    × (int0.status.spp ≡ 1)
    × (int0.status.mprv ≡ 0)
    × (int0.wfi ≡ false)
    × (int0.reservation.valid ≡ false)
    × (int0.pc ≡ 0x80002004)
trap_entry_example =
    trap_entry core0 1 0 true (omega arith) (omega arith) (omega arith) not_hypervisor

-- The vectored entry of that interrupt: the base and four bytes for each cause number.
vectored : (trap core0 1 0 true).pc ≡ 0x80002004
unfolding trap delegate_to_s vector_pc
vectored = refl

core0-IsValid : IsValid core0.status
core0-IsValid = of_raw-IsValid 2

-- A core with nothing behind it: each fetch is an instruction page fault at the program counter.
abbrev unmapped : Core
unmapped = record {
  World = ℕ;
  Code = ℕ;
  fetch = λ h w. record { hart = h; world = w + 1; ret = fault Exc.inst_page_fault h.pc; code = 0 };
  exec = λ c h w. record { hart = h; world = w; out = next };
  fetch_gpr = λ h w. refl;
  fetch_pc = λ h w. refl;
}

abbrev quiet : Hart
quiet = record core0 { instret = 1 }

quiet_awake : (begin_tick quiet).wfi ≡ false
unfolding begin_tick
quiet_awake = refl
