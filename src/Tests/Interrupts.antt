-- ===== src/Tests/Interrupts.antt =====
-- The choice of an interrupt, and who may reach which CSR.
use rv64_vm.Prelude.{◌/◌, ◌%◌, ℕ, ◌<◌, ◌+◌, true, false, ◌≡◌, ◌≢◌, inl, inr, refl, arith, bit, u64}
use rv64_vm.Hart.Csrs
use rv64_vm.Hart.Status.{of_raw}
use rv64_vm.Hart.State.{user, supervisor, hypervisor, machine, to_number, InstructionData, next}
use rv64_vm.Hart.Trap.{trap}
use rv64_vm.Hart.Tick.{retire}
use rv64_vm.Hart.Ints.{check_ints, m_global, s_global, pending_m, highest_bit}
use rv64_vm.Hart.Ints.Choice.{
  IsSized, IsTakable, highest_bit_above, check_ints-IsTakable, check_ints_takes,
}
use rv64_vm.Mem.Exc
use rv64_vm.Isa.Zicsr.{
  csr_accessible, compatible_mode, csr_level, unimplemented, read_only, compatible_mode, csr_level,
  unimplemented, read_only, illegal, denied, csr_accessible, counter_enabled, exec_csrrw,
  exec_csrrs, exec_csrrc, exec_csrrwi, exec_csrrsi, exec_csrrci,
}
use rv64_vm.Isa.Zicsr.Access.{csr_privilege, csrrs_float_off}
use rv64_vm.Tests.Base.{core0, inst0}

core0-IsSized : IsSized core0
core0-IsSized = record { ip = omega arith; ie = omega arith; mideleg = omega arith }

-- The machine's timer interrupt and the supervisor's software interrupt are both pending.
timer-IsTakable : IsTakable core0 7
unfolding m_global
timer-IsTakable = record { pending = refl; enabled = refl; level = inl (refl, refl) }

software-IsTakable : IsTakable core0 1
unfolding s_global of_raw
software-IsTakable = record { pending = refl; enabled = refl; level = inr (refl, refl, refl) }

taken0 : (check_ints core0).1 ≡ true
taken0 = check_ints_takes core0 core0-IsSized 7 (omega arith) timer-IsTakable

check_ints-IsTakable_example :
    (c : ℕ) × IsTakable core0 c × ((check_ints core0).0 ≡ trap core0 c 0 true)
check_ints-IsTakable_example = check_ints-IsTakable core0 core0-IsSized taken0

global0 : m_global core0 ≡ true
unfolding m_global
global0 = refl

timer_pending : bit (pending_m core0) 7 ≡ 1
unfolding pending_m
timer_pending = refl

highest0 : highest_bit 64 (pending_m core0) ≡ 7
unfolding highest_bit pending_m
highest0 = refl

none_above : (k : ℕ) → 7 < k → k < 64 → bit (pending_m core0) k ≡ 0
none_above k lo hi = highest_bit_above 64 (pending_m core0) k (omega (arith, highest0)) hi

supervisor_ne : supervisor ≢ hypervisor
supervisor_ne = ground arith

machine_ne : machine ≢ hypervisor
machine_ne = ground arith

-- mstatus from supervisor mode
abbrev on_mstatus : InstructionData
on_mstatus = record inst0 { imm = Csrs.mstatus }

mstatus_below : to_number core0.mode < on_mstatus.imm / 256 % 4
mstatus_below = omega arith

csr_privilege_example :
    (exec_csrrw core0 on_mstatus ≡ (core0, illegal on_mstatus))
    × (exec_csrrs core0 on_mstatus ≡ (core0, illegal on_mstatus))
    × (exec_csrrc core0 on_mstatus ≡ (core0, illegal on_mstatus))
    × (exec_csrrwi core0 on_mstatus ≡ (core0, illegal on_mstatus))
    × (exec_csrrsi core0 on_mstatus ≡ (core0, illegal on_mstatus))
    × (exec_csrrci core0 on_mstatus ≡ (core0, illegal on_mstatus))
csr_privilege_example = csr_privilege core0 on_mstatus (inr (inl refl)) mstatus_below

-- A read of fcsr in a core whose floating point is off
abbrev on_fcsr : InstructionData
on_fcsr = record inst0 { imm = Csrs.fcsr; rs1 = 0 }

float_off : core0.status.fs ≡ 0
unfolding of_raw
float_off = refl

fcsr_allowed : denied core0 on_fcsr false ≡ false
unfolding denied of_raw counter_enabled csr_accessible compatible_mode csr_level unimplemented
    read_only
fcsr_allowed = refl

csrrs_float_off_example :
    let (h', out) = exec_csrrs core0 on_fcsr in
    (out ≡ next)
    × ((retire h' out).pc ≡ u64 ((trap core0 Exc.illegal_instruction on_fcsr.imm false).pc + 4))
csrrs_float_off_example = csrrs_float_off core0 on_fcsr float_off refl refl fcsr_allowed

-- Address 0x7b0, a register of debug mode, counts as one of user mode.
debug_open : csr_accessible 0x7b0 user true ≡ true
unfolding csr_accessible compatible_mode csr_level unimplemented read_only
debug_open = refl
