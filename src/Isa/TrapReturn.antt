-- ===== src/Isa/TrapReturn.antt =====
-- A trap handler that returns at once: `trap` followed by MRET or SRET.
use rv64_vm.Prelude.{ℕ, ◌<◌, Bool, true, false, ◌≡◌, ◌≢◌, arith}
use rv64_vm.Hart.Csr.{csr_read, csr_value}
use rv64_vm.Hart.State.{Hart, PrivilegeMode, hypervisor, InstructionData, jumped}
use rv64_vm.Hart.Trap.{trap, delegate_to_s}
use rv64_vm.Isa.Priv.{exec_mret, exec_sret}

-- MRET undoes a trap that was not delegated, taken outside the hypervisor mode: it jumps to the
-- interrupted program counter, in the interrupted mode and with the old MIE; every general register is
-- as before the trap, MPIE is 1 and MPP is user mode.
pub mret-trap :
    (h : Hart) (inst : InstructionData) (cause tval : ℕ) (interrupt : Bool)
    → h.mode ≢ hypervisor
    → delegate_to_s h cause interrupt ≡ false
    → let (h', r) = exec_mret (trap h cause tval interrupt) inst in
      (h'.pc ≡ h.pc)
      × (h'.mode ≡ h.mode)
      × (h'.status.mie ≡ h.status.mie)
      × (h'.status.mpie ≡ 1)
      × (h'.status.mpp ≡ 0)
      × (h'.gpr ≡ h.gpr)
      × (r ≡ jumped)
unfolding exec_mret trap csr_read csr_value
mret-trap h inst cause tval interrupt hyp deleg = ground arith

-- SRET undoes a trap that was delegated, taken outside the hypervisor mode with TSR off: it jumps to
-- the interrupted program counter, in the interrupted mode and with the old SIE; every general register
-- is as before the trap, SPIE is 1 and SPP is user mode.
pub sret-trap :
    (h : Hart) (inst : InstructionData) (cause tval : ℕ) (interrupt : Bool)
    → h.mode ≢ hypervisor
    → h.status.tsr ≡ 0
    → delegate_to_s h cause interrupt ≡ true
    → let (h', r) = exec_sret (trap h cause tval interrupt) inst in
      (h'.pc ≡ h.pc)
      × (h'.mode ≡ h.mode)
      × (h'.status.sie ≡ h.status.sie)
      × (h'.status.spie ≡ 1)
      × (h'.status.spp ≡ 0)
      × (h'.gpr ≡ h.gpr)
      × (r ≡ jumped)
unfolding exec_sret trap csr_read csr_value delegate_to_s
sret-trap h inst cause tval interrupt hyp tsr deleg = ground arith

-- MRET does not look at the mode that it runs in: where MPP names a mode, what it does in a core is
-- what it does in that core put into any other mode, user mode among them.
pub mret_unchecked :
    (h : Hart) (inst : InstructionData) (m : PrivilegeMode)
    → h.status.mpp < 4
    → h.status.mpp ≢ 2
    → exec_mret (record h { mode = m }) inst ≡ exec_mret h inst
unfolding exec_mret csr_read csr_value
mret_unchecked h inst m bound known = ground arith
