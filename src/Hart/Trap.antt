-- ===== src/Hart/Trap.antt =====
-- `Hart::trap` of src/hart.cpp.
pub mod Entry
use rv64_vm.Prelude.{
  ℕ, ◌+◌, ◌-◌, ◌*◌, ◌^◌, bit_or, bit_and, bit, Bool, true, false, ◌&&◌, not, ◌==◌, if◌then◌else◌,
  u64, ◌%◌, ◌/◌,
}
use rv64_vm.Hart.Csrs
use rv64_vm.Hart.State.{Hart, set_csr, PrivilegeMode, user, supervisor, machine, to_number, is_mode}

-- `(interrupt ? 1ULL << 63 : 0) | cause`
unfoldable pub cause_word : Bool → ℕ → ℕ
cause_word interrupt cause = bit_or (if interrupt then 2 ^ 63 else 0) cause

-- The entry point that a trap vector register gives.
unfoldable pub vector_pc : ℕ → Bool → ℕ → ℕ
vector_pc tvec interrupt cause =
    u64 (tvec - tvec % 4 + (if tvec % 4 == 1 && interrupt then u64 (4 * cause) else 0))

-- Does the trap go to supervisor mode?
unfoldable pub delegate_to_s : Hart → ℕ → Bool → Bool
delegate_to_s h cause interrupt =
    if is_mode h.mode machine
    then false
    else if interrupt
    then bit (h.csrs Csrs.mideleg) cause == 1
    else bit (h.csrs Csrs.medeleg) cause == 1

-- `csrs[epc] = trap_pc; csrs[cause] = …; csrs[tval] = tval;`
abbrev pub record_trap : Hart → ℕ → ℕ → ℕ → ℕ → ℕ → Hart
record_trap h epc_csr cause_csr tval_csr cause tval =
    set_csr (set_csr (set_csr h epc_csr h.pc) cause_csr cause) tval_csr tval

trap_to_s : Hart → ℕ → ℕ → Bool → Hart
trap_to_s h cause tval interrupt =
    let h' = record_trap h Csrs.sepc Csrs.scause Csrs.stval (cause_word interrupt cause) tval in
    record h' {
      mode = supervisor;
      pc = vector_pc (h.csrs Csrs.stvec) interrupt cause;
      status = record (h.status) {
        mprv = 0;
        spie = h.status.sie;
        sie = 0;
        spp = if is_mode h.mode user then 0 else 1;
      };
    }

trap_to_m : Hart → ℕ → ℕ → Bool → Hart
trap_to_m h cause tval interrupt =
    let h' = record_trap h Csrs.mepc Csrs.mcause Csrs.mtval (cause_word interrupt cause) tval in
    record h' {
      mode = machine;
      pc = vector_pc (h.csrs Csrs.mtvec) interrupt cause;
      status = record (h.status) { mprv = 0; mpie = h.status.mie; mie = 0; mpp = to_number h.mode };
    }

unfoldable pub trap : Hart → ℕ → ℕ → Bool → Hart
unfolding trap_to_s trap_to_m
trap h cause tval interrupt =
    let h' = record h { wfi = false; reservation = record (h.reservation) { valid = false } } in
    if delegate_to_s h cause interrupt
    then trap_to_s h' cause tval interrupt
    else trap_to_m h' cause tval interrupt
