-- ===== src/Isa/Zicsr/Access.antt =====
-- Who may reach which CSR.
use rv64_vm.Prelude.{
  ℕ, ◌+◌, ◌/◌, ◌%◌, ◌<◌, ◌⊎◌, inl, inr, Bool, true, false, ◌≡◌, ◌≢◌, arith, leb, nonzero, u64,
}
use rv64_vm.Hart.Csr.{csr_read, read_float, is_float}
use rv64_vm.Hart.State.{Hart, hypervisor, to_number, PrivilegeMode, InstructionData, next}
use rv64_vm.Hart.Trap.{trap}
use rv64_vm.Hart.Tick.{retire}
use rv64_vm.Mem.Exc
use rv64_vm.Isa.Zicsr.{
  compatible_mode, csr_level, csr_accessible, denied, illegal, exec_csrrw, exec_csrrs, exec_csrrc,
  exec_csrrwi, exec_csrrsi, exec_csrrci,
}

-- The hypervisor aside, a level is open to a mode exactly when the mode's number is at least the level's.
pub compatible_mode_lem :
    (l m : PrivilegeMode)
    → l ≢ hypervisor
    → m ≢ hypervisor
    → compatible_mode l m ≡ leb (to_number l) (to_number m)
unfolding compatible_mode
compatible_mode_lem l m hl hm = ground arith

-- The ranges of addresses kept for supervisor mode, 0x100, and for machine mode, 0x300, 0xb00 and 0xf00.
abbrev pub IsKept : ℕ → Type 0
IsKept a = (a / 256 ≡ 0x1) ⊎ (a / 256 ≡ 0x3) ⊎ (a / 256 ≡ 0xb) ⊎ (a / 256 ≡ 0xf)

csr_level_kept :
    (a : ℕ) → IsKept a → (csr_level a ≢ hypervisor) × (to_number (csr_level a) ≡ a / 256 % 4)
unfolding csr_level
csr_level_kept a (inl one) = ground arith
csr_level_kept a (inr (inl three)) = ground arith
csr_level_kept a (inr (inr (inl eleven))) = ground arith
csr_level_kept a (inr (inr (inr fifteen))) = ground arith

denied_below :
    (h : Hart) (inst : InstructionData) (write : Bool)
    → IsKept inst.imm
    → to_number h.mode < inst.imm / 256 % 4
    → denied h inst write ≡ true
unfolding denied csr_accessible compatible_mode
denied_below h inst write kept below =
    let (nh, level) = csr_level_kept inst.imm kept in
    let lower : to_number h.mode < to_number (csr_level inst.imm) = omega arith in ground arith

-- In the ranges 0x100, 0x300, 0xb00 and 0xf00 of CSR addresses, none of the six CSR instructions
-- reaches a CSR from a mode whose number is below that in bits 9 and 8 of its address: each is illegal
-- and changes nothing.
pub csr_privilege :
    (h : Hart) (inst : InstructionData)
    → IsKept inst.imm
    → to_number h.mode < inst.imm / 256 % 4
    → (exec_csrrw h inst ≡ (h, illegal inst))
      × (exec_csrrs h inst ≡ (h, illegal inst))
      × (exec_csrrc h inst ≡ (h, illegal inst))
      × (exec_csrrwi h inst ≡ (h, illegal inst))
      × (exec_csrrsi h inst ≡ (h, illegal inst))
      × (exec_csrrci h inst ≡ (h, illegal inst))
unfolding exec_csrrw exec_csrrs exec_csrrc exec_csrrwi exec_csrrsi exec_csrrci
csr_privilege h inst kept below = (
  rw (denied_below h inst true kept below),
  rw (denied_below h inst (nonzero inst.rs1) kept below),
  rw (denied_below h inst (nonzero inst.rs1) kept below),
  rw (denied_below h inst (nonzero inst.rs1) kept below),
  rw (denied_below h inst (nonzero inst.rs1) kept below),
  rw (denied_below h inst (nonzero inst.rs1) kept below),
)

-- With `FS` off, a CSRRS by x0 of a floating-point CSR that passes the access tests traps from inside
-- `csr_read` and then reports success: the core goes on 4 bytes past the handler's entry.
pub csrrs_float_off :
    (h : Hart) (inst : InstructionData)
    → h.status.fs ≡ 0
    → is_float inst.imm ≡ true
    → inst.rs1 ≡ 0
    → denied h inst false ≡ false
    → let (h', out) = exec_csrrs h inst in
      (out ≡ next)
      × ((retire h' out).pc ≡ u64 ((trap h Exc.illegal_instruction inst.imm false).pc + 4))
unfolding exec_csrrs csr_read read_float retire
csrrs_float_off h inst off float rs1 ok = ground arith
