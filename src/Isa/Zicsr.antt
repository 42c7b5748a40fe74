-- ===== src/Isa/Zicsr.antt =====
-- src/sets/zicsr.cpp: the access rules of the CSRs and the six CSR instructions.
pub mod Access
use rv64_vm.Prelude.{
  ℕ, ◌-◌, ◌^◌, bit_and, bit_or, Bool, true, false, not, ◌&&◌, ◌||◌, ◌==◌, leb, if◌then◌else◌, not64,
  nonzero, ltb,
}
use rv64_vm.Hart.Csrs
use rv64_vm.Hart.Csr.{csr_read, csr_write}
use rv64_vm.Hart.State.{
  Hart, PrivilegeMode, user, supervisor, hypervisor, machine, is_mode, ExecReturn, InstructionData,
  next, fail, set_gpr,
}
use rv64_vm.Mem.Exc

unfoldable pub compatible_mode : PrivilegeMode → PrivilegeMode → Bool
compatible_mode csr_level cur_mode =
    if is_mode csr_level machine
    then is_mode cur_mode machine
    else if is_mode csr_level supervisor
    then is_mode cur_mode machine || is_mode cur_mode supervisor
    else if is_mode csr_level user
    then is_mode cur_mode machine || is_mode cur_mode supervisor || is_mode cur_mode user
    else true

abbrev within : ℕ → ℕ → ℕ → Bool
within lo hi a = leb lo a && leb a hi

-- The level that an address belongs to.
unfoldable pub csr_level : ℕ → PrivilegeMode
csr_level a =
    if within 0x000 0x0ff a
    then user
    else if within 0x100 0x1ff a
    then supervisor
    else if within 0x200 0x2ff a
    then hypervisor
    else if within 0x300 0x3ff a
    then machine
    else if within 0xb00 0xbff a
    then machine
    else if within 0xc00 0xcff a
    then user
    else if within 0xf00 0xfff a
    then machine
    else user

unfoldable pub unimplemented : ℕ → Bool
unimplemented a =
    a == Csrs.scountovf
    || within Csrs.sstateen0 Csrs.sstateen3 a
    || within Csrs.mstateen0 Csrs.mstateen3 a
    || a == Csrs.mtopi
    || a == Csrs.tselect
    || within Csrs.tdata1 Csrs.tdata3 a
    || a == Csrs.mcyclecfg
    || a == Csrs.minstret

unfoldable pub read_only : ℕ → Bool
read_only a =
    a == 0xf11 || a == 0xf12 || a == 0xf13 || a == 0xf14 || a == 0xf15f || within 0xc00 0xc1f a

unfoldable pub csr_accessible : ℕ → PrivilegeMode → Bool → Bool
csr_accessible a current_priv write =
    if not (compatible_mode (csr_level a) current_priv)
    then false
    else if unimplemented a
    then false
    else if read_only a
    then not write
    else true

-- The two counter-enable registers are stored as such: reading them has no effect.
unfoldable pub counter_enabled : ℕ → Hart → Bool
counter_enabled a hart =
    if ltb a 0xc00 || ltb 0xc1f a
    then true
    else let m = (csr_read hart Csrs.mcounteren).1 in
      let s = (csr_read hart Csrs.scounteren).1 in
      let offset = 2 ^ (a - 0xc00) in
      elim (hart.mode) [
        | machine ↦ true
        | supervisor ↦ bit_and m offset == offset
        | user ↦ bit_and m offset == offset && bit_and s offset == offset
        | hypervisor ↦ true
      ]

-- The three tests that each of the six instructions makes first.
unfoldable pub denied : Hart → InstructionData → Bool → Bool
denied hart inst write =
    (is_mode hart.mode supervisor && nonzero hart.status.tvm && inst.imm == Csrs.satp)
    || not (counter_enabled inst.imm hart)
    || not (csr_accessible inst.imm hart.mode write)

abbrev pub illegal : InstructionData → ExecReturn
illegal inst = fail false Exc.illegal_instruction inst.inst

unfoldable pub exec_csrrw : Hart → InstructionData → Hart × ExecReturn
exec_csrrw hart inst =
    if denied hart inst true
    then (hart, illegal inst)
    else let (h1, init_val) = csr_read hart inst.imm in
      let h2 = csr_write h1 inst.imm (h1.gpr inst.rs1) in
      (if nonzero inst.rd then set_gpr h2 inst.rd init_val else h2, next)

-- The common shape of the four that change bits under a mask; `rs1` is 0 for none.
abbrev read_modify : (ℕ → ℕ → ℕ) → (Hart → ℕ) → Hart → InstructionData → Hart × ExecReturn
read_modify combine mask hart inst =
    if denied hart inst (nonzero inst.rs1)
    then (hart, illegal inst)
    else let (h1, init_val) = csr_read hart inst.imm in
      let h2 =
        if nonzero inst.rs1 then csr_write h1 inst.imm (combine init_val (mask h1)) else h1 in
      (set_gpr h2 inst.rd init_val, next)

unfoldable pub exec_csrrs : Hart → InstructionData → Hart × ExecReturn
exec_csrrs hart inst = read_modify bit_or (λ h. h.gpr inst.rs1) hart inst

unfoldable pub exec_csrrc : Hart → InstructionData → Hart × ExecReturn
exec_csrrc hart inst = read_modify (λ v m. bit_and v (not64 m)) (λ h. h.gpr inst.rs1) hart inst

unfoldable pub exec_csrrwi : Hart → InstructionData → Hart × ExecReturn
exec_csrrwi hart inst =
    if denied hart inst (nonzero inst.rs1)
    then (hart, illegal inst)
    else let h1 =
        if nonzero inst.rd
        then (let (h, v) = csr_read hart inst.imm in set_gpr h inst.rd v)
        else hart in
      (csr_write h1 inst.imm inst.rs1, next)

unfoldable pub exec_csrrsi : Hart → InstructionData → Hart × ExecReturn
exec_csrrsi hart inst = read_modify bit_or (λ _. inst.rs1) hart inst

unfoldable pub exec_csrrci : Hart → InstructionData → Hart × ExecReturn
exec_csrrci hart inst = read_modify (λ v m. bit_and v (not64 m)) (λ _. inst.rs1) hart inst
