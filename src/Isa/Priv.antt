-- ===== src/Isa/Priv.antt =====
-- src/sets/priv.cpp: return from a trap, address-translation fences and waiting for an interrupt.
use rv64_vm.Prelude.{ℕ, bit_and, true, false, ◌&&◌, ◌||◌, ◌==◌, if◌then◌else◌, u16, nonzero}
use rv64_vm.Hart.Csrs
use rv64_vm.Hart.Csr.{csr_read}
use rv64_vm.Hart.State.{
  Hart, PrivilegeMode, user, supervisor, machine, is_mode, ExecReturn, InstructionData, next,
  jumped, fail,
}
use rv64_vm.Mem.Exc
use rv64_vm.Mem.Tlb.{Tlb, flush_all, flush_asid, flush_addr, flush_addr_asid}

-- The `switch` on MPP: no case for 2, which leaves the mode as it is.
abbrev mret_mode : PrivilegeMode → ℕ → PrivilegeMode
mret_mode m mpp =
    if mpp == 0 then user else if mpp == 1 then supervisor else if mpp == 3 then machine else m

unfoldable pub exec_mret : Hart → InstructionData → Hart × ExecReturn
exec_mret hart inst =
    let (h, epc) = csr_read hart Csrs.mepc in
    (
      record h {
        pc = epc;
        mode = mret_mode h.mode h.status.mpp;
        status = record (h.status) {
          mprv = if h.status.mpp == 0 || h.status.mpp == 1 then 0 else h.status.mprv;
          mie = h.status.mpie;
          mpie = 1;
          mpp = 0;
        };
      },
      jumped,
    )

unfoldable pub exec_sret : Hart → InstructionData → Hart × ExecReturn
exec_sret hart inst =
    if is_mode hart.mode user || (is_mode hart.mode supervisor && nonzero hart.status.tsr)
    then (hart, fail false Exc.illegal_instruction inst.inst)
    else let (h, epc) = csr_read hart Csrs.sepc in
      (
        record h {
          pc = epc;
          mode = if h.status.spp == 0 then user else supervisor;
          status = record (h.status) { mprv = 0; sie = h.status.spie; spie = 1; spp = 0 };
        },
        jumped,
      )

-- The choice of the flush by which register operands are x0.
pub fence_flush : Hart → InstructionData → Tlb
fence_flush hart inst =
    if inst.rs1 == 0 && inst.rs2 == 0
    then flush_all hart.tlb
    else if inst.rs1 == 0
    then flush_asid hart.tlb (u16 (hart.gpr inst.rs2))
    else if inst.rs2 == 0
    then flush_addr hart.tlb (hart.gpr inst.rs1)
    else flush_addr_asid hart.tlb (hart.gpr inst.rs1) (u16 (hart.gpr inst.rs2))

unfoldable pub exec_sfence_vma : Hart → InstructionData → Hart × ExecReturn
exec_sfence_vma hart inst =
    if is_mode hart.mode user
    then (hart, fail false Exc.illegal_instruction inst.inst)
    else if is_mode hart.mode supervisor && nonzero hart.status.tvm
    then (hart, fail false Exc.illegal_instruction inst.inst)
    else (record hart { tlb = fence_flush hart inst }, next)

unfoldable pub exec_wfi : Hart → InstructionData → Hart × ExecReturn
exec_wfi hart inst =
    if nonzero hart.status.tw
    then (hart, fail false Exc.illegal_instruction inst.inst)
    else if bit_and hart.ip hart.ie == 0
    then (record hart { wfi = true }, next)
    else (hart, next)
