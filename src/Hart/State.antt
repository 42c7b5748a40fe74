-- ===== src/Hart/State.antt =====
-- `class Hart` of include/hart.hpp: the architectural state of one core, its translation cache and
-- its reservation. The floating-point registers stand beside it, in Isa/Float; the JIT's own
-- state is not here.
use rv64_vm.Prelude.{
  ℕ, ◌%◌, ◌^◌, ◌+◌, Bool, true, false, ◌&&◌, leb, ◌==◌, if◌then◌else◌, update, field, nonzero,
}
use rv64_vm.Hart.Status.{Status}
use rv64_vm.Mem.Access.{AccessType, load, store, exec}
use rv64_vm.Mem.Tlb.{Tlb}

-- `Hart::PrivilegeMode`
pub data PrivilegeMode : Type 0 where
  user supervisor hypervisor machine : PrivilegeMode

-- The number of a mode, and `static_cast` back from the two bits of MPP.
abbrev pub to_number : PrivilegeMode → ℕ
to_number user = 0
to_number supervisor = 1
to_number hypervisor = 2
to_number machine = 3

abbrev pub of_number : ℕ → PrivilegeMode
of_number n =
    if n == 0 then user else if n == 1 then supervisor else if n == 2 then hypervisor else machine

abbrev pub is_mode : PrivilegeMode → PrivilegeMode → Bool
is_mode a b = to_number a == to_number b

-- `Hart::Reservation`; the size is in bytes.
pub record Reservation : Type 0 where
  pub paddr : ℕ
  pub size : ℕ
  pub valid : Bool

pub record Hart : Type 0 where
  pub id : ℕ
  pub gpr : ℕ → ℕ
  pub pc : ℕ
  pub mode : PrivilegeMode
  pub status : Status
  pub ie : ℕ
  pub ip : ℕ
  pub stimecmp : ℕ
  pub fcsr : ℕ
  pub satp : ℕ
  pub cycle : ℕ
  pub instret : ℕ
  pub ctime : ℕ
  pub wfi : Bool
  pub csrs : ℕ → ℕ
  pub tlb : Tlb
  pub reservation : Reservation

-- `hart.GPR[i] = v`
abbrev pub set_gpr : Hart → ℕ → ℕ → Hart
set_gpr h i v = record h { gpr = update h.gpr i v }

-- `csrs[i] = v`
abbrev pub set_csr : Hart → ℕ → ℕ → Hart
set_csr h i v = record h { csrs = update h.csrs i v }

-- The fields of `satp_t`.
abbrev pub satp_ppn : ℕ → ℕ
satp_ppn x = field x 0 44

abbrev pub satp_asid : ℕ → ℕ
satp_asid x = field x 44 16

abbrev pub satp_mode : ℕ → ℕ
satp_mode x = field x 60 4

-- `access_type == LOAD || access_type == STORE`
abbrev pub is_data : AccessType → Bool
is_data exec = false
is_data load = true
is_data store = true

-- `Hart::get_effective_mode`: MPRV applies MPP to loads and stores of machine mode.
unfoldable pub get_effective_mode : Hart → AccessType → PrivilegeMode
get_effective_mode h type =
    if is_mode h.mode machine && nonzero h.status.mprv && is_data type
    then of_number h.status.mpp
    else h.mode

-- `Hart::amo_check_reservation`
unfoldable pub amo_check_reservation : Hart → ℕ → Hart
amo_check_reservation h pa =
    let r = h.reservation in
    if r.valid && leb pa r.paddr && leb pa ((r.paddr + r.size) % 2 ^ 64)
    then record h { reservation = record r { valid = false } }
    else h

-- `ExecReturn` of include/defines/traps.hpp.
pub record ExecReturn : Type 0 where
  pub is_success : Bool
  pub can_change_pc : Bool
  pub increase_pc : ℕ
  pub cause : ℕ
  pub tval : ℕ

-- `{ true, false, 4, 0, 0 }`
abbrev pub next : ExecReturn
next = record { is_success = true; can_change_pc = false; increase_pc = 4; cause = 0; tval = 0 }

-- `{ true, true, 0, 0, 0 }`
abbrev pub jumped : ExecReturn
jumped = record { is_success = true; can_change_pc = true; increase_pc = 0; cause = 0; tval = 0 }

-- `{ false, change, 0, cause, tval }`
abbrev pub fail : Bool → ℕ → ℕ → ExecReturn
fail change cause tval = record {
  is_success = false;
  can_change_pc = change;
  increase_pc = 0;
  cause = cause;
  tval = tval;
}

-- `InstructionData` of include/decode.hpp.
pub record InstructionData : Type 0 where
  pub rs3 : ℕ
  pub rm : ℕ
  pub rs1 : ℕ
  pub rs2 : ℕ
  pub rd : ℕ
  pub inst : ℕ
  pub imm : ℕ
  pub size : ℕ
