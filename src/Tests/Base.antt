-- ===== src/Tests/Base.antt =====
-- The states that the examples run on.
use rv64_vm.Prelude.{◌==◌, if◌then◌else◌, false}
use rv64_vm.Hart.Csrs
use rv64_vm.Hart.Status.{of_raw}
use rv64_vm.Hart.State.{Hart, supervisor, InstructionData}
use rv64_vm.Mem.Tlb.{Tlb}

abbrev pub empty_tlb : Tlb
empty_tlb = record {
  entries = λ _. record {
    vpage_mask_inv = 0;
    vpage_base = 0;
    generation = 0;
    host_ptr = 0;
    ppage_base = 0;
    asid = 0;
    page_bits = 12;
    perm = 0;
    global = false;
  };
  generation = 1;
  writable_size = 0;
  writable = λ _. 0;
  writable_oversized = false;
}

-- A core in supervisor mode, with the supervisor's software interrupt and the user's environment call
-- delegated and a vectored supervisor trap vector.
abbrev pub core0 : Hart
core0 = record {
  id = 0;
  gpr = λ i. if i == 0 then 0 else if i == 1 then 7 else 3;
  pc = 0x80001000;
  mode = supervisor;
  status = of_raw 0x2;
  ie = 0x0aa;
  ip = 0x082;
  stimecmp = 0;
  fcsr = 0;
  satp = 0;
  cycle = 0;
  instret = 0;
  ctime = 0;
  wfi = false;
  csrs = λ c.
      if c == Csrs.mideleg
      then 0x002
      else if c == Csrs.medeleg
      then 0x100
      else if c == Csrs.stvec
      then 0x80002001
      else 0;
  tlb = empty_tlb;
  reservation = record { paddr = 0; size = 0; valid = false };
}

-- `rd` is x1, `rs1` is x1 and `rs2` is x2: the operands are 7 and 3.
abbrev pub inst0 : InstructionData
inst0 = record { rs3 = 0; rm = 0; rs1 = 1; rs2 = 2; rd = 1; inst = 0; imm = 8; size = 4 }
