-- ===== src/Tests/Registers.antt =====
-- The serial port, the core-local interruptor of a machine with one core, and bit manipulation.
use rv64_vm.Prelude.{ℕ, ◌-◌, ◌^◌, ◌<◌, some, ◌≡◌, refl, arith, ◌==◌, if◌then◌else◌}
use rv64_vm.Hart.State.{InstructionData}
use rv64_vm.Dev.Uart.{Uart, init}
use rv64_vm.Dev.Uart
use rv64_vm.Dev.Uart.Consistent.{
  IsConsistent, Reachable, start, writing, receiving, reading, Reachable-IsConsistent,
}
use rv64_vm.Dev.Clint.{
  Timer, Clint, Written, update_hart, update_from, update_mip, write, write_mtimer,
}
use rv64_vm.Dev.Clint.Driven.{IsDriven, register_write-IsDriven}
use rv64_vm.Isa.Rv64c.Expand.{AluExpands, alu-AluExpands}
use rv64_vm.Tests.Base.{core0, inst0}

-- A clock that stands still.
abbrev stopped : Timer
stopped = record { State = ℕ; get = λ t. t; set = λ t v. v }

abbrev clint0 : Clint stopped
clint0 = record { count = 1; msip = λ _. 0; mtimecmp = λ _. 2 ^ 64 - 1; mtime = 100 }

-- The comparator of core 0 is set to a time that has passed.
abbrev clint1 : Clint stopped
clint1 = record clint0 { mtimecmp = λ i. if 0 == i then 90 else 2 ^ 64 - 1 }

abbrev written : Written stopped
written = record {
  clint = clint1;
  harts = λ i. if 0 == i then update_hart stopped clint1 100 core0 else core0;
}

written_eq : write stopped clint0 (λ _. core0) 0x4000 90 ≡ some written
unfolding write write_mtimer update_mip update_from
written_eq = refl

register_write-IsDriven_example : IsDriven stopped written.clint (written.harts 0)
register_write-IsDriven_example =
    register_write-IsDriven stopped clint0 (λ _. core0) 0x4000 90 written (omega arith) written_eq 0
      (omega arith)

-- 7 rotated by 3 into x3, and back.
abbrev rol0 : InstructionData
rol0 = record inst0 { rd = 3 }

abbrev ror0 : InstructionData
ror0 = record inst0 { rs1 = 3; rd = 4 }

small : (k : ℕ) → core0.gpr k < 2 ^ 64
small k = ground arith

alu-AluExpands_example : AluExpands core0 inst0
alu-AluExpands_example = alu-AluExpands core0 inst0 small

-- The guest enables both interrupts, the host sends a byte, and the guest reads it.
abbrev port : Uart
port = (Uart.read (Uart.receive_byte (Uart.write init 1 3) 0x41) 0).uart

port-Reachable : Reachable port
port-Reachable =
    reading (Uart.receive_byte (Uart.write init 1 3) 0x41) 0
      (receiving (Uart.write init 1 3) 0x41 (writing init 1 3 start))

Reachable-IsConsistent_example : IsConsistent port
Reachable-IsConsistent_example = Reachable-IsConsistent port port-Reachable
