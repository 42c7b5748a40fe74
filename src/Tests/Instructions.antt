-- ===== src/Tests/Instructions.antt =====
-- Instructions on small and on extreme operands.
use rv64_vm.Prelude.{◌+◌, ◌*◌, ◌-◌, ◌^◌, ◌≡◌, arith, u64, ◌==◌, if◌then◌else◌}
use rv64_vm.Hart.State.{Hart, InstructionData}
use rv64_vm.Isa.Rv64i.Alu.{rs1, rs2}
use rv64_vm.Isa.Rv64i.Results.{result}
use rv64_vm.Isa.Rv64m.{exec_div, exec_rem}
use rv64_vm.Isa.Rv64m.Division.{div-rem}
use rv64_vm.Tests.Base.{core0, inst0}

-- The least negative operand divided by -1: `rs1` is x3 and `rs2` is x4.
abbrev extreme : Hart
extreme = record core0 { gpr = λ i. if i == 3 then 2 ^ 63 else if i == 4 then 2 ^ 64 - 1 else 0 }

abbrev on_extreme : InstructionData
on_extreme = record inst0 { rs1 = 3; rs2 = 4; rd = 5 }

div-rem_example :
    u64 (
      result exec_div extreme on_extreme * rs2 extreme on_extreme
      + result exec_rem extreme on_extreme)
    ≡ rs1 extreme on_extreme
div-rem_example = div-rem extreme on_extreme (omega arith) (omega arith) (omega arith)

-- A dividend whose word is negative while the register is not, by x0
abbrev on_word : Hart
on_word = record core0 { gpr = λ i. if i == 1 then 2 ^ 31 else 0 }
