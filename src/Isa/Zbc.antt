-- ===== src/Isa/Zbc.antt =====
-- src/sets/zbc.cpp: carry-less multiplication.
use rv64_vm.Prelude.{ℕ, zero, suc, ◌+◌, ◌-◌, bit, bit_xor, ◌==◌, if◌then◌else◌, u64, ◌<<<◌, ◌>>>◌}
use rv64_vm.Hart.State.{Hart, ExecReturn, InstructionData}
use rv64_vm.Isa.Rv64i.Alu.{rs1, rs2, write_rd}

-- The three loops, from round `i` on with `left` to go: `part i` is what round `i` adds where bit `i` of
-- `y` is set.
unfoldable pub xor_parts : (ℕ → ℕ) → ℕ → ℕ → ℕ → ℕ → ℕ
xor_parts part y out i zero = out
xor_parts part y out i (suc left) =
    xor_parts part y (if bit y i == 1 then bit_xor out (part i) else out) (i + 1) left

unfoldable pub exec_clmul : Hart → InstructionData → Hart × ExecReturn
exec_clmul hart inst =
    write_rd hart inst (xor_parts (λ i. u64 (rs1 hart inst <<< i)) (rs2 hart inst) 0 0 64)

unfoldable pub exec_clmulh : Hart → InstructionData → Hart × ExecReturn
exec_clmulh hart inst =
    write_rd hart inst (xor_parts (λ i. rs1 hart inst >>> (64 - i)) (rs2 hart inst) 0 1 63)

unfoldable pub exec_clmulr : Hart → InstructionData → Hart × ExecReturn
exec_clmulr hart inst =
    write_rd hart inst (xor_parts (λ i. rs1 hart inst >>> (63 - i)) (rs2 hart inst) 0 0 64)
