-- ===== src/Isa/Zbb.antt =====
-- src/sets/zbb.cpp: bit manipulation. `over x` is what the host program gives for a 64-bit shift of `x`
-- by 64 places, which the language leaves undefined.
pub mod Rotate
pub mod Count
use rv64_vm.Prelude.{
  ℕ, zero, suc, ◌+◌, ◌-◌, ◌*◌, ◌/◌, ◌%◌, ◌^◌, bit_and, bit_or, bit_xor, bit, max, min, ltb, ◌==◌,
  if◌then◌else◌, u8, u32, u64, not64, ◌<<<◌, ◌>>>◌,
}
use rv64_vm.Hart.State.{Hart, ExecReturn, InstructionData}
use rv64_vm.Isa.Arith.{lt_signed, sext8, sext16, sext32}
use rv64_vm.Isa.Rv64i.Alu.{rs1, rs2, write_rd}

unfoldable pub exec_andn : Hart → InstructionData → Hart × ExecReturn
exec_andn hart inst = write_rd hart inst (bit_and (rs1 hart inst) (not64 (rs2 hart inst)))

unfoldable pub exec_orn : Hart → InstructionData → Hart × ExecReturn
exec_orn hart inst = write_rd hart inst (bit_or (rs1 hart inst) (not64 (rs2 hart inst)))

unfoldable pub exec_xnor : Hart → InstructionData → Hart × ExecReturn
exec_xnor hart inst = write_rd hart inst (not64 (bit_xor (rs1 hart inst) (rs2 hart inst)))

-- The loop of CLZ from bit `i - 1` down: the first bit that is set, or -1.
unfoldable pub highest : ℕ → ℕ → ℕ
highest x zero = 2 ^ 64 - 1
highest x (suc i) = let rest = highest x i in if bit x i == 1 then i else rest

unfoldable pub exec_clz : Hart → InstructionData → Hart × ExecReturn
exec_clz hart inst = write_rd hart inst (u64 (63 + 2 ^ 64 - highest (rs1 hart inst) 64))

unfoldable pub exec_clzw : Hart → InstructionData → Hart × ExecReturn
exec_clzw hart inst = write_rd hart inst (u64 (31 + 2 ^ 64 - highest (u32 (rs1 hart inst)) 32))

-- The loop of CTZ from bit `i` on, with `left` rounds to go: the first bit that is set, or `c`.
unfoldable pub lowest : ℕ → ℕ → ℕ → ℕ → ℕ
lowest x c i zero = c
lowest x c i (suc left) = let rest = lowest x c (i + 1) left in if bit x i == 1 then i else rest

unfoldable pub exec_ctz : Hart → InstructionData → Hart × ExecReturn
exec_ctz hart inst = write_rd hart inst (lowest (rs1 hart inst) 64 0 64)

unfoldable pub exec_ctzw : Hart → InstructionData → Hart × ExecReturn
exec_ctzw hart inst = write_rd hart inst (lowest (u32 (rs1 hart inst)) 32 0 32)

-- `bitcount += bit;` from bit `i` on, with `left` rounds to go
unfoldable pub bitcount : ℕ → ℕ → ℕ → ℕ → ℕ
bitcount x n i zero = n
bitcount x n i (suc left) = bitcount x (u8 (n + bit x i)) (i + 1) left

unfoldable pub exec_cpop : Hart → InstructionData → Hart × ExecReturn
exec_cpop hart inst = write_rd hart inst (bitcount (rs1 hart inst) 0 0 64)

unfoldable pub exec_cpopw : Hart → InstructionData → Hart × ExecReturn
exec_cpopw hart inst = write_rd hart inst (bitcount (u32 (rs1 hart inst)) 0 0 32)

-- `std::max` on `int64_t` gives its first argument unless that is less than the second.
unfoldable pub exec_max : Hart → InstructionData → Hart × ExecReturn
exec_max hart inst =
    write_rd hart inst
      (if lt_signed (rs1 hart inst) (rs2 hart inst) then rs2 hart inst else rs1 hart inst)

unfoldable pub exec_maxu : Hart → InstructionData → Hart × ExecReturn
exec_maxu hart inst = write_rd hart inst (max (rs1 hart inst) (rs2 hart inst))

unfoldable pub exec_min : Hart → InstructionData → Hart × ExecReturn
exec_min hart inst =
    write_rd hart inst
      (if lt_signed (rs2 hart inst) (rs1 hart inst) then rs2 hart inst else rs1 hart inst)

unfoldable pub exec_minu : Hart → InstructionData → Hart × ExecReturn
exec_minu hart inst = write_rd hart inst (min (rs1 hart inst) (rs2 hart inst))

unfoldable pub exec_sext_b : Hart → InstructionData → Hart × ExecReturn
exec_sext_b hart inst = write_rd hart inst (sext8 (rs1 hart inst))

unfoldable pub exec_sext_h : Hart → InstructionData → Hart × ExecReturn
exec_sext_h hart inst = write_rd hart inst (sext16 (rs1 hart inst))

unfoldable pub exec_zext_h : Hart → InstructionData → Hart × ExecReturn
exec_zext_h hart inst = write_rd hart inst (rs1 hart inst % 2 ^ 16)

module _ (over : ℕ → ℕ) where
  -- `x << s` and `x >> s` on `uint64_t`, for s up to 64
  abbrev pub shl : ℕ → ℕ → ℕ
  shl x s = if s == 64 then over x else u64 (x <<< s)

  abbrev pub shr : ℕ → ℕ → ℕ
  shr x s = if s == 64 then over x else x >>> s

  unfoldable pub exec_rol : Hart → InstructionData → Hart × ExecReturn
  exec_rol hart inst =
      let shamt = rs2 hart inst % 64 in
      write_rd hart inst (bit_or (shl (rs1 hart inst) shamt) (shr (rs1 hart inst) (64 - shamt)))

  unfoldable pub exec_ror : Hart → InstructionData → Hart × ExecReturn
  exec_ror hart inst =
      let shamt = rs2 hart inst % 64 in
      write_rd hart inst (bit_or (shr (rs1 hart inst) shamt) (shl (rs1 hart inst) (64 - shamt)))

  -- Here the decoder leaves `inst.imm` below 64.
  unfoldable pub exec_rori : Hart → InstructionData → Hart × ExecReturn
  exec_rori hart inst =
      write_rd hart inst
        (bit_or (shr (rs1 hart inst) inst.imm) (shl (rs1 hart inst) (64 - inst.imm)))

unfoldable pub exec_rolw : Hart → InstructionData → Hart × ExecReturn
exec_rolw hart inst =
    let x = u32 (rs1 hart inst) in
    let shamt = rs2 hart inst % 32 in
    write_rd hart inst (sext32 (bit_or (u64 (x <<< shamt)) (x >>> (32 - shamt))))

unfoldable pub exec_rorw : Hart → InstructionData → Hart × ExecReturn
exec_rorw hart inst =
    let x = u32 (rs1 hart inst) in
    let shamt = rs2 hart inst % 32 in
    write_rd hart inst (sext32 (bit_or (x >>> shamt) (u64 (x <<< (32 - shamt)))))

-- Here the decoder leaves `inst.imm` below 32.
unfoldable pub exec_roriw : Hart → InstructionData → Hart × ExecReturn
exec_roriw hart inst =
    let x = u32 (rs1 hart inst) in
    write_rd hart inst (bit_or (x >>> inst.imm) (u64 (x <<< (32 - inst.imm))))

-- The byte of `x` from bit `i` on
abbrev pub byte : ℕ → ℕ → ℕ
byte x i = (x >>> i) % 2 ^ 8

-- The loop of ORC.B over the `left` bytes from bit `i` on
unfoldable pub orc_bytes : ℕ → ℕ → ℕ → ℕ → ℕ
orc_bytes x out i zero = out
orc_bytes x out i (suc left) =
    orc_bytes x (bit_or out (u64 ((if byte x i == 0 then 0 else 0xff) <<< i))) (i + 8) left

unfoldable pub exec_orc_b : Hart → InstructionData → Hart × ExecReturn
exec_orc_b hart inst = write_rd hart inst (orc_bytes (rs1 hart inst) 0 0 8)

-- The loop of REV8 from byte `i` on, with `left` rounds to go
unfoldable pub reversed : ℕ → ℕ → ℕ → ℕ → ℕ
reversed x out i zero = out
reversed x out i (suc left) =
    reversed x (bit_or out (u64 (byte x (i * 8) <<< ((7 - i) * 8)))) (i + 1) left

unfoldable pub exec_rev8 : Hart → InstructionData → Hart × ExecReturn
exec_rev8 hart inst = write_rd hart inst (reversed (rs1 hart inst) 0 0 8)
