-- ===== src/Isa/Float/Memory.antt =====
-- The loads and stores of the floating-point registers: src/sets/rv64f.cpp, src/sets/rv64d.cpp and
-- the four of src/sets/rv64c.cpp, over the interface for `MMIO::read` and `MMIO::write`.
use rv64_vm.Prelude.{ℕ, ◌+◌, u64, if◌then◌else◌}
use rv64_vm.Hart.State.{InstructionData, ExecReturn}
use rv64_vm.Decode.Fields.Compressed.{d_c_rd, d_c_rs1, d_c_rs2}
use rv64_vm.Isa.Rv64i.LoadStore.{Bus, of_memory}
use rv64_vm.Isa.Float.{FloatHart, set_fpr, f32_in, f32_out}

module _ (bus : Bus) where
  open bus use {World, read, write}

  -- The shape of the loads: `size` bytes at register `base` plus the immediate, into register `rd`
  -- as `keep` makes them, and on to the next instruction, `step` bytes further.
  abbrev load_float :
      ℕ
      → ℕ
      → (ℕ → ℕ)
      → ℕ
      → ℕ
      → FloatHart
      → World
      → InstructionData
      → record { f : FloatHart; world : World; out : ExecReturn }
  load_float step size keep base rd f w inst =
      let r = read f.hart w (u64 (f.hart.gpr base + inst.imm)) size in
      let g = record f { hart = r.hart } in
      record {
        f = if r.ret.is_success then set_fpr g rd (keep r.val) else g;
        world = r.world;
        out = record (of_memory r.ret) { increase_pc = step };
      }

  abbrev store_float :
      ℕ
      → ℕ
      → ℕ
      → ℕ
      → FloatHart
      → World
      → InstructionData
      → record { f : FloatHart; world : World; out : ExecReturn }
  store_float step size base value f w inst =
      let r = write f.hart w (u64 (f.hart.gpr base + inst.imm)) size value in
      record {
        f = record f { hart = r.hart };
        world = r.world;
        out = record (of_memory r.ret) { increase_pc = step };
      }

  unfoldable pub exec_flw :
      FloatHart
      → World
      → InstructionData
      → record { f : FloatHart; world : World; out : ExecReturn }
  exec_flw f w inst = load_float 4 4 f32_out inst.rs1 inst.rd f w inst

  unfoldable pub exec_fsw :
      FloatHart
      → World
      → InstructionData
      → record { f : FloatHart; world : World; out : ExecReturn }
  exec_fsw f w inst = store_float 4 4 inst.rs1 (f32_in (f.fpr inst.rs2)) f w inst

  unfoldable pub exec_fld :
      FloatHart
      → World
      → InstructionData
      → record { f : FloatHart; world : World; out : ExecReturn }
  exec_fld f w inst = load_float 4 8 (λ v. v) inst.rs1 inst.rd f w inst

  unfoldable pub exec_fsd :
      FloatHart
      → World
      → InstructionData
      → record { f : FloatHart; world : World; out : ExecReturn }
  exec_fsd f w inst = store_float 4 8 inst.rs1 (f.fpr inst.rs2) f w inst

  unfoldable pub exec_c_fld :
      FloatHart
      → World
      → InstructionData
      → record { f : FloatHart; world : World; out : ExecReturn }
  exec_c_fld f w inst =
      load_float 2 8 (λ v. v) (8 + d_c_rs1 inst.inst) (8 + d_c_rd inst.inst) f w inst

  unfoldable pub exec_c_fsd :
      FloatHart
      → World
      → InstructionData
      → record { f : FloatHart; world : World; out : ExecReturn }
  exec_c_fsd f w inst =
      store_float 2 8 (8 + d_c_rs1 inst.inst) (f.fpr (8 + d_c_rd inst.inst)) f w inst

  unfoldable pub exec_c_fldsp :
      FloatHart
      → World
      → InstructionData
      → record { f : FloatHart; world : World; out : ExecReturn }
  exec_c_fldsp f w inst = load_float 2 8 (λ v. v) 2 inst.rd f w inst

  unfoldable pub exec_c_fsdsp :
      FloatHart
      → World
      → InstructionData
      → record { f : FloatHart; world : World; out : ExecReturn }
  exec_c_fsdsp f w inst = store_float 2 8 2 (f.fpr (d_c_rs2 inst.inst)) f w inst
