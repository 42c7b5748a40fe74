-- ===== src/Isa/Rv64i/LoadStore.antt =====
-- Loads and stores of src/sets/rv64i.cpp, over an interface for `MMIO::read` and `MMIO::write`.
use rv64_vm.Prelude.{ℕ, ◌+◌, false, if◌then◌else◌, u64}
use rv64_vm.Hart.State.{Hart, set_gpr, ExecReturn, InstructionData}
use rv64_vm.Mem.Access.{MemoryReturn}
use rv64_vm.Isa.Arith.{sext8, sext16, sext32}
use rv64_vm.Isa.Rv64i.Alu.{rs1, rs2}

-- `World` is all that is shared outside the core. A read of `size` bytes gives the value that it
-- stores through its pointer; both calls may change the core (translation cache, reservation,
-- interrupt lines).
pub record Bus : Type 1 where
  pub World : Type 0
  pub read :
      Hart → World → ℕ → ℕ → record { hart : Hart; world : World; ret : MemoryReturn; val : ℕ }
  pub write : Hart → World → ℕ → ℕ → ℕ → record { hart : Hart; world : World; ret : MemoryReturn }

-- `{ r.is_success, false, 4, r.exc_code, r.tval }`
abbrev pub of_memory : MemoryReturn → ExecReturn
of_memory r = record {
  is_success = r.is_success;
  can_change_pc = false;
  increase_pc = 4;
  cause = r.exc_code;
  tval = r.tval;
}

module _ (bus : Bus) where
  open bus use {World, read, write}

  -- The shape of the seven loads: `extend` is the cast of the value read.
  abbrev load_as :
      ℕ
      → (ℕ → ℕ)
      → Hart
      → World
      → InstructionData
      → record { hart : Hart; world : World; out : ExecReturn }
  load_as size extend hart w inst =
      let r = read hart w (u64 (rs1 hart inst + inst.imm)) size in
      record {
        hart = if r.ret.is_success then set_gpr r.hart inst.rd (extend r.val) else r.hart;
        world = r.world;
        out = of_memory r.ret;
      }

  abbrev store_as :
      ℕ → Hart → World → InstructionData → record { hart : Hart; world : World; out : ExecReturn }
  store_as size hart w inst =
      let r = write hart w (u64 (rs1 hart inst + inst.imm)) size (rs2 hart inst) in
      record { hart = r.hart; world = r.world; out = of_memory r.ret }

  unfoldable pub exec_ld :
      Hart → World → InstructionData → record { hart : Hart; world : World; out : ExecReturn }
  exec_ld = load_as 8 (λ v. v)

  unfoldable pub exec_lwu :
      Hart → World → InstructionData → record { hart : Hart; world : World; out : ExecReturn }
  exec_lwu = load_as 4 (λ v. v)

  unfoldable pub exec_lb :
      Hart → World → InstructionData → record { hart : Hart; world : World; out : ExecReturn }
  exec_lb = load_as 1 sext8

  unfoldable pub exec_lh :
      Hart → World → InstructionData → record { hart : Hart; world : World; out : ExecReturn }
  exec_lh = load_as 2 sext16

  unfoldable pub exec_lw :
      Hart → World → InstructionData → record { hart : Hart; world : World; out : ExecReturn }
  exec_lw = load_as 4 sext32

  unfoldable pub exec_lbu :
      Hart → World → InstructionData → record { hart : Hart; world : World; out : ExecReturn }
  exec_lbu = load_as 1 (λ v. v)

  unfoldable pub exec_lhu :
      Hart → World → InstructionData → record { hart : Hart; world : World; out : ExecReturn }
  exec_lhu = load_as 2 (λ v. v)

  unfoldable pub exec_sd :
      Hart → World → InstructionData → record { hart : Hart; world : World; out : ExecReturn }
  exec_sd = store_as 8

  unfoldable pub exec_sb :
      Hart → World → InstructionData → record { hart : Hart; world : World; out : ExecReturn }
  exec_sb = store_as 1

  unfoldable pub exec_sh :
      Hart → World → InstructionData → record { hart : Hart; world : World; out : ExecReturn }
  exec_sh = store_as 2

  unfoldable pub exec_sw :
      Hart → World → InstructionData → record { hart : Hart; world : World; out : ExecReturn }
  exec_sw = store_as 4
