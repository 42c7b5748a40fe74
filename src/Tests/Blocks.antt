-- ===== src/Tests/Blocks.antt =====
-- The block runner on a machine whose only instruction adds 1 to x1.
use rv64_vm.Prelude.{true, false, ℕ, ◌+◌, ◌≡◌, inl, refl, arith, none, some, u64}
use rv64_vm.Hart.State.{set_gpr, next}
use rv64_vm.Mem.Access.{success}
use rv64_vm.Mem.SelfMod.{SelfMod}
use rv64_vm.Block.Shape.{poisons_x0, writes_reg}
use rv64_vm.Block.Cache.{Block, BlockCache, lookup}
use rv64_vm.Block.Compile.{Machine, compile_block}
use rv64_vm.Block.Run.{run_block}
use rv64_vm.Block.Loop.{Runner, run_blocks}
use rv64_vm.Block.Terminates.{run_blocks-Done}
use rv64_vm.Block.Valid.{IsValid, IsResult, compile_block-IsValid}
use rv64_vm.Block.Found.{compile_block-lookup}
use rv64_vm.Block.Steps.{IsRun, run_block-IsRun}
use rv64_vm.Tests.Base.{core0, inst0}
use rv64_vm.Tests.Translation.{unmarked}

abbrev machine0 : Machine
machine0 = record {
  World = SelfMod;
  Code = ℕ;
  fetch = λ h w va. record {
    hart = h;
    world = w;
    ret = success;
    entry_pc = va;
    code = 1;
    bytes = record inst0 { inst = 0x108093 };
  };
  exec =
      λ code h w bytes. record { hart = set_gpr h 1 (u64 (h.gpr 1 + code)); world = w; out = next };
  translate = λ h w va. record { hart = h; world = w; ret = success; phys = va };
  tick = λ h w. (h, w);
  self_mod = λ w. w;
  set_self_mod = λ w s. s;
}

abbrev empty_block : Block ℕ
empty_block = record {
  start_phys = 0;
  gen = 0;
  smc = 0;
  count = 0;
  last_inst = 0;
  instrs = λ i. record { inst = 0; bytes = inst0; increase_pc = 4 };
}

abbrev cache0 : BlockCache ℕ
cache0 = record { generation = 1; slots = λ i. empty_block }

abbrev runner0 : Runner machine0
runner0 = record { hart = core0; world = unmarked; cache = cache0 }

run_blocks-Done_example : (r : Runner machine0 × ℕ) × (run_blocks machine0 20 runner0 ≡ some r)
run_blocks-Done_example = run_blocks-Done machine0 20 runner0

compile_block-IsValid_example :
    IsValid machine0 (compile_block machine0 core0 unmarked cache0 0x80001000).cache
    × IsResult machine0 (compile_block machine0 core0 unmarked cache0 0x80001000).block
compile_block-IsValid_example =
    compile_block-IsValid machine0 core0 unmarked cache0 0x80001000 (λ i. inl refl)

compile_block-lookup_example :
    lookup (compile_block machine0 core0 unmarked cache0 0x80001004).cache 0 0x80001004 ≡ none
unfolding lookup
compile_block-lookup_example =
    compile_block-lookup machine0 core0 unmarked cache0 0x80001004 0 (λ e. omega arith)

-- A block of two instructions.
abbrev block0 : Block ℕ
block0 = record empty_block { count = 2 }

run_block-IsRun_example :
    IsRun machine0 block0 2 (set_gpr core0 0 0) unmarked (run_block machine0 core0 unmarked block0)
run_block-IsRun_example = run_block-IsRun machine0 core0 unmarked block0 (omega arith)

-- ADDIW x0, x1, 1 is not among the instructions that `compile_block` keeps out; ADDI x0, x1, 1 is.
addiw_to_x0 : (poisons_x0 0x0010801b ≡ false) × (poisons_x0 0x00108013 ≡ true)
unfolding poisons_x0 writes_reg
addiw_to_x0 = (refl, refl)
