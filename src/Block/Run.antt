-- ===== src/Block/Run.antt =====
-- `run_block` of src/block.cpp.
use rv64_vm.Prelude.{ℕ, zero, suc, ◌+◌, ◌-◌, not, Option, none, some, if◌then◌else◌, u64, nonzero}
use rv64_vm.Hart.State.{Hart, set_gpr, ExecReturn}
use rv64_vm.Block.Cache.{Block}
use rv64_vm.Block.Compile.{Machine}

-- `if(h.GPR[0] != 0) h.GPR[0] = 0;`
unfoldable pub clear_x0 : Hart → Hart
clear_x0 h = if nonzero (h.gpr 0) then set_gpr h 0 0 else h

module _ (m : Machine) where
  open m use {World, Code, exec}

  -- `out_executed`, and the cause and value of `out_fault`.
  pub record Ran : Type 0 where
    pub hart : Hart
    pub world : World
    pub executed : ℕ
    pub fault : Option (ℕ × ℕ)

  -- `ci.inst->func(h, ci.data)` for instruction `n` of the block.
  abbrev pub execute :
      Block Code → ℕ → Hart → World → record { hart : Hart; world : World; out : ExecReturn }
  execute b n h w = let ci = b.instrs n in exec ci.inst h w ci.bytes

  -- `h.pc += r.increase_pc`
  abbrev pub advance : Hart → ExecReturn → Hart
  advance h out = record h { pc = u64 (h.pc + out.increase_pc) }

  -- The instructions from `n` on, `left` of them before the last one, which leaves x0 alone.
  unfoldable pub run_from : ℕ → Block Code → ℕ → Hart → World → Ran
  run_from zero b n h w =
      let e = execute b n h w in
      if not e.out.is_success
      then record {
        hart = e.hart;
        world = e.world;
        executed = n;
        fault = some (e.out.cause, e.out.tval);
      }
      else record { hart = advance e.hart e.out; world = e.world; executed = n + 1; fault = none }
  run_from (suc left) b n h w =
      let e = execute b n h w in
      let rest = run_from left b (n + 1) (clear_x0 (advance e.hart e.out)) e.world in
      if not e.out.is_success
      then record {
        hart = e.hart;
        world = e.world;
        executed = n;
        fault = some (e.out.cause, e.out.tval);
      }
      else rest

  -- A compiled block has at least one instruction. With none, the source's index wraps around and leaves
  -- the array, which has no counterpart here.
  unfoldable pub run_block : Hart → World → Block Code → Ran
  run_block h w b = run_from (b.count - 1) b 0 (set_gpr h 0 0) w
