-- ===== src/Block/Loop.antt =====
-- `Hart::run_blocks` of src/block.cpp, without its JIT section. The loop has no bound of its own
-- beyond the instructions it may run; `fuel` counts its rounds, and `none` is a loop that is not
-- done when the fuel is.
use rv64_vm.Prelude.{
  ℕ, zero, suc, ◌+◌, bit_and, Bool, true, false, not, Option, none, some, ◌==◌, if◌then◌else◌, leb,
  u64, nonzero,
}
use rv64_vm.Hart.State.{Hart}
use rv64_vm.Hart.Ints.{check_ints, int_local_pending}
use rv64_vm.Hart.Trap.{trap}
use rv64_vm.Block.Cache.{Block, BlockCache, clear, lookup}
use rv64_vm.Block.Compile.{Machine, compile_block}
use rv64_vm.Block.Run.{Ran, run_block}

-- `if(int_local_pending()) WFI = false;`
abbrev pub wake : Hart → Hart
wake h = if int_local_pending h then record h { wfi = false } else h

-- `(ip.raw & ie.raw) != 0 && check_ints()`: the core, and whether an interrupt was taken.
abbrev pub look_at_ints : Hart → Hart × Bool
look_at_ints h = if nonzero (bit_and h.ip h.ie) then check_ints h else (h, false)

module _ (m : Machine) where
  open m use {World, Code, translate, tick, self_mod}

  pub record Runner : Type 0 where
    pub hart : Hart
    pub world : World
    pub cache : BlockCache Code

  -- The end of a round: whether the loop goes on, and `total`.
  pub record Round : Type 0 where
    pub again : Bool
    pub total : ℕ
    pub state : Runner

  abbrev pub ended : Bool → ℕ → Hart → World → BlockCache Code → Round
  ended again total h w bc = record {
    again = again;
    total = total;
    state = record { hart = h; world = w; cache = bc };
  }

  -- `bc.lookup(phys)`, and `compile_block` when it finds none.
  unfoldable pub get_block :
      Hart
      → World
      → BlockCache Code
      → ℕ
      → record { hart : Hart; world : World; cache : BlockCache Code; block : Option (Block Code) }
  get_block h w bc phys = elim (lookup bc (self_mod w).epoch phys) [
    | some b ↦ record { hart = h; world = w; cache = bc; block = some b }
    | none ↦ compile_block m h w bc phys
  ]

  -- The counters after a block, its fault, the interrupts and FENCE.
  unfoldable pub after_block : ℕ → BlockCache Code → Block Code → Ran m → Round
  after_block total bc b r =
      let prev_instret = r.hart.instret in
      let counted = record r.hart {
        instret = u64 (r.hart.instret + r.executed);
        cycle = u64 (r.hart.cycle + r.executed);
      } in
      let looked =
        if leb 0x3000 (bit_and prev_instret 0x2fff + r.executed)
        then look_at_ints counted
        else (counted, false) in
      elim r.fault [
        | some (cause, tval) ↦
            ended false (total + r.executed) (trap counted cause tval false) r.world bc
        | none ↦
            if looked.1
            then ended false (total + r.executed) looked.0 r.world bc
            else ended true (total + r.executed) looked.0 r.world
                (if bit_and b.last_inst 0x7f == 0x0f then clear bc else bc)
      ]

  -- One step of the interpreter, when no block can be formed.
  unfoldable pub single_step : ℕ → Hart → World → BlockCache Code → Round
  single_step total h w bc =
      let t = tick h w in
      if t.0.wfi then ended false total t.0 t.1 bc else ended true (total + 1) t.0 t.1 bc

  unfoldable pub dispatch : ℕ → Hart → World → BlockCache Code → Round
  dispatch total h w bc =
      let t = translate h w h.pc in
      let g = get_block t.hart t.world bc t.phys in
      if not t.ret.is_success
      then ended false total (trap t.hart t.ret.exc_code t.ret.tval false) t.world bc
      else elim g.block [
        | none ↦ single_step total g.hart g.world g.cache
        | some b ↦ after_block total g.cache b (run_block m g.hart g.world b)
      ]

  -- One round of the loop.
  unfoldable pub round : ℕ → ℕ → Runner → Round
  round max_insts total s =
      let h = s.hart in
      let looked = if bit_and h.instret 0x2fff == 0 then look_at_ints h else (h, false) in
      if h.wfi
      then ended false total (wake h) s.world s.cache
      else if leb max_insts total
      then ended false total h s.world s.cache
      else if looked.1
      then ended false total looked.0 s.world s.cache
      else dispatch total looked.0 s.world s.cache

  unfoldable pub rounds : ℕ → ℕ → ℕ → Runner → Option (Runner × ℕ)
  rounds zero max_insts total s = none
  rounds (suc fuel) max_insts total s =
      let r = round max_insts total s in
      let rest = rounds fuel max_insts r.total r.state in
      if r.again then rest else some (r.state, r.total)

  -- `run_blocks`: `total` is an unsigned count, and every round that goes on adds to it.
  unfoldable pub run_blocks : ℕ → Runner → Option (Runner × ℕ)
  run_blocks max_insts s =
      if s.hart.wfi
      then some (record s { hart = wake s.hart }, 0)
      else rounds (suc max_insts) max_insts 0 s
