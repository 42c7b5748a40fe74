-- ===== src/Block/Terminates.antt =====
-- `run_blocks` returns: every round of its loop that goes on has run an instruction.
use rv64_vm.Prelude.{
  ℕ, zero, suc, ◌+◌, ◌-◌, ◌≤◌, ◌<◌, ◌≡◌, inl, inr, refl, arith, Bool, true, false, not, Option,
  none, some, if◌then◌else◌, Bool-cases, Option-cases, bit_and, ◌==◌, leb, u64,
}
use rv64_vm.Hart.State.{Hart, set_gpr}
use rv64_vm.Block.Cache.{Block, BlockCache}
use rv64_vm.Block.Compile.{Machine}
use rv64_vm.Block.Run.{Ran, run_block, run_from, execute}
use rv64_vm.Block.Loop.{
  Runner, Round, look_at_ints, get_block, after_block, single_step, dispatch, round, rounds,
  run_blocks,
}

module _ (m : Machine) where
  open m use {World, Code, translate, tick, self_mod}

  -- A run that does not fault has executed something.
  data Productive : Ran m → Type 0 where
    ran : {r : Ran m} → 1 ≤ r.executed → Productive r
    faulted : {r : Ran m} (ct : ℕ × ℕ) → r.fault ≡ some ct → Productive r

  if-Productive :
      (b : Bool) {x y : Ran m} → Productive x → Productive y → Productive (if b then x else y)
  if-Productive true px py = px
  if-Productive false px py = py

  run_from-Productive :
      (left : ℕ) (b : Block Code) (n : ℕ) (h : Hart) (w : World)
      → Productive (run_from m left b n h w)
  unfolding run_from
  run_from-Productive zero b n h w =
      if-Productive (not (execute m b n h w).out.is_success) (faulted _ refl) (ran (omega arith))
  run_from-Productive (suc left) b n h w =
      if-Productive (not (execute m b n h w).out.is_success) (faulted _ refl)
        (run_from-Productive left b (n + 1) _ _)

  -- A round that goes on has added to the total.
  data Progress (total : ℕ) : Round m → Type 0 where
    stops : {r : Round m} → r.again ≡ false → Progress total r
    grows : {r : Round m} → total < r.total → Progress total r

  if-Progress :
      (total : ℕ) (b : Bool) {x y : Round m}
      → Progress total x
      → Progress total y
      → Progress total (if b then x else y)
  if-Progress total true px py = px
  if-Progress total false px py = py

  -- Is an interrupt taken after the block?
  abbrev interrupted : Ran m → Bool
  interrupted r =
      let counted = record r.hart {
        instret = u64 (r.hart.instret + r.executed);
        cycle = u64 (r.hart.cycle + r.executed);
      } in
      (if leb 0x3000 (bit_and r.hart.instret 0x2fff + r.executed)
        then look_at_ints counted
        else (counted, false)).1

  after_block-Progress :
      (total : ℕ) (bc : BlockCache Code) (b : Block Code) (r : Ran m)
      → Productive r
      → Progress total (after_block m total bc b r)
  unfolding after_block
  after_block-Progress total bc b r (faulted ct e) = rw (after_block, e) (stops refl)
  after_block-Progress total bc b r (ran p) = elim (Option-cases r.fault) [
    | inr (ct, e) ↦ rw (after_block, e) (stops refl)
    | inl e ↦
        rw (after_block, e) (if-Progress total (interrupted r) (stops refl) (grows (omega arith)))
  ]

  single_step-Progress :
      (total : ℕ) (h : Hart) (w : World) (bc : BlockCache Code)
      → Progress total (single_step m total h w bc)
  unfolding single_step
  single_step-Progress total h w bc =
      if-Progress total (tick h w).0.wfi (stops refl) (grows (omega arith))

  abbrev with_block : ℕ → Hart → World → BlockCache Code → Option (Block Code) → Round m
  with_block total h w bc o = elim o [
    | none ↦ single_step m total h w bc
    | some b ↦ after_block m total bc b (run_block m h w b)
  ]

  dispatch-Progress :
      (total : ℕ) (h : Hart) (w : World) (bc : BlockCache Code)
      → Progress total (dispatch m total h w bc)
  unfolding dispatch run_block
  dispatch-Progress total h w bc =
      let t = translate h w h.pc in
      let g = get_block m t.hart t.world bc t.phys in
      let found : Progress total (with_block total g.hart g.world g.cache g.block) =
        elim (Option-cases g.block) [
          | inl e ↦ rw e (single_step-Progress total g.hart g.world g.cache)
          | inr (b, e) ↦ rw e (
              after_block-Progress total g.cache b (run_block m g.hart g.world b)
                (run_from-Productive (b.count - 1) b 0 (set_gpr g.hart 0 0) g.world))
        ] in
      if-Progress total (not t.ret.is_success) (stops refl) found

  round-Progress : (max_insts total : ℕ) (s : Runner m) → Progress total (round m max_insts total s)
  unfolding round
  round-Progress max_insts total s =
      let h = s.hart in
      let looked = if bit_and h.instret 0x2fff == 0 then look_at_ints h else (h, false) in
      if-Progress total h.wfi (stops refl) (
        if-Progress total (leb max_insts total) (stops refl) (
          if-Progress total looked.1 (stops refl)
            (dispatch-Progress total looked.0 s.world s.cache)))

  -- A round at the limit is the last one.
  round-limit :
      (max_insts total : ℕ) (s : Runner m)
      → max_insts ≤ total
      → (round m max_insts total s).again ≡ false
  unfolding round
  round-limit max_insts total s h =
      let limit : leb max_insts total ≡ true = ground arith in
      elim (Bool-cases s.hart.wfi) [
        | inl e ↦ rw (round, e) refl
        | inr e ↦ rw (round, e, limit) refl
      ]

  rounds-Done :
      (fuel max_insts total : ℕ) (s : Runner m)
      → max_insts ≤ fuel + total
      → (r : Runner m × ℕ) × (rounds m (suc fuel) max_insts total s ≡ some r)
  unfolding rounds
  rounds-Done zero max_insts total s h =
      rw (rounds, round-limit max_insts total s (omega arith)) (_, refl)
  rounds-Done (suc fuel) max_insts total s h =
      by_progress (round-Progress max_insts total s) (λ more.
        rounds-Done fuel max_insts (round m max_insts total s).total
          (round m max_insts total s).state more)
    where
      r : Round m
      r = round m max_insts total s

      by_progress :
          Progress total r
          → (max_insts ≤ fuel + r.total
              → (o : Runner m × ℕ) × (rounds m (suc fuel) max_insts r.total r.state ≡ some o))
          → (o : Runner m × ℕ) × (rounds m (suc (suc fuel)) max_insts total s ≡ some o)
      by_progress (stops off) go = rw (rounds, off) (_, refl)
      by_progress (grows lt) go = elim (Bool-cases r.again) [
        | inr off ↦ rw (rounds, off) (_, refl)
        | inl on ↦ rw (rounds, on) (go (omega arith))
      ]

  -- `run_blocks` returns, whatever the blocks, the interpreter and the translation do: its loop ends
  -- within one round more than the instructions it may run.
  pub run_blocks-Done :
      (max_insts : ℕ) (s : Runner m) → (r : Runner m × ℕ) × (run_blocks m max_insts s ≡ some r)
  unfolding run_blocks
  run_blocks-Done max_insts s = elim (Bool-cases s.hart.wfi) [
    | inl e ↦ rw (run_blocks, e) (_, refl)
    | inr e ↦ simp (run_blocks, e) (rounds-Done max_insts max_insts 0 s (omega arith))
  ]
