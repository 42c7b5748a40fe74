-- ===== src/Block/Steps.antt =====
-- `run_block` of src/block.cpp against the instructions of the block run one by one.
use rv64_vm.Prelude.{
  ℕ, zero, suc, ◌+◌, ◌-◌, ◌≤◌, ◌<◌, ◌≡◌, inl, inr, arith, true, false, none, some, Bool-cases,
}
use mathlib.Core.Path.{subst}
use rv64_vm.Hart.State.{Hart, set_gpr}
use rv64_vm.Block.Cache.{Block}
use rv64_vm.Block.Compile.{Machine}
use rv64_vm.Block.Run.{Ran, run_block, run_from, execute, advance, clear_x0}

module _ (m : Machine) where
  open m use {World, Code}

  -- `Steps b h w n h' w'`: from the core `h`, `n` instructions of the block succeed one after
  -- another, each with x0 cleared before it and the program counter moved after it.
  pub data Steps (b : Block Code) (h : Hart) (w : World) : ℕ → Hart → World → Type 0 where
    start : Steps b h w 0 h w
    step :
        {n : ℕ} {h' : Hart} {w' : World}
        → Steps b h w n h' w'
        → (execute m b n (clear_x0 h') w').out.is_success ≡ true
        → Steps b h w
            (n + 1)
            (advance m (execute m b n (clear_x0 h') w').hart (execute m b n (clear_x0 h') w').out)
            (execute m b n (clear_x0 h') w').world

  -- What a run from `h` is: all `count` instructions succeed, and it ends where they lead; or some
  -- succeed, and the next one fails with the cause and value reported, in the state it leaves.
  pub data IsRun (b : Block Code) (count : ℕ) (h : Hart) (w : World) : Ran m → Type 0 where
    done :
        {h' : Hart} {w' : World}
        → Steps b h w count h' w'
        → IsRun b count h w (record { hart = h'; world = w'; executed = count; fault = none })
    failed :
        {n : ℕ} {h' : Hart} {w' : World}
        → n < count
        → Steps b h w n h' w'
        → (execute m b n (clear_x0 h') w').out.is_success ≡ false
        → IsRun b count h w (record {
          hart = (execute m b n (clear_x0 h') w').hart;
          world = (execute m b n (clear_x0 h') w').world;
          executed = n;
          fault = some (
            (execute m b n (clear_x0 h') w').out.cause,
            (execute m b n (clear_x0 h') w').out.tval,
          );
        })

  run_from-IsRun :
      (left : ℕ) (b : Block Code) (h : Hart) (w : World) (n : ℕ) (h' : Hart) (w' : World)
      (count : ℕ)
      → n + left + 1 ≡ count
      → Steps b h w n h' w'
      → IsRun b count h w (run_from m left b n (clear_x0 h') w')
  unfolding run_from
  run_from-IsRun zero b h w n h' w' count p s =
      let r = execute m b n (clear_x0 h') w' in
      elim (Bool-cases (execute m b n (clear_x0 h') w').out.is_success) [
        | inr e ↦ rw (run_from, e) (failed (omega arith) s e)
        | inl e ↦
            let p' : n + 1 ≡ count = omega arith in
            rw (run_from, e)
              (subst
                (λ c. IsRun b c h w (record {
                  hart = advance m r.hart r.out;
                  world = r.world;
                  executed = n + 1;
                  fault = none;
                }))
                p' (done (step s e)))
      ]
  run_from-IsRun (suc left) b h w n h' w' count p s =
      let r = execute m b n (clear_x0 h') w' in
      elim (Bool-cases r.out.is_success) [
        | inr e ↦ rw (run_from, e) (failed (omega arith) s e)
        | inl e ↦
            rw (run_from, e)
              (run_from-IsRun left b h w (n + 1) (advance m r.hart r.out) r.world count
                (omega arith) (step s e))
      ]

  -- `run_block` on a block of at least one instruction runs its instructions one after another, from
  -- the core with x0 cleared before each: all of them succeed, or it stops at the first that fails
  -- and reports that one's cause and value; it counts those that succeeded.
  pub run_block-IsRun :
      (h : Hart) (w : World) (b : Block Code) (some_count : 1 ≤ b.count)
      → IsRun b b.count (set_gpr h 0 0) w (run_block m h w b)
  unfolding run_block clear_x0
  run_block-IsRun h w b some_count =
      run_from-IsRun (b.count - 1) b (set_gpr h 0 0) w 0 (set_gpr h 0 0) w b.count (omega arith)
        start
