-- ===== src/Dev/Plic/Search.antt =====
-- What `find_highest_pending_enabled` finds.
use rv64_vm.Prelude.{
  ℕ, zero, suc, ◌+◌, ◌*◌, ◌/◌, ◌%◌, ◌≤◌, ◌<◌, bit_and, ◌≡◌, ◌≢◌, ◌⊎◌, inl, inr, refl, arith, ◌==◌,
  Bool-cases,
}
use rv64_vm.Bits.{bit_and-lt}
use rv64_vm.Dev.Plic.{Plic, Context, Best, word_loop, words_loop, find_highest_pending_enabled}
use rv64_vm.Dev.Plic.Lowest.{ones-le}
use rv64_vm.Dev.Plic.Rounds.{IsSized, IsCandidate, IsSound, Covers, Promise, word_loop-Promise}

module _ (p : Plic) (ctx : Context) where
  -- The loop over the words from `word` on: the sources that it looks at.
  IsFrom : ℕ → ℕ → ℕ → Type 0
  IsFrom word left id = (word ≤ id / 32) × (id / 32 < word + left)

  module _ (sized : IsSized p) where
    words_loop-Promise :
        (left word : ℕ) (best : Best)
        → Promise p ctx (IsFrom word left) best (words_loop p ctx word left best)
    unfolding words_loop IsFrom
    words_loop-Promise zero word best = record {
      sound = λ s. s;
      keeps = λ id c. c;
      seen = λ id b c. absurd (omega arith);
    }
    words_loop-Promise (suc left) word best =
        let active = bit_and (p.pending_words word) (ctx.enables word) in
        let here =
          word_loop-Promise p ctx 32 (word * 32) active best
            (bit_and-lt 32 (p.pending_words word) _ (sized.pending word)) (ones-le 32 active)
            (λ k hk s.
              let e : (word * 32 + k) / 32 ≡ word = omega arith in
              let f : (word * 32 + k) % 32 ≡ k = omega arith in rw (e, f) s) in
        let after =
          words_loop-Promise left (word + 1)
            (word_loop p ctx.threshold 32 (word * 32) active best) in
        record {
          sound = λ s. after.sound (here.sound s);
          keeps = λ id c. after.keeps id (here.keeps id c);
          seen = λ id b c. elim (Bool-cases (id / 32 == word)) [
            | inl this ↦
                let e : id / 32 ≡ word = ground arith in
                after.keeps id (
                  here.seen id
                    (record {
                      index = id % 32;
                      small = omega arith;
                      place = omega arith;
                      set = rw e at c.active;
                    })
                    c)
            | inr other ↦ after.seen id (ground arith, ground arith) c
          ];
        }

  -- What the loop over all words makes of `best_id` and `best_priority`.
  IsCandidate-of_sound : (r : Best) → IsSound p ctx r → r.id ≢ 0 → IsCandidate p ctx r.id
  unfolding IsSound
  IsCandidate-of_sound r (inl start) ne = absurd (ne start.0)
  IsCandidate-of_sound r (inr found) ne = found.0

  best_of_sound :
      (r : Best) (id : ℕ)
      → IsSound p ctx r
      → Covers p ctx r id
      → IsCandidate p ctx id
      → (r.id ≢ 0)
        × ((p.priorities id < p.priorities r.id)
            ⊎ ((p.priorities id ≡ p.priorities r.id) × (r.id ≤ id)))
  unfolding IsSound Covers
  best_of_sound r id (inl start) c cand = absurd (ground (arith, c, cand.above, start))
  best_of_sound r id (inr (found, e)) c cand = (found.source, rw e at c)

  IsSound-start : IsSound p ctx (record { id = 0; priority = 0 })
  unfolding IsSound
  IsSound-start = inl (refl, refl)

-- The source that `find_highest_pending_enabled` gives, if it is not 0, is pending, enabled for the
-- context, in range and of a priority above the context's threshold (on pending words of 32 bits).
pub find_highest-IsCandidate :
    (p : Plic) (ctx_idx : ℕ)
    → IsSized p
    → find_highest_pending_enabled p ctx_idx ≢ 0
    → IsCandidate p (p.contexts ctx_idx) (find_highest_pending_enabled p ctx_idx)
unfolding find_highest_pending_enabled
find_highest-IsCandidate p ctx_idx sized ne =
    let ctx = p.contexts ctx_idx in
    let all =
      words_loop-Promise p ctx sized ((p.max_sources + 31) / 32) 0
        (record { id = 0; priority = 0 }) in
    IsCandidate-of_sound p ctx _ (all.sound (IsSound-start p ctx)) ne

-- If some source, in the words that the controller has, is pending, enabled, in range and above the
-- threshold, `find_highest_pending_enabled` gives a source of at least its priority and, where the
-- priorities are equal, of at most its number (on pending words of 32 bits).
pub find_highest_best :
    (p : Plic) (ctx_idx id : ℕ)
    → IsSized p
    → IsCandidate p (p.contexts ctx_idx) id
    → id / 32 < (p.max_sources + 31) / 32
    → let best = find_highest_pending_enabled p ctx_idx in
      (best ≢ 0)
      × ((p.priorities id < p.priorities best)
          ⊎ ((p.priorities id ≡ p.priorities best) × (best ≤ id)))
unfolding find_highest_pending_enabled
find_highest_best p ctx_idx id sized cand words =
    let ctx = p.contexts ctx_idx in
    let all =
      words_loop-Promise p ctx sized ((p.max_sources + 31) / 32) 0
        (record { id = 0; priority = 0 }) in
    best_of_sound p ctx _ id (all.sound (IsSound-start p ctx))
      (all.seen id (unfold IsFrom in (omega arith, omega arith)) cand) cand
