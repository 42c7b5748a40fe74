-- ===== src/Dev/Plic/Rounds.antt =====
-- The rounds of `find_highest_pending_enabled` over the set bits of one word.
use native.Mathlib.Nat.{div-le_self}
use rv64_vm.Prelude.{
  ℕ, zero, suc, ◌+◌, ◌-◌, ◌/◌, ◌%◌, ◌^◌, ◌≤◌, ◌<◌, bit_and, bit, ◌&&◌, ◌||◌, ◌≡◌, ◌≢◌, ◌⊎◌, inl,
  inr, refl, ◌∙◌, arith, ltb, leb, ◌==◌, if◌then◌else◌, nonzero, Bool-cases,
}
use rv64_vm.Bits.{bit_and-lt}
use rv64_vm.Dev.Plic.{Plic, Context, Best, countr_zero, consider, word_loop}
use rv64_vm.Dev.Plic.Lowest.{
  bit-countr_zero, bit-clear_lowest, ones, bit_of_ones, ones-clear_lowest,
}

-- The pending words of a controller fit 32 bits.
pub record IsSized (p : Plic) : Type 0 where
  pub pending : (word : ℕ) → p.pending_words word < 2 ^ 32

-- Source `id` is pending and enabled for a context.
abbrev pub IsActive : Plic → Context → ℕ → Type 0
IsActive p ctx id = bit (bit_and (p.pending_words (id / 32)) (ctx.enables (id / 32))) (id % 32) ≡ 1

-- And it may interrupt that context: it is a source, of a priority above the threshold.
pub record IsCandidate (p : Plic) (ctx : Context) (id : ℕ) : Type 0 where
  pub active : IsActive p ctx id
  pub source : id ≢ 0
  pub in_range : id ≤ p.max_sources
  pub above : ctx.threshold < p.priorities id

module _ (p : Plic) (ctx : Context) where
  -- `best` is what the loop starts with, or a candidate and its priority.
  unfoldable pub IsSound : Best → Type 0
  IsSound best =
      ((best.id ≡ 0) × (best.priority ≡ 0))
      ⊎ (IsCandidate p ctx best.id × (best.priority ≡ p.priorities best.id))

  -- Source `id` does not win against `best`.
  unfoldable pub Covers : Best → ℕ → Type 0
  Covers best id =
      (p.priorities id < best.priority) ⊎ ((p.priorities id ≡ best.priority) × (best.id ≤ id))

  Covers-consider :
      (id other : ℕ) (best : Best)
      → Covers best other
      → Covers (consider p ctx.threshold id best) other
  unfolding consider Covers
  Covers-consider id other best c = ground (arith, c)

  consider-Covers :
      (id : ℕ) (best : Best)
      → id ≢ 0
      → id ≤ p.max_sources
      → ctx.threshold < p.priorities id
      → Covers (consider p ctx.threshold id best) id
  unfolding consider Covers
  consider-Covers id best ne le above = ground arith

  consider-IsSound :
      (id : ℕ) (best : Best)
      → IsActive p ctx id
      → IsSound best
      → IsSound (consider p ctx.threshold id best)
  unfolding consider IsSound
  consider-IsSound id best active s =
      elim (Bool-cases (
        nonzero id
        && leb id p.max_sources
        && ltb ctx.threshold (p.priorities id)
        && (ltb best.priority (p.priorities id)
            || (p.priorities id == best.priority && ltb id best.id)))) [
              | inl wins ↦ rw wins (
                  inr (
                    record {
                      active = active;
                      source = ground arith;
                      in_range = ground arith;
                      above = ground arith;
                    },
                    refl,
                  ))
              | inr loses ↦ rw loses s
            ]

  -- What a loop that went from `best` to `r` over the sources of `Seen` promises.
  pub record Promise (Seen : ℕ → Type 0) (best r : Best) : Type 0 where
    pub sound : IsSound best → IsSound r
    pub keeps : (id : ℕ) → Covers best id → Covers r id
    pub seen : (id : ℕ) → Seen id → IsCandidate p ctx id → Covers r id

  -- The set bits of what is left of the word at `base`.
  pub record IsBit (base active id : ℕ) : Type 0 where
    pub index : ℕ
    pub small : index < 32
    pub place : id ≡ base + index
    pub set : bit active index ≡ 1

  zero_has_no_bit : (base id : ℕ) → IsBit base 0 id → suc 0 ≤ 0
  zero_has_no_bit base id b = omega (arith, b.set, div-le_self 0 (2 ^ b.index))

  -- One round of the loop, from what the rounds after it promise.
  one_round :
      (base active : ℕ) (best r : Best)
      → active < 2 ^ 32
      → active ≢ 0
      → ((k : ℕ) → k < 32 → bit active k ≡ 1 → IsActive p ctx (base + k))
      → Promise
          (IsBit base (bit_and active (active - 1)))
          (consider p ctx.threshold (base + countr_zero 32 active) best)
          r
      → Promise (IsBit base active) best r
  one_round base active best r h ne act rest = record {
    sound = λ s. rest.sound (consider-IsSound (base + k0) best (act k0 low.0 low.1) s);
    keeps = λ id c. rest.keeps id (Covers-consider (base + k0) id best c);
    seen = λ id b c. elim (Bool-cases (b.index == k0)) [
      | inl this ↦
          let here : base + k0 ≡ id = ground (arith, b.place) in
          rest.keeps id (rw here (consider-Covers id best c.source c.in_range c.above))
      | inr other ↦
          rest.seen id
            (record {
              index = b.index;
              small = b.small;
              place = b.place;
              set = cleared b.index ∙ rw other b.set;
            })
            c
    ];
  }
    where
      k0 : ℕ
      k0 = countr_zero 32 active

      low : (k0 < 32) × (bit active k0 ≡ 1)
      low = bit-countr_zero 32 active h ne

      cleared :
          (k : ℕ) → bit (bit_and active (active - 1)) k ≡ (if k == k0 then 0 else bit active k)
      cleared k = bit-clear_lowest 32 active k h ne

  pub word_loop-Promise :
      (fuel base active : ℕ) (best : Best)
      → active < 2 ^ 32
      → ones 32 active ≤ fuel
      → ((k : ℕ) → k < 32 → bit active k ≡ 1 → IsActive p ctx (base + k))
      → Promise (IsBit base active) best (word_loop p ctx.threshold fuel base active best)
  unfolding word_loop
  word_loop-Promise zero base active best h few act = record {
    sound = λ s. s;
    keeps = λ id c. c;
    seen = λ id b c.
        absurd (omega (arith, b.set, bit_of_ones 32 active b.index b.small (omega arith)));
  }
  word_loop-Promise (suc fuel) base active best h few act = elim (Bool-cases (active == 0)) [
    | inl none ↦ rw none (record {
      sound = λ s. s;
      keeps = λ id c. c;
      seen = λ id b c.
          let e : active ≡ 0 = ground arith in
          absurd (omega (arith, zero_has_no_bit base id (rw e at b)));
    })
    | inr more ↦ rw more (
        one_round base active best _ h (ground arith) act (
          word_loop-Promise fuel base (bit_and active (active - 1))
            (consider p ctx.threshold (base + countr_zero 32 active) best)
            (bit_and-lt 32 active (active - 1) h)
            (omega (arith, ones-clear_lowest 32 active h (ground arith)))
            (λ k hk s.
              act k hk (ground (arith, bit-clear_lowest 32 active k h (ground arith), s)))))
  ]
