-- ===== src/Dev/Plic/Lines.antt =====
-- The interrupt lines that the controller drives: each context's line, and the bit of its core's `ip`.
use rv64_vm.Prelude.{
  ℕ, zero, suc, ◌+◌, ◌-◌, ◌*◌, ◌/◌, ◌%◌, ◌<◌, bit_and, bit, Bool, true, false, ◌≡◌, ◌≢◌, ◌⊎◌, inl,
  inr, refl, ap, sym, ◌∙◌, arith, ◌==◌, if◌then◌else◌, nonzero, Bool-cases, update,
}
use rv64_vm.Bits.{bit-with_bit_self, bit-with_bit_ne}
use rv64_vm.Dev.Plic.{
  Plic, Context, Best, consider, word_loop, words_loop, find_highest_pending_enabled,
  signal_cpu_interrupt, update_context, countr_zero,
}

-- The arbitration reads the priorities, the pending words and the context's threshold and enables.
pub record SameSources (p q : Plic) : Type 0 where
  pub priorities : p.priorities ≡ q.priorities
  pub max_sources : p.max_sources ≡ q.max_sources
  pub pending_words : p.pending_words ≡ q.pending_words

module _ (p q : Plic) (same : SameSources p q) where
  consider_same : (t id : ℕ) (best : Best) → consider p t id best ≡ consider q t id best
  unfolding consider
  consider_same t id best = rw (same.priorities, same.max_sources) refl

  word_loop_same :
      (t fuel base active : ℕ) (best : Best)
      → word_loop p t fuel base active best ≡ word_loop q t fuel base active best
  unfolding word_loop
  word_loop_same t zero base active best = refl
  word_loop_same t (suc fuel) base active best =
      rw
        (
          consider_same t (base + countr_zero 32 active) best,
          word_loop_same t fuel base (bit_and active (active - 1))
              (consider q t (base + countr_zero 32 active) best),
        )
        refl

  words_loop_same :
      (c d : Context) (word left : ℕ) (best : Best)
      → c.threshold ≡ d.threshold
      → c.enables ≡ d.enables
      → words_loop p c word left best ≡ words_loop q d word left best
  unfolding words_loop
  words_loop_same c d word zero best t e = refl
  words_loop_same c d word (suc left) best t e =
      words_loop_same c d (word + 1) left _ t e
      ∙ ap (words_loop q d (word + 1) left) (
          word_loop_same c.threshold 32 (word * 32) _ best
          ∙ ap
              (λ (a : ℕ).
                word_loop q a 32 (word * 32) (bit_and (p.pending_words word) (c.enables word)) best)
              t
          ∙ ap (λ (a : ℕ). word_loop q d.threshold 32 (word * 32) a best)
              (ap (λ (f : ℕ → ℕ). bit_and (f word) (c.enables word)) same.pending_words
                ∙ ap (λ (f : ℕ → ℕ). bit_and (q.pending_words word) (f word)) e))

  pub find_same :
      (i : ℕ)
      → (p.contexts i).threshold ≡ (q.contexts i).threshold
      → (p.contexts i).enables ≡ (q.contexts i).enables
      → find_highest_pending_enabled p i ≡ find_highest_pending_enabled q i
  unfolding find_highest_pending_enabled
  find_same i t e =
      let start : Best = record { id = 0; priority = 0 } in
      let words = (q.max_sources + 31) / 32 in
      ap (λ (m : ℕ). (words_loop p (p.contexts i) 0 ((m + 31) / 32) start).id) same.max_sources
      ∙ ap (λ (b : Best). b.id) (words_loop_same (p.contexts i) (q.contexts i) 0 words start t e)

-- Context `i` is the one of core `i / 2`, of supervisor mode if `i` is odd, and its bit of that core's
-- `ip` (9 for supervisor mode and 11 for machine mode) is its line.
pub record IsWired (p : Plic) (i : ℕ) : Type 0 where
  pub hart : (p.contexts i).hart_id ≡ i / 2
  pub mode : (p.contexts i).supervisor_mode ≡ (i % 2 == 1)
  pub wire :
      bit (p.ips (i / 2)) (if i % 2 == 1 then 9 else 11)
      ≡ (if (p.contexts i).interrupt_line then 1 else 0)

update_context-SameSources : (p : Plic) (i : ℕ) → SameSources (update_context p i) p
unfolding update_context signal_cpu_interrupt
update_context-SameSources p i = record {
  priorities = ground arith;
  max_sources = ground arith;
  pending_words = ground arith;
}

-- Only the line of the context itself changes.
pub update_context_frame :
    (p : Plic) (i j : ℕ)
    → let c = (update_context p i).contexts j in
      (c.threshold ≡ (p.contexts j).threshold)
      × (c.enables ≡ (p.contexts j).enables)
      × (c.hart_id ≡ (p.contexts j).hart_id)
      × (c.supervisor_mode ≡ (p.contexts j).supervisor_mode)
unfolding update_context signal_cpu_interrupt
update_context_frame p i j = ground arith

pub update_context_other :
    (p : Plic) (i j : ℕ)
    → i ≢ j
    → ((update_context p i).contexts j).interrupt_line ≡ (p.contexts j).interrupt_line
unfolding update_context signal_cpu_interrupt
update_context_other p i j ne = ground arith

pub update_context_line :
    (p : Plic) (i : ℕ)
    → ((update_context p i).contexts i).interrupt_line ≡ nonzero (find_highest_pending_enabled p i)
unfolding update_context signal_cpu_interrupt
update_context_line p i = ground arith

pub find-update_context :
    (p : Plic) (i j : ℕ)
    → find_highest_pending_enabled (update_context p i) j ≡ find_highest_pending_enabled p j
find-update_context p i j =
    let f = update_context_frame p i j in
    find_same (update_context p i) p (update_context-SameSources p i) j f.0 f.1

-- The bit that the controller sets for a context, and that of another context.
signal_wire :
    (p : Plic) (hart : ℕ) (s level : Bool)
    → hart < 64
    → bit ((signal_cpu_interrupt p hart s level).ips hart) (if s then 9 else 11)
      ≡ (if level then 1 else 0)
unfolding signal_cpu_interrupt
signal_wire p hart s level h = ground (
  arith,
  bit-with_bit_self (p.ips hart) 9 (if level then 1 else 0),
  bit-with_bit_self (p.ips hart) 11 (if level then 1 else 0),
)

signal_other :
    (p : Plic) (hart other : ℕ) (s level s' : Bool)
    → (hart ≢ other) ⊎ (s ≢ s')
    → bit ((signal_cpu_interrupt p hart s level).ips other) (if s' then 9 else 11)
      ≡ bit (p.ips other) (if s' then 9 else 11)
unfolding signal_cpu_interrupt
signal_other p hart other s level s' ne = ground (
  arith,
  bit-with_bit_ne (p.ips hart) 9 11 (if level then 1 else 0),
  bit-with_bit_ne (p.ips hart) 11 9 (if level then 1 else 0),
)

-- `contexts[ctx_idx]` after `ctx.interrupt_line = should_raise`
lined : Plic → ℕ → Plic
lined p i = record p {
  contexts =
      update p.contexts i
        (record (p.contexts i) { interrupt_line = nonzero (find_highest_pending_enabled p i) });
}

own_wire :
    (p : Plic) (i : ℕ)
    → i / 2 < 64
    → IsWired p i
    → bit ((update_context p i).ips (i / 2)) (if i % 2 == 1 then 9 else 11)
      ≡ (if nonzero (find_highest_pending_enabled p i) then 1 else 0)
unfolding update_context lined
own_wire p i h w = ground (
  arith,
  w.hart,
  w.mode,
  w.wire,
  signal_wire (lined p i) (i / 2) (i % 2 == 1) true h,
  signal_wire (lined p i) (i / 2) (i % 2 == 1) false h,
)

other_wire :
    (p : Plic) (i j : ℕ)
    → IsWired p i
    → i ≢ j
    → bit ((update_context p i).ips (j / 2)) (if j % 2 == 1 then 9 else 11)
      ≡ bit (p.ips (j / 2)) (if j % 2 == 1 then 9 else 11)
unfolding update_context lined
other_wire p i j w ne = ground (
  arith,
  w.hart,
  w.mode,
  signal_other (lined p i) (i / 2) (j / 2) (i % 2 == 1) true (j % 2 == 1),
  signal_other (lined p i) (i / 2) (j / 2) (i % 2 == 1) false (j % 2 == 1),
)

pub update_context-IsWired :
    (p : Plic) (i j : ℕ) → i / 2 < 64 → IsWired p i → IsWired p j → IsWired (update_context p i) j
update_context-IsWired p i j h wi wj = record {
  hart = (update_context_frame p i j).2 ∙ wj.hart;
  mode = (update_context_frame p i j).3 ∙ wj.mode;
  wire = elim (Bool-cases (i == j)) [
    | inl this ↦
        let e : i ≡ j = ground arith in
        rw (sym e)
          (own_wire p i h wi ∙ ap (λ b. if b then 1 else 0) (sym (update_context_line p i)))
    | inr other ↦
        let ne : i ≢ j = ground arith in
        other_wire p i j wi ne
        ∙ wj.wire
        ∙ ap (λ b. if b then 1 else 0) (sym (update_context_other p i j ne))
  ];
}
