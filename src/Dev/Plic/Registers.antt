-- ===== src/Dev/Plic/Registers.antt =====
-- Claim, complete and `set_pending`: what they keep of the lines, and where they reach outside a vector.
use rv64_vm.Prelude.{
  Option-cases, ℕ, ◌+◌, ◌/◌, ◌%◌, ◌^◌, ◌≤◌, ◌<◌, bit_and, bit_or, not32, Bool, true, false, ◌≡◌,
  ◌≢◌, inl, inr, arith, ◌==◌, if◌then◌else◌, update, Option, none, some, ◌&&◌,
}
use rv64_vm.Dev.Plic.{
  Plic, find_highest_pending_enabled, update_context, set_pending, set_pending_bit, claim_interrupt,
  complete_interrupt,
}
use rv64_vm.Dev.Plic.Lines.{update_context-IsWired}
use rv64_vm.Dev.Plic.Updates.{
  IsDriven, IsConsistent, update_all_contexts-IsConsistent, num_contexts-update_context,
}

pub update_context-IsDriven :
    (p : Plic) (i : ℕ) → i < p.num_contexts → IsDriven p → IsDriven (update_context p i)
update_context-IsDriven p i h d = record {
  contexts = omega (arith, num_contexts-update_context p i, d.contexts);
  wired = λ j hj.
      update_context-IsWired p i j (omega (arith, d.contexts)) (d.wired i h)
        (d.wired j (omega (arith, num_contexts-update_context p i)));
}

-- What a change of the pending words, the priorities, or a context's threshold and enables keeps.
pub IsDriven-sources :
    (p : Plic) (words prios : ℕ → ℕ)
    → IsDriven p
    → IsDriven (record p { pending_words = words; priorities = prios })
IsDriven-sources p words prios d = record {
  contexts = d.contexts;
  wired = λ j h. let w = d.wired j h in record { hart = w.hart; mode = w.mode; wire = w.wire };
}

pub IsDriven-context :
    (p : Plic) (i t : ℕ) (e : ℕ → ℕ)
    → IsDriven p
    → IsDriven (record p {
      contexts = update p.contexts i (record (p.contexts i) { threshold = t; enables = e });
    })
IsDriven-context p i t e d = record {
  contexts = d.contexts;
  wired = λ j h.
      let w = d.wired j h in
      record {
        hart = ground (arith, w.hart);
        mode = ground (arith, w.mode);
        wire = ground (arith, w.wire);
      };
}

set_pending_bit-IsDriven :
    (p p' : Plic) (id : ℕ) (b : Bool)
    → IsDriven p
    → set_pending_bit p id b ≡ some p'
    → IsDriven p' × (p'.num_contexts ≡ p.num_contexts)
unfolding set_pending_bit
set_pending_bit-IsDriven p p' id b d e =
    let words : Bool → ℕ → ℕ = λ up. update p.pending_words (id / 32) (
      if up
      then bit_or (p.pending_words (id / 32)) (2 ^ (id % 32))
      else bit_and (p.pending_words (id / 32)) (not32 (2 ^ (id % 32)))) in
    ground (
      arith,
      e,
      IsDriven-sources p (words true) p.priorities d,
      IsDriven-sources p (words false) p.priorities d,
    )

module _ (p : Plic) (i : ℕ) (h : i < p.num_contexts) (d : IsDriven p) where
  cleared-IsDriven :
      (id : ℕ) (q : Plic) → set_pending_bit p id false ≡ some q → IsDriven (update_context q i)
  cleared-IsDriven id q s =
      let r = set_pending_bit-IsDriven p q id false d s in
      update_context-IsDriven q i (omega (arith, r.1)) r.0

  pub claim_interrupt-IsDriven :
      (p' : Plic) (id : ℕ) → claim_interrupt p i ≡ some (id, p') → IsDriven p'
  unfolding claim_interrupt
  claim_interrupt-IsDriven p' id e =
      elim (Option-cases (set_pending_bit p (find_highest_pending_enabled p i) false)) [
        | inl fault ↦ ground (arith, e, fault, d)
        | inr (q, s) ↦
            ground (arith, e, s, cleared-IsDriven (find_highest_pending_enabled p i) q s, d)
      ]

  pub complete_interrupt-IsDriven :
      (p' : Plic) (id : ℕ) → complete_interrupt p i id ≡ some p' → IsDriven p'
  unfolding complete_interrupt
  complete_interrupt-IsDriven p' id e = elim (Option-cases (set_pending_bit p id false)) [
    | inl fault ↦ ground (arith, e, fault, d)
    | inr (q, s) ↦ ground (arith, e, s, cleared-IsDriven id q s, d)
  ]

-- With at most 64 cores and the `ip` bit of each context equal to its line, `set_pending` on a source in
-- range, if it stays inside the pending words, leaves a controller where that still holds and where
-- each line tells whether the arbitration finds a source for its context.
pub set_pending-IsConsistent :
    (p p' : Plic) (id : ℕ) (b : Bool)
    → IsDriven p
    → id ≢ 0
    → id ≤ p.max_sources
    → set_pending p id b ≡ some p'
    → IsConsistent p'
unfolding set_pending
set_pending-IsConsistent p p' id b d ne le e = elim (Option-cases (set_pending_bit p id b)) [
  | inl fault ↦ ground (arith, e, fault)
  | inr (q, s) ↦
      ground
        (arith, e, s, update_all_contexts-IsConsistent q (set_pending_bit-IsDriven p q id b d s).0)
]

-- Does an operation reach outside a vector?
abbrev pub is_fault {ℓ} : {A : Type ℓ} → Option A → Bool
is_fault none = true
is_fault (some x) = false

-- With as many pending words as the constructor allots, `set_pending` on a source in range reaches
-- beyond them exactly for the last source, if the number of sources is a multiple of 32.
pub set_pending_fault :
    (p : Plic) (id : ℕ) (b : Bool)
    → p.words_count ≡ (p.max_sources + 31) / 32
    → id ≢ 0
    → id ≤ p.max_sources
    → is_fault (set_pending p id b) ≡ (id == p.max_sources && p.max_sources % 32 == 0)
unfolding set_pending set_pending_bit
set_pending_fault p id b words ne le = ground arith
