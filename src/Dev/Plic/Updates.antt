-- ===== src/Dev/Plic/Updates.antt =====
-- What keeps the lines up to date: `update_all_contexts`, `set_pending` and the registers.
use rv64_vm.Prelude.{
  ℕ, zero, suc, ◌+◌, ◌/◌, ◌≤◌, ◌<◌, bit, ◌≡◌, inl, inr, refl, ap, sym, ◌∙◌, arith, ◌==◌, nonzero,
  Bool-cases,
}
use rv64_vm.Dev.Plic.{
  Plic, init, find_highest_pending_enabled, signal_cpu_interrupt, update_context, update_from,
  update_all_contexts,
}
use rv64_vm.Dev.Plic.Lines.{
  IsWired, update_context-IsWired, find-update_context, update_context_other, update_context_line,
}

-- The loop over the contexts from `i` on. What it leaves as it was, and the lines that it sets.
update_from-find :
    (i left : ℕ) (p : Plic) (j : ℕ)
    → find_highest_pending_enabled (update_from i left p) j ≡ find_highest_pending_enabled p j
unfolding update_from
update_from-find i zero p j = refl
update_from-find i (suc left) p j =
    update_from-find (i + 1) left (update_context p i) j ∙ find-update_context p i j

update_from-IsWired :
    (n i left : ℕ) (p : Plic)
    → n ≤ 128
    → i + left ≤ n
    → ((j : ℕ) → j < n → IsWired p j)
    → (j : ℕ) → j < n
    → IsWired (update_from i left p) j
unfolding update_from
update_from-IsWired n i zero p b le w j hj = w j hj
update_from-IsWired n i (suc left) p b le w j hj =
    update_from-IsWired n (i + 1) left (update_context p i) b (omega arith)
      (λ k hk. update_context-IsWired p i k (omega arith) (w i (omega arith)) (w k hk)) j hj

update_from_before :
    (i left : ℕ) (p : Plic) (j : ℕ)
    → j < i
    → ((update_from i left p).contexts j).interrupt_line ≡ (p.contexts j).interrupt_line
unfolding update_from
update_from_before i zero p j lt = refl
update_from_before i (suc left) p j lt =
    update_from_before (i + 1) left (update_context p i) j (omega arith)
    ∙ update_context_other p i j (omega arith)

update_from_line :
    (i left : ℕ) (p : Plic) (j : ℕ)
    → i ≤ j
    → j < i + left
    → ((update_from i left p).contexts j).interrupt_line
      ≡ nonzero (find_highest_pending_enabled p j)
unfolding update_from
update_from_line i zero p j le lt = absurd (omega arith)
update_from_line i (suc left) p j le lt = elim (Bool-cases (i == j)) [
  | inl this ↦
      let e : j ≡ i = ground arith in
      rw e (
        update_from_before (i + 1) left (update_context p i) i (omega arith)
        ∙ update_context_line p i)
  | inr other ↦
      update_from_line (i + 1) left (update_context p i) j (ground arith) (omega arith)
      ∙ ap nonzero (find-update_context p i j)
]

pub num_contexts-update_context :
    (p : Plic) (i : ℕ) → (update_context p i).num_contexts ≡ p.num_contexts
unfolding update_context signal_cpu_interrupt
num_contexts-update_context p i = ground arith

num_contexts-update_from :
    (i left : ℕ) (p : Plic) → (update_from i left p).num_contexts ≡ p.num_contexts
unfolding update_from
num_contexts-update_from i zero p = refl
num_contexts-update_from i (suc left) p =
    num_contexts-update_from (i + 1) left (update_context p i) ∙ num_contexts-update_context p i

-- At most 64 cores, and the `ip` bit of each context is its line.
pub record IsDriven (p : Plic) : Type 0 where
  pub contexts : p.num_contexts ≤ 128
  pub wired : (i : ℕ) → i < p.num_contexts → IsWired p i

-- And each line tells whether the arbitration finds a source for the context.
pub record IsConsistent (p : Plic) : Type 0 where
  pub driven : IsDriven p
  pub lines :
      (i : ℕ)
      → i < p.num_contexts
      → (p.contexts i).interrupt_line ≡ nonzero (find_highest_pending_enabled p i)

pub update_all_contexts-IsConsistent :
    (p : Plic) → IsDriven p → IsConsistent (update_all_contexts p)
unfolding update_all_contexts
update_all_contexts-IsConsistent p d =
    let n = num_contexts-update_from 0 p.num_contexts p in
    record {
      driven = record {
        contexts = omega (arith, n, d.contexts);
        wired = λ i h.
            update_from-IsWired p.num_contexts 0 p.num_contexts p d.contexts (omega arith) d.wired i
              (omega (arith, n));
      };
      lines = λ i h.
          update_from_line 0 p.num_contexts p i (omega arith) (omega (arith, n))
          ∙ ap nonzero (sym (update_from-find 0 p.num_contexts p i));
    }

-- The constructor, for at most 64 cores whose external interrupts are not pending, gives a controller
-- where the `ip` bit of each context is its line.
pub init-IsDriven :
    (start harts max_sources : ℕ) (ips : ℕ → ℕ)
    → harts ≤ 64
    → ((hart : ℕ) → bit (ips hart) 9 ≡ 0)
    → ((hart : ℕ) → bit (ips hart) 11 ≡ 0)
    → IsDriven (init start harts max_sources ips)
unfolding init
init-IsDriven start harts max_sources ips few s m = record {
  contexts = omega arith;
  wired = λ i h. record { hart = refl; mode = refl; wire = ground (arith, s (i / 2), m (i / 2)) };
}
