-- ===== src/Tests/Controller.antt =====
-- The interrupt controller of two cores with 64 sources.
use native.Mathlib.Nat.{div-le_self}
use rv64_vm.Prelude.{
  ℕ, ◌/◌, ◌%◌, ◌^◌, ◌<◌, ◌≤◌, true, false, ◌&&◌, ◌==◌, if◌then◌else◌, ◌≡◌, ◌≢◌, ◌⊎◌, refl, arith,
  bit, some, update, bit_or,
}
use rv64_vm.Dev.Plic.{
  Plic, find_highest_pending_enabled, update_context, update_all_contexts, set_pending,
  set_pending_bit, claim_interrupt, read, write, countr_zero, consider, word_loop, words_loop,
}
use rv64_vm.Dev.Plic.Rounds.{IsSized, IsCandidate}
use rv64_vm.Dev.Plic.Search.{find_highest_best}
use rv64_vm.Dev.Plic.Updates.{IsDriven, IsConsistent}
use rv64_vm.Dev.Plic.Registers.{is_fault, set_pending-IsConsistent, set_pending_fault}

abbrev pub quiet_controller : Plic
quiet_controller = record {
  start = 0xc000000;
  max_sources = 64;
  num_contexts = 4;
  words_count = 2;
  last_irq_registered = 1;
  priorities = λ _. 1;
  pending_words = λ w. if w == 0 then 0x28 else 0;
  contexts = λ i. record {
    threshold = 0;
    enables = λ _. 0xff;
    hart_id = i / 2;
    supervisor_mode = i % 2 == 1;
    interrupt_line = false;
  };
  ips = λ _. 0;
}

bit_of_zero : (k : ℕ) → bit 0 k ≡ 0
bit_of_zero k = omega (arith, div-le_self 0 (2 ^ k))

-- Sources 3 and 5 are pending, of the same priority.
quiet-IsSized : IsSized quiet_controller
quiet-IsSized = record { pending = λ w. ground arith }

quiet-IsDriven : IsDriven quiet_controller
quiet-IsDriven = record {
  contexts = omega arith;
  wired = λ i h. record {
    hart = refl;
    mode = refl;
    wire = ground (arith, bit_of_zero 9, bit_of_zero 11);
  };
}

lowest_of_two : find_highest_pending_enabled quiet_controller 1 ≡ 3
unfolding find_highest_pending_enabled words_loop word_loop consider countr_zero
lowest_of_two = refl

some_source : find_highest_pending_enabled quiet_controller 1 ≢ 0
some_source = ground (arith, lowest_of_two)

five-IsCandidate : IsCandidate quiet_controller (quiet_controller.contexts 1) 5
five-IsCandidate = record {
  active = refl;
  source = omega arith;
  in_range = omega arith;
  above = omega arith;
}

find_highest_best_example :
    let best = find_highest_pending_enabled quiet_controller 1 in
    (best ≢ 0)
    × ((quiet_controller.priorities 5 < quiet_controller.priorities best)
        ⊎ ((quiet_controller.priorities 5 ≡ quiet_controller.priorities best) × (best ≤ 5)))
find_highest_best_example =
    find_highest_best quiet_controller 1 5 quiet-IsSized five-IsCandidate (omega arith)

abbrev with_seven : Plic
with_seven = record quiet_controller {
  pending_words = update quiet_controller.pending_words 0 (bit_or 0x28 0x80);
}

seven_pending : set_pending quiet_controller 7 true ≡ some (update_all_contexts with_seven)
unfolding set_pending set_pending_bit
seven_pending = refl

set_pending-IsConsistent_example : IsConsistent (update_all_contexts with_seven)
set_pending-IsConsistent_example =
    set_pending-IsConsistent quiet_controller (update_all_contexts with_seven) 7 true quiet-IsDriven
      (omega arith) (omega arith) seven_pending

set_pending_fault_example :
    is_fault (set_pending quiet_controller 64 true)
    ≡ (64 == quiet_controller.max_sources && quiet_controller.max_sources % 32 == 0)
set_pending_fault_example =
    set_pending_fault quiet_controller 64 true refl (omega arith) (omega arith)

-- The threshold of context 0 is raised.
abbrev limited : Plic
limited =
    update_context
      (record quiet_controller {
        contexts =
            update quiet_controller.contexts 0
              (record (quiet_controller.contexts 0) { threshold = 5 });
      })
      0

threshold_write : write quiet_controller 0xc200000 4 5 ≡ some limited
unfolding write
threshold_write = refl

abbrev claimed : Plic
claimed =
    update_context
      (record quiet_controller { pending_words = update quiet_controller.pending_words 0 0x20 }) 1

claim_read : read quiet_controller 0xc201004 4 ≡ some (3, claimed)
unfolding read claim_interrupt set_pending_bit find_highest_pending_enabled words_loop word_loop
    consider countr_zero
claim_read = refl
