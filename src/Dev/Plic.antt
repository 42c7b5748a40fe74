-- ===== src/Dev/Plic.antt =====
-- src/devices/plic.cpp and include/devices/plic.hpp: the interrupt controller.
-- A vector is a function of the index beside its size; an access to `pending_words` beyond its end is
-- a fault, `none` (the others are behind their own range tests). The `ip` registers of the cores,
-- which the controller drives, are part of the state.
pub mod Lowest
pub mod Accesses
pub mod Lines
pub mod Registers
pub mod Rounds
pub mod Search
pub mod Updates
use rv64_vm.Prelude.{
  ℕ, zero, suc, ◌+◌, ◌-◌, ◌*◌, ◌/◌, ◌%◌, ◌^◌, bit_and, bit_or, Bool, true, false, not, ◌&&◌, ◌||◌,
  ltb, leb, ◌==◌, if◌then◌else◌, Option, none, some, update, u32, not32, with_bit, nonzero,
}

pub record Context : Type 0 where
  pub threshold : ℕ
  pub enables : ℕ → ℕ
  pub hart_id : ℕ
  pub supervisor_mode : Bool
  pub interrupt_line : Bool

pub record Plic : Type 0 where
  pub start : ℕ
  pub max_sources : ℕ
  pub num_contexts : ℕ
  pub words_count : ℕ
  pub last_irq_registered : ℕ
  pub priorities : ℕ → ℕ
  pub pending_words : ℕ → ℕ
  pub contexts : ℕ → Context
  pub ips : ℕ → ℕ

-- The constructor, for `harts` cores whose `ip` registers are `ips`.
unfoldable pub init : ℕ → ℕ → ℕ → (ℕ → ℕ) → Plic
init start harts max_sources ips = record {
  start = start;
  max_sources = max_sources;
  num_contexts = harts * 2;
  words_count = (max_sources + 31) / 32;
  last_irq_registered = 1;
  priorities = λ _. 0;
  pending_words = λ _. 0;
  contexts = λ i. record {
    threshold = 0;
    enables = λ _. 0;
    hart_id = i / 2;
    supervisor_mode = i % 2 == 1;
    interrupt_line = false;
  };
  ips = ips;
}

unfoldable pub acquire_irq : Plic → ℕ × Plic
acquire_irq p =
    (p.last_irq_registered, record p { last_irq_registered = u32 (p.last_irq_registered + 1) })

-- `std::countr_zero` on a word that is not 0, by the number of bits still to look at.
unfoldable pub countr_zero : ℕ → ℕ → ℕ
countr_zero zero x = 0
countr_zero (suc n) x = let rest = countr_zero n (x / 2) in if x % 2 == 1 then 0 else suc rest

-- `best_id` and `best_priority`.
pub record Best : Type 0 where
  pub id : ℕ
  pub priority : ℕ

-- The body of the inner loop for one source.
unfoldable pub consider : Plic → ℕ → ℕ → Best → Best
consider p threshold id best =
    let prio = p.priorities id in
    if nonzero id
      && leb id p.max_sources
      && ltb threshold prio
      && (ltb best.priority prio || (prio == best.priority && ltb id best.id))
    then record { id = id; priority = prio }
    else best

-- `while(active) { … active &= active - 1; }`; 32 rounds are enough for a word.
unfoldable pub word_loop : Plic → ℕ → ℕ → ℕ → ℕ → Best → Best
word_loop p threshold zero base active best = best
word_loop p threshold (suc fuel) base active best =
    let rest =
      word_loop p threshold fuel base (bit_and active (active - 1))
        (consider p threshold (base + countr_zero 32 active) best) in
    if active == 0 then best else rest

-- `for(word = 0; word < word_count; ++word)` from `word` on, with `left` rounds to go
unfoldable pub words_loop : Plic → Context → ℕ → ℕ → Best → Best
words_loop p ctx word zero best = best
words_loop p ctx word (suc left) best = words_loop p ctx (word + 1) left (
    word_loop p ctx.threshold 32 (word * 32) (bit_and (p.pending_words word) (ctx.enables word))
      best)

unfoldable pub find_highest_pending_enabled : Plic → ℕ → ℕ
find_highest_pending_enabled p ctx_idx =
    (words_loop p (p.contexts ctx_idx) 0 ((p.max_sources + 31) / 32)
      (record { id = 0; priority = 0 })).id

unfoldable pub signal_cpu_interrupt : Plic → ℕ → Bool → Bool → Plic
signal_cpu_interrupt p hart_id supervisor_mode level =
    if leb 64 hart_id
    then p
    else let line : ℕ = if supervisor_mode then 9 else 11 in
      record p {
        ips = update p.ips hart_id (with_bit (p.ips hart_id) line (if level then 1 else 0));
      }

unfoldable pub update_context : Plic → ℕ → Plic
update_context p ctx_idx =
    let ctx = p.contexts ctx_idx in
    let should_raise = nonzero (find_highest_pending_enabled p ctx_idx) in
    let p' = record p {
      contexts = update p.contexts ctx_idx (record ctx { interrupt_line = should_raise });
    } in
    if should_raise
    then (if ctx.interrupt_line
        then p
        else signal_cpu_interrupt p' ctx.hart_id ctx.supervisor_mode true)
    else (if ctx.interrupt_line
        then signal_cpu_interrupt p' ctx.hart_id ctx.supervisor_mode false
        else p)

-- `for(i = 0; i < num_contexts; ++i)` from `i` on
unfoldable pub update_from : ℕ → ℕ → Plic → Plic
update_from i zero p = p
update_from i (suc left) p = update_from (i + 1) left (update_context p i)

unfoldable pub update_all_contexts : Plic → Plic
update_all_contexts p = update_from 0 p.num_contexts p

-- `pending_words[id / 32] |= …` or `&= ~…`
unfoldable pub set_pending_bit : Plic → ℕ → Bool → Option Plic
set_pending_bit p id pending =
    if not (ltb (id / 32) p.words_count)
    then none
    else let w = p.pending_words (id / 32) in
      let mask = 2 ^ (id % 32) in
      some (record p {
        pending_words =
            update p.pending_words (id / 32)
              (if pending then bit_or w mask else bit_and w (not32 mask));
      })

unfoldable pub set_pending : Plic → ℕ → Bool → Option Plic
set_pending p source_id pending =
    if source_id == 0 || ltb p.max_sources source_id
    then some p
    else elim (set_pending_bit p source_id pending) [
      | none ↦ none
      | some p' ↦ some (update_all_contexts p')
    ]

unfoldable pub claim_interrupt : Plic → ℕ → Option (ℕ × Plic)
claim_interrupt p ctx_idx =
    let id = find_highest_pending_enabled p ctx_idx in
    if not (nonzero id) then some (id, p) else elim (set_pending_bit p id false) [
      | none ↦ none
      | some p' ↦ some (id, update_context p' ctx_idx)
    ]

unfoldable pub complete_interrupt : Plic → ℕ → ℕ → Option Plic
complete_interrupt p ctx_idx id =
    if id == 0 || ltb p.max_sources id then some p else elim (set_pending_bit p id false) [
      | none ↦ none
      | some p' ↦ some (update_context p' ctx_idx)
    ]

-- The offset of a register, `addr - start` on `uint64_t`.
abbrev pub offset_of : Plic → ℕ → ℕ
offset_of p addr = (addr + 2 ^ 64 - p.start) % 2 ^ 64

-- Does an offset lie in `[lo, hi)`?
abbrev pub between : ℕ → ℕ → ℕ → Bool
between lo hi x = leb lo x && ltb x hi

abbrev pub in_contexts : Plic → ℕ → Bool
in_contexts p off = between 0x200000 (0x200000 + p.num_contexts * 0x1000) off

-- `size` is in bytes: only 32-bit accesses are served.
unfoldable pub read : Plic → ℕ → ℕ → Option (ℕ × Plic)
read p addr size =
    let off = offset_of p addr in
    if not (size == 4)
    then some (0, p)
    else if ltb off 0x1000
    then (if leb 1 (off / 4) && leb (off / 4) p.max_sources
        then some (p.priorities (off / 4), p)
        else some (0, p))
    else if between 0x1000 0x1080 off
    then (if ltb ((off - 0x1000) / 4) p.words_count
        then some (p.pending_words ((off - 0x1000) / 4), p)
        else some (0, p))
    else if between 0x2000 0x200000 off
    then (let ctx_idx = (off - 0x2000) / 0x80 in
        let word = (off - 0x2000) % 0x80 / 4 in
        if ltb ctx_idx p.num_contexts && ltb word p.words_count
        then some ((p.contexts ctx_idx).enables word, p)
        else some (0, p))
    else if in_contexts p off
    then (let ctx_idx = (off - 0x200000) / 0x1000 in
        let sub = (off - 0x200000) % 0x1000 in
        if sub == 0
        then some ((p.contexts ctx_idx).threshold, p)
        else if sub == 4
        then claim_interrupt p ctx_idx
        else some (0, p))
    else some (0, p)

unfoldable pub write : Plic → ℕ → ℕ → ℕ → Option Plic
write p addr size value =
    let off = offset_of p addr in
    if not (size == 4)
    then some p
    else if ltb off 0x1000
    then (if leb 1 (off / 4) && leb (off / 4) p.max_sources
        then some (
            update_all_contexts
              (record p { priorities = update p.priorities (off / 4) (value % 2 ^ 31) }))
        else some p)
    else if between 0x1000 0x1080 off
    then some p
    else if between 0x2000 0x200000 off
    then (let i = (off - 0x2000) / 0x80 in
        let word = (off - 0x2000) % 0x80 / 4 in
        let ctx = p.contexts i in
        if ltb i p.num_contexts && ltb word p.words_count
        then some (
            update_context
              (record p {
                contexts =
                    update p.contexts i
                      (record ctx { enables = update ctx.enables word (u32 value) });
              })
              i)
        else some p)
    else if in_contexts p off
    then (let i = (off - 0x200000) / 0x1000 in
        let sub = (off - 0x200000) % 0x1000 in
        let ctx = p.contexts i in
        if sub == 0
        then some (
            update_context
              (record p {
                contexts = update p.contexts i (record ctx { threshold = value % 2 ^ 31 });
              })
              i)
        else if sub == 4
        then complete_interrupt p i (u32 value)
        else some p)
    else some p
