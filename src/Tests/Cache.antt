-- ===== src/Tests/Cache.antt =====
-- The translation cache on one mapping.
use rv64_vm.Prelude.{ℕ, ◌≤◌, true, false, none, ◌≡◌, refl, arith}
use rv64_vm.Mem.Access.{store}
use rv64_vm.Mem.SelfMod.{SelfMod, was_page_executed, mark_page_executed}
use rv64_vm.Mem.Tlb.{lookup, insert}
use rv64_vm.Mem.Tlb.Refill.{leaf_pa, lookup-insert_executed}
use rv64_vm.Tests.Base.{empty_tlb}

-- The page at 0x80005000 was executed.
abbrev marked : SelfMod
marked =
    mark_page_executed
      (record { epoch = 0; executed_pages = λ _. false; code_page_gen = λ _. none }) 0x80005000

marked_executed :
    was_page_executed marked (leaf_pa marked empty_tlb 0x1008 0x80005000 12 0x3f 1 false 0) ≡ true
unfolding was_page_executed mark_page_executed
marked_executed = refl

lookup-insert_executed_example :
    lookup
      (insert marked empty_tlb 0x1008 0x80005000 12 0x3f 1 false 0)
      0x1008
      store
      1
      0
      false
      false
    ≡ none
lookup-insert_executed_example =
    lookup-insert_executed marked empty_tlb 0x1008 0x80005000 12 0x3f 1 false 0 0 false false
      marked_executed

all_old : (i : ℕ) → (empty_tlb.entries i).generation ≤ empty_tlb.generation
all_old i = omega arith
