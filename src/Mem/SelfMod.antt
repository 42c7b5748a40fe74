-- ===== src/Mem/SelfMod.antt =====
-- include/self_mod.hpp: the pages that were executed, and the epoch that a store to live code bumps.
-- The two vectors grow on demand and a page beyond their end counts as unmarked, so each is a
-- function on all pages; `g_code_page_gen[page]` beyond the end is `none`.
use rv64_vm.Prelude.{
  ℕ, ◌+◌, Bool, true, false, Option, none, some, ◌==◌, ltb, if◌then◌else◌, update, u64, ◌>>>◌,
}

pub record SelfMod : Type 0 where
  pub epoch : ℕ
  pub executed_pages : ℕ → Bool
  pub code_page_gen : ℕ → Option ℕ

unfoldable pub was_page_executed : SelfMod → ℕ → Bool
was_page_executed s phys = s.executed_pages (phys >>> 12)

unfoldable pub mark_page_executed : SelfMod → ℕ → SelfMod
mark_page_executed s phys = record s { executed_pages = update s.executed_pages (phys >>> 12) true }

-- `if(page >= g_code_page_gen.size()) g_code_page_gen.resize(page + 8192, 0)`
abbrev pub grown : (ℕ → Option ℕ) → ℕ → ℕ → Option ℕ
grown gens page i = elim (gens page) [
  | some gen ↦ gens i
  | none ↦ elim (gens i) [
    | some gen ↦ some gen
    | none ↦ if ltb i (page + 8192) then some 0 else none
  ]
]

unfoldable pub mark_page_code : SelfMod → ℕ → SelfMod
mark_page_code s phys =
    let page = phys >>> 12 in
    record s {
      executed_pages = update s.executed_pages page true;
      code_page_gen = update (grown s.code_page_gen page) page (some s.epoch);
    }

-- Does the page of `phys` host code of the current epoch?
abbrev pub hosts_code : SelfMod → ℕ → Bool
hosts_code s phys = elim (s.code_page_gen (phys >>> 12)) [
  | none ↦ false
  | some gen ↦ gen == s.epoch
]

unfoldable pub smc_store_hit : SelfMod → ℕ → SelfMod
smc_store_hit s phys =
    if s.executed_pages (phys >>> 12)
    then if hosts_code s phys
      then record s { epoch = u64 (s.epoch + 1) }
      else record s { executed_pages = update s.executed_pages (phys >>> 12) false }
    else s
