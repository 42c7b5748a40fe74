-- ===== src/Mem/Access.antt =====
-- `AccessType`, `MemoryReturn` and the fault codes of include/defines/traps.hpp.
use rv64_vm.Prelude.{ℕ, Bool, true, false}

pub data AccessType : Type 0 where
  load store exec : AccessType

pub record MemoryReturn : Type 0 where
  pub is_success : Bool
  pub exc_code : ℕ
  pub tval : ℕ

-- `{ true, 0, 0 }`
abbrev pub success : MemoryReturn
success = record { is_success = true; exc_code = 0; tval = 0 }

abbrev pub fault : ℕ → ℕ → MemoryReturn
fault code tval = record { is_success = false; exc_code = code; tval = tval }
