-- ===== src/Mem/Exc.antt =====
-- The exception codes of include/defines/traps.hpp.
use rv64_vm.Prelude.{ℕ}

abbrev pub inst_addr_misaligned : ℕ
inst_addr_misaligned = 0

abbrev pub inst_access_fault : ℕ
inst_access_fault = 1

abbrev pub illegal_instruction : ℕ
illegal_instruction = 2

abbrev pub breakpoint : ℕ
breakpoint = 3

abbrev pub load_access_fault : ℕ
load_access_fault = 5

abbrev pub store_access_fault : ℕ
store_access_fault = 7

abbrev pub env_call_from_u : ℕ
env_call_from_u = 8

abbrev pub env_call_from_s : ℕ
env_call_from_s = 9

abbrev pub env_call_from_m : ℕ
env_call_from_m = 11

abbrev pub inst_page_fault : ℕ
inst_page_fault = 12

abbrev pub load_page_fault : ℕ
load_page_fault = 13

abbrev pub store_page_fault : ℕ
store_page_fault = 15
