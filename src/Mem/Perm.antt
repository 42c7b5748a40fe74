-- ===== src/Mem/Perm.antt =====
-- `enum class TLBPermissions` of include/tlb.hpp.
use rv64_vm.Prelude.{ℕ}

abbrev pub r : ℕ
r = 1

abbrev pub w : ℕ
w = 2

abbrev pub x : ℕ
x = 4

abbrev pub u : ℕ
u = 8

abbrev pub a : ℕ
a = 16

abbrev pub d : ℕ
d = 32
