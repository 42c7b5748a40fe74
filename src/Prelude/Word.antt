-- ===== src/Prelude/Word.antt =====
-- Fixed widths as native numbers: casts, shifts and fields of C.
use Prim.Native.Nat.{ℕ, suc, ◌+◌, ◌-◌, ◌*◌, ◌/◌, ◌%◌, ◌^◌}
use rv64_vm.Prelude.Tests.{◌==◌}
use mathlib.Core.Bool.{Bool, not}

abbrev pub u8 : ℕ → ℕ
u8 n = n % 2 ^ 8

abbrev pub u16 : ℕ → ℕ
u16 n = n % 2 ^ 16

abbrev pub u32 : ℕ → ℕ
u32 n = n % 2 ^ 32

abbrev pub u64 : ℕ → ℕ
u64 n = n % 2 ^ 64

-- `~x` on `uint32_t` and `uint64_t`.
abbrev pub not32 : ℕ → ℕ
not32 x = 2 ^ 32 - 1 - x

abbrev pub not64 : ℕ → ℕ
not64 x = 2 ^ 64 - 1 - x

infixl 75 ◌<<<◌ ◌>>>◌
abbrev pub ◌<<<◌ : ℕ → ℕ → ℕ
x <<< k = x * 2 ^ k

abbrev pub ◌>>>◌ : ℕ → ℕ → ℕ
x >>> k = x / 2 ^ k

-- bit `k` of `x`
abbrev pub bit : ℕ → ℕ → ℕ
bit x k = x / 2 ^ k % 2

-- `w` bits of `x` from bit `lo` on
abbrev pub field : ℕ → ℕ → ℕ → ℕ
field x lo w = x / 2 ^ lo % 2 ^ w

-- `x` with bit `k` set to `b`
abbrev pub with_bit : ℕ → ℕ → ℕ → ℕ
with_bit x k b = x / 2 ^ suc k * 2 ^ suc k + b * 2 ^ k + x % 2 ^ k

-- `if(x)` on a number
abbrev pub nonzero : ℕ → Bool
nonzero x = not (x == 0)
