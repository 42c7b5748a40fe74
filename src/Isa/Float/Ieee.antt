-- ===== src/Isa/Float/Ieee.antt =====
-- The functions of `<cmath>` and the comparisons that src/sets/rv64f.cpp and src/sets/rv64d.cpp use
-- on floats and doubles, on bit patterns.
use rv64_vm.Prelude.{ℕ, ◌+◌, ◌-◌, ◌%◌, Bool, false, ◌&&◌, ◌||◌, not, ◌==◌, if◌then◌else◌, ltb, leb}

-- A binary format: the weight of the sign bit, infinity, the bit that makes a NaN quiet and the
-- least normal number. Every pattern above infinity is a NaN, the sign left out.
pub record Format : Type 0 where
  pub sign : ℕ
  pub infinity : ℕ
  pub quiet : ℕ
  pub least_normal : ℕ

abbrev pub single : Format
single = record {
  sign = 0x80000000;
  infinity = 0x7f800000;
  quiet = 0x00400000;
  least_normal = 0x00800000;
}

abbrev pub double : Format
double = record {
  sign = 0x8000000000000000;
  infinity = 0x7ff0000000000000;
  quiet = 0x0008000000000000;
  least_normal = 0x0010000000000000;
}

abbrev pub magnitude : Format → ℕ → ℕ
magnitude fmt x = x % fmt.sign

abbrev pub signbit : Format → ℕ → Bool
signbit fmt x = leb (fmt.sign) x

abbrev pub is_nan : Format → ℕ → Bool
is_nan fmt x = ltb (fmt.infinity) (magnitude fmt x)

abbrev pub is_inf : Format → ℕ → Bool
is_inf fmt x = magnitude fmt x == fmt.infinity

abbrev pub is_zero : Format → ℕ → Bool
is_zero fmt x = magnitude fmt x == 0

abbrev pub is_subnormal : Format → ℕ → Bool
is_subnormal fmt x = ltb (magnitude fmt x) (fmt.least_normal)

abbrev pub negate : Format → ℕ → ℕ
negate fmt x = if signbit fmt x then x - fmt.sign else x + fmt.sign

abbrev pub copysign : Format → ℕ → ℕ → ℕ
copysign fmt x y = if signbit fmt y then magnitude fmt x + fmt.sign else magnitude fmt x

-- `==`, `isless` and `islessequal`: false on NaNs, and the two zeros are equal.
abbrev pub is_equal : Format → ℕ → ℕ → Bool
is_equal fmt x y =
    not (is_nan fmt x) && not (is_nan fmt y) && (x == y || (is_zero fmt x && is_zero fmt y))

abbrev pub is_less : Format → ℕ → ℕ → Bool
is_less fmt x y =
    not (is_nan fmt x)
    && not (is_nan fmt y)
    && (if signbit fmt x
        then (if signbit fmt y
            then ltb (magnitude fmt y) (magnitude fmt x)
            else not (is_zero fmt x && is_zero fmt y))
        else if signbit fmt y
        then false
        else ltb (magnitude fmt x) (magnitude fmt y))

abbrev pub is_less_equal : Format → ℕ → ℕ → Bool
is_less_equal fmt x y = is_less fmt x y || is_equal fmt x y
