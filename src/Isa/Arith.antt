-- ===== src/Isa/Arith.antt =====
-- Two's complement words: the signed value of a register, sign extension, arithmetic right shifts,
-- and the casts of C between them.
use rv64_vm.Prelude.{
  ℕ, zero, suc, ◌+◌, ◌-◌, ◌/◌, ◌%◌, ◌^◌, Bool, ltb, if◌then◌else◌, u64, u32, ◌>>>◌,
}
use rv64_vm.Prelude.Int.{ℤ, pos, negsuc, ltb_ℤ}

-- `(int64_t)x` and `(int32_t)x` as integers.
unfoldable pub signed64 : ℕ → ℤ
signed64 w = if ltb w (2 ^ 63) then pos w else negsuc (2 ^ 64 - 1 - w)

unfoldable pub signed32 : ℕ → ℤ
signed32 w = let v = u32 w in if ltb v (2 ^ 31) then pos v else negsuc (2 ^ 32 - 1 - v)

-- The word of an integer: the cast of a signed value to `uint64_t`.
unfoldable pub to_word : ℤ → ℕ
to_word (pos n) = u64 n
to_word (negsuc n) = 2 ^ 64 - 1 - u64 n

-- The low 32, 16 or 8 bits of `x`, sign-extended to 64.
unfoldable pub sext32 : ℕ → ℕ
sext32 x = let v = x % 2 ^ 32 in if ltb v (2 ^ 31) then v else v + (2 ^ 64 - 2 ^ 32)

unfoldable pub sext16 : ℕ → ℕ
sext16 x = let v = x % 2 ^ 16 in if ltb v (2 ^ 15) then v else v + (2 ^ 64 - 2 ^ 16)

unfoldable pub sext8 : ℕ → ℕ
sext8 x = let v = x % 2 ^ 8 in if ltb v (2 ^ 7) then v else v + (2 ^ 64 - 2 ^ 8)

-- `(int64_t)x >> s` as a word, for s < 64, and `(int32_t)x >> s`, extended to 64 bits.
unfoldable pub sra64 : ℕ → ℕ → ℕ
sra64 x s = if ltb x (2 ^ 63) then x >>> s else 2 ^ 64 - 1 - (2 ^ 64 - 1 - x) >>> s

unfoldable pub sra32 : ℕ → ℕ → ℕ
sra32 x s = let v = u32 x in if ltb v (2 ^ 31) then v >>> s else 2 ^ 64 - 1 - (2 ^ 32 - 1 - v) >>> s

-- `(int64_t)a < (int64_t)b`
abbrev pub lt_signed : ℕ → ℕ → Bool
lt_signed a b = ltb_ℤ (signed64 a) (signed64 b)

-- Division of C on signed values: towards zero, the remainder with the dividend's sign.
unfoldable pub neg : ℕ → ℤ
neg zero = pos 0
neg (suc n) = negsuc n

unfoldable pub tdiv : ℤ → ℤ → ℤ
tdiv (pos a) (pos b) = pos (a / b)
tdiv (pos a) (negsuc b) = neg (a / suc b)
tdiv (negsuc a) (pos b) = neg (suc a / b)
tdiv (negsuc a) (negsuc b) = pos (suc a / suc b)

unfoldable pub tmod : ℤ → ℤ → ℤ
tmod (pos a) (pos b) = pos (a % b)
tmod (pos a) (negsuc b) = pos (a % suc b)
tmod (negsuc a) (pos b) = neg (suc a % b)
tmod (negsuc a) (negsuc b) = neg (suc a % suc b)
