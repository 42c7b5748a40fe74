-- ===== src/Isa/Zbb/Rotate.antt =====
-- src/sets/zbb.cpp: rotations undo each other.
use native.Mathlib.Nat.{
  pow-succ', one-mul, mul_assoc, mul_comm, one-le-pow, add-mul-div_right, add-mul-mod_self_right,
  add-mul, suc-mul, mul-le-mul_right, div-le_self, div-eq_of_lt, div-lt_iff_lt-mul, mod-lt,
  mod-eq_of_lt, mod-add-div',
}
use rv64_vm.Prelude.{
  ℕ, zero, suc, refl, ◌+◌, ◌-◌, ◌*◌, ◌/◌, ◌%◌, ◌^◌, ◌<◌, ◌≤◌, bit_or, ◌≡◌, ◌≢◌, ap, sym, ◌∙◌, arith,
  u64, ==_self, ==_ne, ◌<<<◌, ◌>>>◌,
}
use rv64_vm.Bits.Join.{bit_or-shifted}
use rv64_vm.Bits.Masks.{bit_or_comm}
use rv64_vm.Hart.State.{Hart, InstructionData}
use rv64_vm.Isa.Rv64i.Alu.{rs1, rs2}
use rv64_vm.Isa.Zbb.{exec_rol, exec_ror}

pow-add : (a b : ℕ) → 2 ^ (a + b) ≡ 2 ^ a * 2 ^ b
pow-add zero b = (rw (let e : 0 + b ≡ b = omega arith in e) (omega (arith, one-mul (2 ^ b))))
pow-add (suc a) b =
    rw
      (
        (let e : suc a + b ≡ suc (a + b) = omega arith in e),
        pow-succ' 2 (a + b),
        pow-succ' 2 a,
        pow-add a b,
      )
      (sym (mul_assoc 2 (2 ^ a) (2 ^ b)))

-- `x`, of a + s bits, with its `s` high bits and its `a` low bits exchanged.
rotated : ℕ → ℕ → ℕ → ℕ
rotated a s x = x / 2 ^ a + x % 2 ^ a * 2 ^ s

module _ (a s x : ℕ) (all : a + s ≡ 64) (lt : x < 2 ^ 64) where
  product : 2 ^ a * 2 ^ s ≡ 2 ^ 64
  product = sym (pow-add a s) ∙ ap (λ (n : ℕ). 2 ^ n) all

  high-lt : x / 2 ^ a < 2 ^ s
  high-lt =
      (div-lt_iff_lt-mul (one-le-pow a 2 (omega arith))).1
        (omega (arith, product, mul_comm (2 ^ s) (2 ^ a)))

  low-lt : x % 2 ^ a < 2 ^ a
  low-lt = mod-lt x (one-le-pow a 2 (omega arith))

  low_part-lt : x % 2 ^ a * 2 ^ s + 2 ^ s ≤ 2 ^ 64
  low_part-lt =
      let whole : suc (x % 2 ^ a) * 2 ^ s ≤ 2 ^ a * 2 ^ s = mul-le-mul_right (2 ^ s) low-lt in
      omega (arith, product, whole, suc-mul (x % 2 ^ a) (2 ^ s), one-le-pow s 2)

  -- `x << s` keeps the low part.
  shifted : u64 (x <<< s) ≡ x % 2 ^ a * 2 ^ s
  shifted =
      let parts =
        sym (ap (λ (t : ℕ). t * 2 ^ s) (mod-add-div' x (2 ^ a)))
        ∙ (add-mul (x % 2 ^ a) (x / 2 ^ a * 2 ^ a) (2 ^ s)
            ∙ ap (λ (t : ℕ). x % 2 ^ a * 2 ^ s + t)
                (mul_assoc (x / 2 ^ a) (2 ^ a) (2 ^ s) ∙ ap (λ (t : ℕ). x / 2 ^ a * t) product)) in
      omega (arith, parts, low_part-lt, one-le-pow s 2)

  high_rotated : rotated a s x / 2 ^ s ≡ x % 2 ^ a
  unfolding rotated
  high_rotated =
      add-mul-div_right (x / 2 ^ a) (x % 2 ^ a) (one-le-pow s 2 (omega arith))
      ∙ omega (arith, div-eq_of_lt high-lt)

  low_rotated : rotated a s x % 2 ^ s ≡ x / 2 ^ a
  unfolding rotated
  low_rotated = add-mul-mod_self_right (x / 2 ^ a) (x % 2 ^ a) (2 ^ s) ∙ mod-eq_of_lt high-lt

  rotated-lt : rotated a s x < 2 ^ 64
  unfolding rotated
  rotated-lt = omega (arith, high-lt, low_part-lt)

  rotated-rotated : rotated s a (rotated a s x) ≡ x
  unfolding rotated
  rotated-rotated = rw (high_rotated, low_rotated) (mod-add-div' x (2 ^ a))

  joined_right : bit_or (x >>> a) (u64 (x <<< s)) ≡ rotated a s x
  unfolding rotated
  joined_right = rw shifted (bit_or-shifted s (x % 2 ^ a) (x / 2 ^ a) high-lt)

  joined_left : bit_or (u64 (x <<< s)) (x >>> a) ≡ rotated a s x
  joined_left =
      bit_or_comm (u64 (x <<< s)) (x >>> a) (omega arith) (omega (arith, div-le_self x (2 ^ a)))
      ∙ joined_right

module _ (over : ℕ → ℕ) (h : Hart) (i : InstructionData) (lt : rs1 h i < 2 ^ 64)
    (amount : rs2 h i % 64 ≢ 0) where
  exec_rol-rotated :
      (exec_rol over h i).0.gpr i.rd ≡ rotated (64 - rs2 h i % 64) (rs2 h i % 64) (rs1 h i)
  unfolding exec_rol
  exec_rol-rotated =
      rw
        (
          ==_self i.rd,
          ==_ne (rs2 h i % 64) 64 (λ e. omega arith),
          ==_ne (64 - rs2 h i % 64) 64 (λ e. amount (omega arith)),
        )
        (joined_left (64 - rs2 h i % 64) (rs2 h i % 64) (rs1 h i) (omega arith) lt)

  exec_ror-rotated :
      (exec_ror over h i).0.gpr i.rd ≡ rotated (rs2 h i % 64) (64 - rs2 h i % 64) (rs1 h i)
  unfolding exec_ror
  exec_ror-rotated =
      rw
        (
          ==_self i.rd,
          ==_ne (rs2 h i % 64) 64 (λ e. omega arith),
          ==_ne (64 - rs2 h i % 64) 64 (λ e. amount (omega arith)),
        )
        (joined_right (rs2 h i % 64) (64 - rs2 h i % 64) (rs1 h i) (omega arith) lt)

exec_rol_frame :
    (over : ℕ → ℕ) (h : Hart) (i : InstructionData)
    → i.rd ≢ i.rs2
    → (exec_rol over h i).0.gpr i.rs2 ≡ rs2 h i
unfolding exec_rol
exec_rol_frame over h i other = rw (==_ne i.rd i.rs2 other) refl

-- ROR by the amount of an ROL before it, not a multiple of 64, gives back the register that was rotated,
-- whatever the host does for a shift by 64.
pub exec_ror-exec_rol :
    (over : ℕ → ℕ) (h : Hart) (i j : InstructionData)
    → rs1 h i < 2 ^ 64
    → rs2 h i % 64 ≢ 0
    → i.rd ≢ i.rs2
    → j.rs1 ≡ i.rd
    → j.rs2 ≡ i.rs2
    → (exec_ror over (exec_rol over h i).0 j).0.gpr j.rd ≡ rs1 h i
exec_ror-exec_rol over h i j lt amount other same1 same2 =
    exec_ror-rotated over (exec_rol over h i).0 j (rw (same1, turned) small)
      (rw (same2, kept) amount)
    ∙ rw (same1, same2, kept, turned)
        (rotated-rotated (64 - rs2 h i % 64) (rs2 h i % 64) (rs1 h i) (omega arith) lt)
  where
    turned : (exec_rol over h i).0.gpr i.rd ≡ rotated (64 - rs2 h i % 64) (rs2 h i % 64) (rs1 h i)
    turned = exec_rol-rotated over h i lt amount

    small : rotated (64 - rs2 h i % 64) (rs2 h i % 64) (rs1 h i) < 2 ^ 64
    small = rotated-lt (64 - rs2 h i % 64) (rs2 h i % 64) (rs1 h i) (omega arith) lt

    kept : (exec_rol over h i).0.gpr i.rs2 ≡ rs2 h i
    kept = exec_rol_frame over h i other
