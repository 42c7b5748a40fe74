-- ===== src/Decode/Pattern/Matching.antt =====
-- A registered pattern accepts exactly the words that agree with it character by character.
use native.Mathlib.Nat.{pow-succ'}
use rv64_vm.Prelude.{
  ℕ, suc, ◌+◌, ◌*◌, ◌^◌, ◌<◌, bit_and, bit_or, bit, List, [], ◌∷◌, Bool, true, false, ◌&&◌, ◌==◌,
  if◌then◌else◌, ◌≡◌, refl, ◌∙◌, sym, ap, ◌⊎◌, inl, inr, Bool-cases, arith,
}
use mathlib.Core.List.{reverse}
use native.Mathlib.Numerals.{add-one}
use rv64_vm.Bits.{bit_and-lt_right, bit_and-zero}
use rv64_vm.Bits.Join.{bit_or_top, bit_and_top}
use rv64_vm.Decode.Pattern.{Pattern, put_char, put_chars, register_instr, fits}

&&-true : (b : Bool) → (b && true) ≡ b
&&-true true = refl
&&-true false = refl

&&_assoc : (a b c : Bool) → ((a && b) && c) ≡ (a && (b && c))
&&_assoc true b c = refl
&&_assoc false b c = refl

bit-cases : (x i : ℕ) → (bit x i ≡ 0) ⊎ (bit x i ≡ 1)
bit-cases x i = omega arith

-- What one character asks of bit `i` of an instruction: '1' and '0' ask for that bit.
abbrev pub char_fits : ℕ → ℕ → ℕ → Bool
char_fits inst i c =
    if c == b'1' then bit inst i == 1 else if c == b'0' then bit inst i == 0 else true

-- The characters from bit `i` upwards.
abbrev pub chars_fit : ℕ → ℕ → List ℕ → Bool
chars_fit inst i [] = true
chars_fit inst i (c ∷ cs) = char_fits inst i c && chars_fit inst (i + 1) cs

-- Only bits below `i` have been set so far.
record IsBelow (i : ℕ) (p : Pattern) : Type 0 where
  mask : p.mask < 2 ^ i
  match : p.match < 2 ^ i

put_char-IsBelow : (i c : ℕ) (p : Pattern) → IsBelow i p → IsBelow (suc i) (put_char i c p)
unfolding put_char
put_char-IsBelow i c p v = one (c == b'1') (c == b'0')
  where
    mask_fits : bit_or p.mask (2 ^ i) < 2 ^ suc i
    mask_fits = omega (arith, bit_or_top i p.mask v.mask, pow-succ' 2 i, v.mask)

    one :
        (a b : Bool)
        → IsBelow (suc i) (
            if a
            then record { mask = bit_or p.mask (2 ^ i); match = bit_or p.match (2 ^ i) }
            else if b
            then record p { mask = bit_or p.mask (2 ^ i) }
            else p)
    one true b = record {
      mask = mask_fits;
      match = omega (arith, bit_or_top i p.match v.match, pow-succ' 2 i, v.match);
    }
    one false true = record { mask = mask_fits; match = omega (arith, pow-succ' 2 i, v.match) }
    one false false = record {
      mask = omega (arith, pow-succ' 2 i, v.mask);
      match = omega (arith, pow-succ' 2 i, v.match);
    }

-- The masked word with one bit more in the mask.
module _ (i inst : ℕ) (p : Pattern) (v : IsBelow i p) where
  wider_mask : bit_and inst (bit_or p.mask (2 ^ i)) ≡ bit_and inst p.mask + bit inst i * 2 ^ i
  wider_mask = rw (bit_or_top i p.mask v.mask) (bit_and_top i inst p.mask v.mask)

  fits_one :
      (bit_and inst (bit_or p.mask (2 ^ i)) == bit_or p.match (2 ^ i))
      ≡ (fits p inst && bit inst i == 1)
  fits_one = elim (bit-cases inst i) [
    | inl z ↦ ground (
      arith,
      wider_mask,
      z,
      bit_or_top i p.match v.match,
      v.match,
      bit_and-lt_right i inst p.mask v.mask,
      ap (λ (t : ℕ). t * 2 ^ i) z,
    )
    | inr o ↦ ground (
      arith,
      wider_mask,
      o,
      bit_or_top i p.match v.match,
      v.match,
      bit_and-lt_right i inst p.mask v.mask,
      ap (λ (t : ℕ). t * 2 ^ i) o,
    )
  ]

  fits_zero : (bit_and inst (bit_or p.mask (2 ^ i)) == p.match) ≡ (fits p inst && bit inst i == 0)
  fits_zero = elim (bit-cases inst i) [
    | inl z ↦ ground (
      arith,
      wider_mask,
      z,
      v.match,
      bit_and-lt_right i inst p.mask v.mask,
      ap (λ (t : ℕ). t * 2 ^ i) z,
    )
    | inr o ↦ ground (
      arith,
      wider_mask,
      o,
      v.match,
      bit_and-lt_right i inst p.mask v.mask,
      ap (λ (t : ℕ). t * 2 ^ i) o,
    )
  ]

fits-put_char :
    (i c inst : ℕ) (p : Pattern)
    → IsBelow i p
    → fits (put_char i c p) inst ≡ (fits p inst && char_fits inst i c)
unfolding put_char
fits-put_char i c inst p v = elim (Bool-cases (c == b'1')) [
  | inl one ↦ rw one (fits_one i inst p v)
  | inr other ↦ rw other (elim (Bool-cases (c == b'0')) [
    | inl zero ↦ rw zero (fits_zero i inst p v)
    | inr star ↦ rw star (sym (&&-true _))
  ])
]

fits-put_chars :
    (cs : List ℕ) (i inst : ℕ) (p : Pattern)
    → IsBelow i p
    → fits (put_chars i cs p) inst ≡ (fits p inst && chars_fit inst i cs)
unfolding put_chars
fits-put_chars [] i inst p v = sym (&&-true _)
fits-put_chars (c ∷ cs) i inst p v =
    fits-put_chars cs (i + 1) inst (put_char i c p) (rw add-one (put_char-IsBelow i c p v))
    ∙ ap (λ b. b && chars_fit inst (i + 1) cs) (fits-put_char i c inst p v)
    ∙ &&_assoc (fits p inst) _ _

-- A word passes the mask and match of a registered pattern exactly when each of its bits is the one
-- that the pattern's character asks for, the last character standing for bit 0.
pub fits-register_instr :
    (pattern_text : List ℕ) (inst : ℕ)
    → fits (register_instr pattern_text) inst ≡ chars_fit inst 0 (reverse pattern_text)
unfolding register_instr
fits-register_instr text inst =
    let none_yet : (bit_and inst 0 == 0) ≡ true = ground (arith, bit_and-zero inst) in
    fits-put_chars (reverse text) 0 inst _ (record { mask = omega arith; match = omega arith })
    ∙ ap (λ b. b && chars_fit inst 0 (reverse text)) none_yet
