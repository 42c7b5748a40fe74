-- ===== src/Isa/Float/Results.antt =====
-- Results on what src/sets/rv64f.cpp and src/sets/rv64d.cpp share: NaN boxing, FMIN and FCLASS.
use rv64_vm.Prelude.{
  ℕ, ◌+◌, ◌*◌, ◌%◌, ◌^◌, ◌<◌, ◌≡◌, refl, ap, ◌∙◌, arith, bit, bit_and, if◌then◌else◌, ltb, ◌==◌,
  ==_self,
}
use rv64_vm.Bits.{bit_and-zero}
use rv64_vm.Bits.Join.{bit_or-shifted, bit_and_top}
use rv64_vm.Bits.Masks.{bit_or_comm}
use rv64_vm.Isa.Float.Ieee.{single, double}
use rv64_vm.Hart.State.{InstructionData, next}
use rv64_vm.Isa.Rv64f.{exec_fclass_s}
use rv64_vm.Isa.Float.{Host, FloatHart, f32_in, f32_out, class_mask, min_of}

pub f32_out-value : (v : ℕ) → v < 2 ^ 32 → f32_out v ≡ v + 0xffffffff * 2 ^ 32
unfolding f32_out
f32_out-value v hv =
    bit_or_comm 0xffffffff00000000 v (omega arith) (omega arith) ∙ bit_or-shifted 32 0xffffffff v hv

pub f32_in-f32_out : (v : ℕ) → v < 2 ^ 32 → f32_in (f32_out v) ≡ v
unfolding f32_in
f32_in-f32_out v hv = ap (λ t. t % 2 ^ 32) (f32_out-value v hv) ∙ omega arith

pub min_of_comm :
    (x y : ℕ)
    → x < 2 ^ 64
    → y < 2 ^ 64
    → min_of double 0x7ff8000000000000 x y ≡ min_of double 0x7ff8000000000000 y x
unfolding min_of
min_of_comm x y hx hy = ground arith

pub min_of32_comm :
    (x y : ℕ)
    → x < 2 ^ 32
    → y < 2 ^ 32
    → min_of single 0x7fc00000 x y ≡ min_of single 0x7fc00000 y x
unfolding min_of
min_of32_comm x y hx hy = ground arith

-- The class of a float in the table of the manual, by the ranges of its bit patterns: from -inf (0)
-- over the negative numbers and the zeros to +inf (7), then signalling (8) and quiet (9) NaNs.
abbrev pub range_class : ℕ → ℕ
range_class x =
    if x == 0
    then 4
    else if ltb x 0x00800000
    then 5
    else if ltb x 0x7f800000
    then 6
    else if x == 0x7f800000
    then 7
    else if ltb x 0x7fc00000
    then 8
    else if ltb x 0x80000000
    then 9
    else if x == 0x80000000
    then 3
    else if ltb x 0x80800000
    then 2
    else if ltb x 0xff800000
    then 1
    else if x == 0xff800000
    then 0
    else if ltb x 0xffc00000
    then 8
    else 9

quiet-bit : (x : ℕ) → bit_and x 0x00400000 ≡ bit x 22 * 2 ^ 22
quiet-bit x = omega (arith, bit_and_top 22 x 0 (omega arith), bit_and-zero x)

pub class_mask-range_class : (x : ℕ) → x < 2 ^ 32 → class_mask single x ≡ 2 ^ range_class x
unfolding class_mask
class_mask-range_class x hx = ground (arith, quiet-bit x)

-- FCLASS.S writes one bit, the class of the operand in the manual's table.
pub exec_fclass_s-class :
    (host : Host) (f : FloatHart) (inst : InstructionData)
    → ((exec_fclass_s host f inst).0.hart.gpr inst.rd ≡ 2 ^ range_class (f.fpr inst.rs1 % 2 ^ 32))
      × ((exec_fclass_s host f inst).1 ≡ next)
unfolding exec_fclass_s f32_in
exec_fclass_s-class host f inst = (
  rw (exec_fclass_s, ==_self inst.rd)
      (class_mask-range_class (f.fpr inst.rs1 % 2 ^ 32) (omega arith)),
  refl,
)
