-- ===== src/Isa/Float/DivZero.antt =====
-- FDIV.S of src/sets/rv64f.cpp divides before `FLOAT_START` clears the host's exceptions.
use rv64_vm.Prelude.{
  ℕ, ◌≡◌, inl, inr, refl, ap, ◌∙◌, arith, Bool, true, false, bit, bit_or, if◌then◌else◌, Bool-cases,
}
use rv64_vm.Bits.{bit-bit_or}
use rv64_vm.Hart.State.{InstructionData}
use rv64_vm.Isa.Float.Ieee.{double, is_nan}
use rv64_vm.Isa.Float.{◌>>=◌, Host, Fenv, FloatHart, compute, float_start, float_end}
use rv64_vm.Isa.Float.Rounded.{rm_func-Outcome}
use rv64_vm.Isa.Rv64f

if-bit : (b : Bool) (m n k : ℕ) → bit n k ≡ 0 → bit (if b then bit_or m n else m) k ≡ bit m k
if-bit true m n k h = omega (arith, bit-bit_or m n k, h)
if-bit false m n k h = refl

-- fcsr after the first test of FLOAT_END.
abbrev invalid_first : FloatHart → ℕ
invalid_first f = if f.env.invalid then bit_or f.hart.fcsr 16 else f.hart.fcsr

-- Without the host's division flag, FLOAT_END leaves DZ as it was.
float_end-bit :
    (f : FloatHart) → f.env.div_by_zero ≡ false → bit (float_end f).hart.fcsr 3 ≡ bit f.hart.fcsr 3
unfolding float_end
float_end-bit f h =
    if-bit f.env.inexact _ 1 3 refl
    ∙ if-bit f.env.underflow _ 2 3 refl
    ∙ if-bit f.env.overflow _ 4 3 refl
    ∙ ap (λ b. bit (if b then bit_or (invalid_first f) 8 else invalid_first f) 3) h
    ∙ if-bit f.env.invalid f.hart.fcsr 16 3 refl

write_cast-bit :
    (host : Host) (f : FloatHart) (inst : InstructionData) (res : ℕ)
    → bit (Rv64f.write_cast host f inst res).0.hart.fcsr 3 ≡ bit f.hart.fcsr 3
unfolding Rv64f.cast_float
write_cast-bit host f inst res = elim (Bool-cases (is_nan double res)) [
  | inl e ↦ rw (Rv64f.write_cast, Rv64f.cast_float, e) (if-bit true f.hart.fcsr 16 3 refl)
  | inr e ↦ rw (Rv64f.write_cast, Rv64f.cast_float, e) refl
]

-- When rounding and the casts between float and double never raise the host's division flag, FDIV.S
-- leaves DZ of fcsr as it was, whatever it divides.
pub exec_fdiv_s-dz :
    (host : Host) (f : FloatHart) (inst : InstructionData)
    (round_dz : (x : ℕ) (env : Fenv) → (host.round x env).0.div_by_zero ≡ env.div_by_zero)
    (narrow_dz : (x : ℕ) (env : Fenv) → (host.narrow x env).0.div_by_zero ≡ env.div_by_zero)
    (widen_dz : (x : ℕ) (env : Fenv) → (host.widen x env).0.div_by_zero ≡ env.div_by_zero)
    → bit (Rv64f.exec_fdiv_s host f inst).0.hart.fcsr 3 ≡ bit f.hart.fcsr 3
unfolding Rv64f.exec_fdiv_s float_start Rv64f.rm_handle
exec_fdiv_s-dz host f inst round_dz narrow_dz widen_dz =
    let res =
      compute f (
        host.widen (Rv64f.s1 f inst) >>= λ a. host.widen (Rv64f.s2 f inst) >>= λ b. host.div a b) in
    let start = float_start res.0 in
    elim (rm_func-Outcome host start res.1 inst.rm) [
      | inl e ↦ rw (Rv64f.arith, Rv64f.rm_handle, e) refl
      | inr (r, (e, (same, dz))) ↦
          let g = compute r.0 (host.narrow r.1 >>= host.widen) in
          let off : r.0.env.div_by_zero ≡ false = elim dz [
            | inl h ↦ h
            | inr h ↦ h ∙ round_dz res.1 start.env
          ] in
          rw (Rv64f.arith, Rv64f.rm_handle, e)
            (write_cast-bit host (float_end g.0) inst g.1
              ∙ float_end-bit g.0 (widen_dz _ _ ∙ narrow_dz r.1 r.0.env ∙ off)
              ∙ ap (λ h. bit h.fcsr 3) same)
    ]
