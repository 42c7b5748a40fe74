-- ===== src/Isa/Float/Boxed.antt =====
-- The single-precision results of src/sets/rv64f.cpp in the registers.
use rv64_vm.Prelude.{
  ℕ, ◌/◌, ◌^◌, ◌<◌, ◌≡◌, ◌⊎◌, inl, inr, refl, ap, ◌∙◌, arith, ==_self, Bool-cases,
}
use rv64_vm.Hart.State.{InstructionData}
use rv64_vm.Isa.Float.Ieee.{double, is_nan}
use rv64_vm.Isa.Float.{
  ◌>>=◌, Host, Fenv, FloatHart, compute, float_start, float_end, reserved, f32_out,
}
use rv64_vm.Isa.Float.Ops.{Arith, run_s, calc_s, run_s-arith}
use rv64_vm.Isa.Float.Results.{f32_out-value}
use rv64_vm.Isa.Float.Rounded.{rm_func-Outcome}
use rv64_vm.Isa.Rv64f

-- The upper half is all ones.
abbrev pub IsBoxed : ℕ → Type 0
IsBoxed x = x / 2 ^ 32 ≡ 0xffffffff

f32_out-IsBoxed : (v : ℕ) → v < 2 ^ 32 → IsBoxed (f32_out v)
f32_out-IsBoxed v h = ap (λ t. t / 2 ^ 32) (f32_out-value v h) ∙ omega arith

write_cast-IsBoxed :
    (host : Host) (f : FloatHart) (inst : InstructionData) (res : ℕ)
    → ((x : ℕ) (env : Fenv) → (host.narrow x env).1 < 2 ^ 32)
    → IsBoxed ((Rv64f.write_cast host f inst res).0.fpr inst.rd)
unfolding Rv64f.cast_float
write_cast-IsBoxed host f inst res narrow_32 = elim (Bool-cases (is_nan double res)) [
  | inl e ↦
      rw (Rv64f.write_cast, Rv64f.cast_float, e, ==_self inst.rd)
        (f32_out-IsBoxed 0x7fc00000 (omega arith))
  | inr e ↦
      rw (Rv64f.write_cast, Rv64f.cast_float, e, ==_self inst.rd)
        (f32_out-IsBoxed _ (narrow_32 res f.env))
]

-- When a cast to float gives 32 bits, a single-precision arithmetic instruction fails as one with a
-- reserved rounding mode, or leaves its destination register NaN-boxed.
pub arith-IsBoxed :
    (host : Host) (op : Arith) (f : FloatHart) (inst : InstructionData)
    (narrow_32 : (x : ℕ) (env : Fenv) → (host.narrow x env).1 < 2 ^ 32)
    → ((run_s host op f inst).1 ≡ reserved inst) ⊎ IsBoxed ((run_s host op f inst).0.fpr inst.rd)
unfolding Rv64f.rm_handle
arith-IsBoxed host op f inst narrow_32 =
    let calc = calc_s host op f inst in
    let res = compute f calc in
    rw (run_s-arith host op f inst) (elim (rm_func-Outcome host (float_start res.0) res.1 inst.rm) [
      | inl e ↦ inl (rw (Rv64f.arith, Rv64f.rm_handle, e) refl)
      | inr (r, (e, _)) ↦
          let g = compute r.0 (host.narrow r.1 >>= host.widen) in
          inr (
            rw (Rv64f.arith, Rv64f.rm_handle, e)
              (write_cast-IsBoxed host (float_end g.0) inst g.1 narrow_32))
    ])
