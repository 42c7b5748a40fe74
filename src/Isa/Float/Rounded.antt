-- ===== src/Isa/Float/Rounded.antt =====
-- The arithmetic instructions of src/sets/rv64f.cpp and src/sets/rv64d.cpp under a reserved rounding
-- mode, and the flags of fcsr.
use rv64_vm.Prelude.{
  ℕ, ◌≤◌, ◌≡◌, ◌⊎◌, inl, inr, refl, ap, sym, arith, Bool, true, false, bit, bit_or, if◌then◌else◌,
  ◌==◌, ◌||◌, Option, none, some, Bool-cases,
}
use rv64_vm.Bits.{bit-bit_or}
use rv64_vm.Hart.State.{InstructionData}
use rv64_vm.Isa.Float.Ieee.{double, is_nan}
use rv64_vm.Isa.Float.{
  Calc, ◌>>=◌, Host, Fenv, FloatHart, compute, float_start, float_end, flags_of, reserved, selected,
  rm_func,
}
use rv64_vm.Isa.Float.Ops.{Arith, run_s, run_d, calc_s, calc_d, run_s-arith, run_d-arith}
use rv64_vm.Isa.Rv64f
use rv64_vm.Isa.Rv64d

rm_func-reserved :
    (host : Host) (f : FloatHart) (val rm : ℕ)
    → (selected f rm ≡ 5) ⊎ (selected f rm ≡ 6)
    → rm_func host f val rm ≡ none
unfolding rm_func
rm_func-reserved host f val rm (inl h) = rw h
rm_func-reserved host f val rm (inr h) = rw h

-- The state in which the program's registers are those of `f`.
abbrev pub Same : FloatHart → FloatHart → Type 0
Same f g = (g.hart ≡ f.hart) × (g.fpr ≡ f.fpr)

arith_s-reserved :
    (host : Host) (f : FloatHart) (inst : InstructionData) (calc : Calc)
    → (selected f inst.rm ≡ 5) ⊎ (selected f inst.rm ≡ 6)
    → ((Rv64f.arith host f inst calc).1 ≡ reserved inst) × Same f (Rv64f.arith host f inst calc).0
unfolding Rv64f.rm_handle float_start
arith_s-reserved host f inst calc h =
    rw
      (
        Rv64f.arith,
        Rv64f.rm_handle,
        rm_func-reserved host (float_start (compute f calc).0) (compute f calc).1 inst.rm h,
      )
      (refl, (refl, refl))

arith_d-reserved :
    (host : Host) (f : FloatHart) (inst : InstructionData) (calc : Calc)
    → (selected f inst.rm ≡ 5) ⊎ (selected f inst.rm ≡ 6)
    → ((Rv64d.arith host f inst calc).1 ≡ reserved inst) × Same f (Rv64d.arith host f inst calc).0
unfolding Rv64d.rm_handle
arith_d-reserved host f inst calc h =
    rw (Rv64d.arith, Rv64d.rm_handle, rm_func-reserved host f 0 inst.rm h) (refl, (refl, refl))

-- An arithmetic instruction whose rounding mode is 5 or 6, by itself or through fcsr, fails as an
-- illegal instruction, in both precisions, and leaves every register and fcsr alone.
pub arith-reserved :
    (host : Host) (op : Arith) (f : FloatHart) (inst : InstructionData)
    → (selected f inst.rm ≡ 5) ⊎ (selected f inst.rm ≡ 6)
    → (((run_s host op f inst).1 ≡ reserved inst) × Same f (run_s host op f inst).0)
      × (((run_d host op f inst).1 ≡ reserved inst) × Same f (run_d host op f inst).0)
arith-reserved host op f inst h =
    rw (run_s-arith host op f inst, run_d-arith host op f inst)
      (
        arith_s-reserved host f inst (calc_s host op f inst) h,
        arith_d-reserved host f inst (calc_d host op f inst) h,
      )

-- Every flag of `a` is one of `b`.
abbrev pub Within : ℕ → ℕ → Type 0
Within a b = (k : ℕ) → bit a k ≤ bit b k

bit_or-Within : (a n : ℕ) → Within a (bit_or a n)
bit_or-Within a n k = omega (arith, bit-bit_or a n k)

if-Within : (b : Bool) (a n m : ℕ) → Within a m → Within a (if b then bit_or m n else m)
if-Within true a n m h k = omega (arith, bit-bit_or m n k, h k)
if-Within false a n m h k = h k

flags_of-Within : (env : Fenv) (fcsr : ℕ) → Within fcsr (flags_of env fcsr)
flags_of-Within env fcsr = if-Within env.inexact fcsr 1 _ (
    if-Within env.underflow fcsr 2 _ (
      if-Within env.overflow fcsr 4 _
        (if-Within env.div_by_zero fcsr 8 _ (if-Within env.invalid fcsr 16 _ (λ k. omega arith)))))

float_end-Within : (f : FloatHart) (a : ℕ) → f.hart.fcsr ≡ a → Within a (float_end f).hart.fcsr
unfolding float_end
float_end-Within f a e = rw (sym e) (flags_of-Within f.env f.hart.fcsr)

-- What a call of `rm_func` may give: an error, or a value and the registers of `f`, the division
-- flag of the host being that of `f` or the one after `round`.
abbrev pub Outcome : Host → FloatHart → ℕ → Option (FloatHart × ℕ) → Type 0
Outcome host f val o =
    (o ≡ none)
    ⊎ ((r : FloatHart × ℕ) × ((o ≡ some r)
          × ((r.0.hart ≡ f.hart)
              × ((r.0.env.div_by_zero ≡ f.env.div_by_zero)
                  ⊎ (r.0.env.div_by_zero ≡ (host.round val f.env).0.div_by_zero)))))

if-Outcome :
    (host : Host) (f : FloatHart) (val : ℕ) (b : Bool) {x y : Option (FloatHart × ℕ)}
    → Outcome host f val x
    → Outcome host f val y
    → Outcome host f val (if b then x else y)
if-Outcome host f val true px py = px
if-Outcome host f val false px py = py

pub rm_func-Outcome :
    (host : Host) (f : FloatHart) (val rm : ℕ) → Outcome host f val (rm_func host f val rm)
unfolding rm_func
rm_func-Outcome host f val rm =
    let cmp = selected f rm in
    if-Outcome host f val (cmp == 5 || cmp == 6) (inl refl) (
      if-Outcome host f val (cmp == 4) (inr (_, (refl, (refl, inr refl))))
        (inr (_, (refl, (refl, inl refl)))))

write_cast-Within :
    (host : Host) (f : FloatHart) (inst : InstructionData) (res a : ℕ)
    → Within a f.hart.fcsr
    → Within a (Rv64f.write_cast host f inst res).0.hart.fcsr
unfolding Rv64f.cast_float
write_cast-Within host f inst res a h = elim (Bool-cases (is_nan double res)) [
  | inl e ↦ rw (Rv64f.write_cast, Rv64f.cast_float, e) (if-Within true a 16 f.hart.fcsr h)
  | inr e ↦ rw (Rv64f.write_cast, Rv64f.cast_float, e) h
]

arith_s-Within :
    (host : Host) (f : FloatHart) (inst : InstructionData) (calc : Calc)
    → Within f.hart.fcsr (Rv64f.arith host f inst calc).0.hart.fcsr
unfolding Rv64f.rm_handle float_start
arith_s-Within host f inst calc =
    let res = compute f calc in
    elim (rm_func-Outcome host (float_start res.0) res.1 inst.rm) [
      | inl e ↦ rw (Rv64f.arith, Rv64f.rm_handle, e) (λ k. omega arith)
      | inr (r, (e, (same, _))) ↦
          let g = compute r.0 (host.narrow r.1 >>= host.widen) in
          rw (Rv64f.arith, Rv64f.rm_handle, e)
            (write_cast-Within host (float_end g.0) inst g.1 f.hart.fcsr
              (float_end-Within g.0 f.hart.fcsr (ap (λ h. h.fcsr) same)))
    ]

sanitize_nan-Within :
    (f : FloatHart) (val a : ℕ)
    → Within a f.hart.fcsr
    → Within a (Rv64d.sanitize_nan f val).0.hart.fcsr
unfolding Rv64d.sanitize_nan
sanitize_nan-Within f val a h = elim (Bool-cases (is_nan double val)) [
  | inl e ↦ rw (Rv64d.sanitize_nan, e) (if-Within true a 16 f.hart.fcsr h)
  | inr e ↦ rw (Rv64d.sanitize_nan, e) h
]

arith_d-Within :
    (host : Host) (f : FloatHart) (inst : InstructionData) (calc : Calc)
    → Within f.hart.fcsr (Rv64d.arith host f inst calc).0.hart.fcsr
unfolding Rv64d.rm_handle float_start
arith_d-Within host f inst calc = elim (rm_func-Outcome host f 0 inst.rm) [
  | inl e ↦ rw (Rv64d.arith, Rv64d.rm_handle, e) (λ k. omega arith)
  | inr (r, (e, (same, _))) ↦
      let res = compute (float_start r.0) calc in
      rw (Rv64d.arith, Rv64d.rm_handle, e)
        (sanitize_nan-Within (float_end res.0) res.1 f.hart.fcsr
          (float_end-Within res.0 f.hart.fcsr (ap (λ h. h.fcsr) same)))
]

-- An arithmetic instruction in either precision clears no bit of fcsr: its exception flags are
-- sticky.
pub arith-Within :
    (host : Host) (op : Arith) (f : FloatHart) (inst : InstructionData)
    → Within f.hart.fcsr (run_s host op f inst).0.hart.fcsr
      × Within f.hart.fcsr (run_d host op f inst).0.hart.fcsr
arith-Within host op f inst =
    rw (run_s-arith host op f inst, run_d-arith host op f inst)
      (
        arith_s-Within host f inst (calc_s host op f inst),
        arith_d-Within host f inst (calc_d host op f inst),
      )
