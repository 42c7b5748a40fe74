-- ===== src/Isa/Rv64f.antt =====
-- src/sets/rv64f.cpp. The result of an arithmetic instruction is computed on doubles before
-- `FLOAT_START` and before the rounding mode is set; what follows narrows it.
use rv64_vm.Prelude.{ℕ, bit_and, bit_or, bit_xor, u32, not32, if◌then◌else◌, Option, none, some}
use rv64_vm.Hart.State.{InstructionData, ExecReturn, next}
use rv64_vm.Isa.Arith.{sext32}
use rv64_vm.Isa.Float.Ieee.{
  single, double, is_nan, is_equal, is_less, is_less_equal, negate, copysign,
}
use rv64_vm.Isa.Float.{
  Calc, ◌>>=◌, Host, FloatHart, set_fpr, set_gpr, compute, raise, float_start, float_end, reserved,
  rm_func, f32_in, f32_out, issnan32, int32, uint32, int64, uint64, to_integer, check_signalling,
  min_of, max_of, compare, class_mask,
}

-- `f32_in(hart.FPR[inst.rs1])`, and the other two operands.
abbrev pub s1 : FloatHart → InstructionData → ℕ
s1 f inst = f32_in (f.fpr inst.rs1)

abbrev pub s2 : FloatHart → InstructionData → ℕ
s2 f inst = f32_in (f.fpr inst.rs2)

abbrev pub s3 : FloatHart → InstructionData → ℕ
s3 f inst = f32_in (f.fpr inst.rs3)

module _ (host : Host) where
  open host use {add, sub, mul, div, sqrt_float, widen, narrow, of_int64, of_uint64}

  -- `cast_float`: a NaN raises NV and becomes the canonical one.
  unfoldable pub cast_float : FloatHart → ℕ → FloatHart × ℕ
  cast_float f val = if is_nan double val then (raise 4 f, 0x7fc00000) else compute f (narrow val)

  -- `RM_HANDLE`: the value of `rm_func`, narrowed to a float and held as a double.
  unfoldable pub rm_handle : FloatHart → ℕ → ℕ → Option (FloatHart × ℕ)
  rm_handle f val rm = elim (rm_func host f val rm) [
    | none ↦ none
    | some (g, inter) ↦ some (compute g (do v ← narrow inter; widen v))
  ]

  -- `hart.FPR[inst.rd] = f32_out(cast_float(hart, res)); return { true, false, 4, 0, 0 };`
  abbrev pub write_cast : FloatHart → InstructionData → ℕ → FloatHart × ExecReturn
  write_cast f inst res = let r = cast_float f res in (set_fpr r.0 inst.rd (f32_out r.1), next)

  -- The shape of the arithmetic instructions, after the computation `calc` of their result.
  abbrev pub arith : FloatHart → InstructionData → Calc → FloatHart × ExecReturn
  arith f inst calc =
      let res = compute f calc in
      elim (rm_handle (float_start res.0) res.1 inst.rm) [
        | none ↦ (float_start res.0, reserved inst)
        | some (g, v) ↦ write_cast (float_end g) inst v
      ]

  -- The shape of FCVT.S.{W,WU,L,LU}.
  abbrev pub of_integer : FloatHart → InstructionData → Calc → FloatHart × ExecReturn
  of_integer f inst calc =
      let exact = compute f calc in
      elim (rm_handle (float_start exact.0) exact.1 inst.rm) [
        | none ↦ (float_start exact.0, reserved inst)
        | some (g, v) ↦
            let r = compute (float_end g) (narrow v) in (set_fpr r.0 inst.rd (f32_out r.1), next)
      ]

  unfoldable pub exec_fmadd_s : FloatHart → InstructionData → FloatHart × ExecReturn
  exec_fmadd_s f inst =
      arith f inst (do
        a ← widen (s1 f inst)
        b ← widen (s2 f inst)
        p ← mul a b
        c ← widen (s3 f inst)
        add p c)

  unfoldable pub exec_fmsub_s : FloatHart → InstructionData → FloatHart × ExecReturn
  exec_fmsub_s f inst =
      arith f inst (do
        a ← widen (s1 f inst)
        b ← widen (s2 f inst)
        p ← mul a b
        c ← widen (s3 f inst)
        sub p c)

  unfoldable pub exec_fnmadd_s : FloatHart → InstructionData → FloatHart × ExecReturn
  exec_fnmadd_s f inst = arith f inst (do
    a ← widen (s1 f inst)
    b ← widen (s2 f inst)
    p ← mul (negate double a) b
    c ← widen (s3 f inst)
    sub p c)

  unfoldable pub exec_fnmsub_s : FloatHart → InstructionData → FloatHart × ExecReturn
  exec_fnmsub_s f inst = arith f inst (do
    a ← widen (s1 f inst)
    b ← widen (s2 f inst)
    p ← mul (negate double a) b
    c ← widen (s3 f inst)
    add p c)

  unfoldable pub exec_fadd_s : FloatHart → InstructionData → FloatHart × ExecReturn
  exec_fadd_s f inst = arith f inst (do a ← widen (s1 f inst); b ← widen (s2 f inst); add a b)

  unfoldable pub exec_fsub_s : FloatHart → InstructionData → FloatHart × ExecReturn
  exec_fsub_s f inst = arith f inst (do a ← widen (s1 f inst); b ← widen (s2 f inst); sub a b)

  unfoldable pub exec_fmul_s : FloatHart → InstructionData → FloatHart × ExecReturn
  exec_fmul_s f inst = arith f inst (do a ← widen (s1 f inst); b ← widen (s2 f inst); mul a b)

  unfoldable pub exec_fdiv_s : FloatHart → InstructionData → FloatHart × ExecReturn
  exec_fdiv_s f inst = arith f inst (do a ← widen (s1 f inst); b ← widen (s2 f inst); div a b)

  unfoldable pub exec_fsqrt_s : FloatHart → InstructionData → FloatHart × ExecReturn
  exec_fsqrt_s f inst = arith f inst (sqrt_float (s1 f inst))

  -- The result goes through `cast_float`, a double: a NaN is made canonical.
  unfoldable pub exec_fsgnj_s : FloatHart → InstructionData → FloatHart × ExecReturn
  exec_fsgnj_s f inst =
      let res = copysign single (s1 f inst) (s2 f inst) in
      let wide = compute f (widen res) in write_cast wide.0 inst wide.1

  unfoldable pub exec_fsgnjn_s : FloatHart → InstructionData → FloatHart × ExecReturn
  exec_fsgnjn_s f inst =
      let res = copysign single (s1 f inst) (negate single (s2 f inst)) in
      let wide = compute f (widen res) in write_cast wide.0 inst wide.1

  unfoldable pub exec_fsgnjx_s : FloatHart → InstructionData → FloatHart × ExecReturn
  exec_fsgnjx_s f inst = (
    set_fpr f inst.rd (
        f32_out (
          bit_or (bit_and (s1 f inst) (not32 0x80000000))
            (bit_and (bit_xor (s1 f inst) (s2 f inst)) 0x80000000))),
    next,
  )

  unfoldable pub exec_fmin_s : FloatHart → InstructionData → FloatHart × ExecReturn
  exec_fmin_s f inst = (
    set_fpr (check_signalling single issnan32 f (s1 f inst) (s2 f inst)) inst.rd
        (f32_out (min_of single 0x7fc00000 (s1 f inst) (s2 f inst))),
    next,
  )

  unfoldable pub exec_fmax_s : FloatHart → InstructionData → FloatHart × ExecReturn
  exec_fmax_s f inst = (
    set_fpr (check_signalling single issnan32 f (s1 f inst) (s2 f inst)) inst.rd
        (f32_out (max_of single 0x7fc00000 (s1 f inst) (s2 f inst))),
    next,
  )

  unfoldable pub exec_fcvt_w_s : FloatHart → InstructionData → FloatHart × ExecReturn
  exec_fcvt_w_s f inst =
      let exact = compute f (widen (s1 f inst)) in
      to_integer host single int32 sext32 exact.0 inst (s1 f inst) exact.1

  unfoldable pub exec_fcvt_wu_s : FloatHart → InstructionData → FloatHart × ExecReturn
  exec_fcvt_wu_s f inst =
      let exact = compute f (widen (s1 f inst)) in
      to_integer host single uint32 sext32 exact.0 inst (s1 f inst) exact.1

  unfoldable pub exec_fcvt_l_s : FloatHart → InstructionData → FloatHart × ExecReturn
  exec_fcvt_l_s f inst =
      let exact = compute f (widen (s1 f inst)) in
      to_integer host single int64 (λ v. v) exact.0 inst (s1 f inst) exact.1

  unfoldable pub exec_fcvt_lu_s : FloatHart → InstructionData → FloatHart × ExecReturn
  exec_fcvt_lu_s f inst =
      let exact = compute f (widen (s1 f inst)) in
      to_integer host single uint64 (λ v. v) exact.0 inst (s1 f inst) exact.1

  unfoldable pub exec_fcvt_s_w : FloatHart → InstructionData → FloatHart × ExecReturn
  exec_fcvt_s_w f inst = of_integer f inst (of_int64 (sext32 (f.hart.gpr inst.rs1)))

  unfoldable pub exec_fcvt_s_wu : FloatHart → InstructionData → FloatHart × ExecReturn
  exec_fcvt_s_wu f inst = of_integer f inst (of_uint64 (u32 (f.hart.gpr inst.rs1)))

  unfoldable pub exec_fcvt_s_l : FloatHart → InstructionData → FloatHart × ExecReturn
  exec_fcvt_s_l f inst = of_integer f inst (of_int64 (f.hart.gpr inst.rs1))

  unfoldable pub exec_fcvt_s_lu : FloatHart → InstructionData → FloatHart × ExecReturn
  exec_fcvt_s_lu f inst = of_integer f inst (of_uint64 (f.hart.gpr inst.rs1))

  unfoldable pub exec_fmv_x_w : FloatHart → InstructionData → FloatHart × ExecReturn
  exec_fmv_x_w f inst = (set_gpr f inst.rd (sext32 (s1 f inst)), next)

  unfoldable pub exec_fmv_w_x : FloatHart → InstructionData → FloatHart × ExecReturn
  exec_fmv_w_x f inst = (set_fpr f inst.rd (f32_out (u32 (f.hart.gpr inst.rs1))), next)

  unfoldable pub exec_feq_s : FloatHart → InstructionData → FloatHart × ExecReturn
  exec_feq_s f inst = compare issnan32 (is_equal single) f inst (s1 f inst) (s2 f inst)

  unfoldable pub exec_flt_s : FloatHart → InstructionData → FloatHart × ExecReturn
  exec_flt_s f inst = compare (is_nan single) (is_less single) f inst (s1 f inst) (s2 f inst)

  unfoldable pub exec_fle_s : FloatHart → InstructionData → FloatHart × ExecReturn
  exec_fle_s f inst = compare (is_nan single) (is_less_equal single) f inst (s1 f inst) (s2 f inst)

  unfoldable pub exec_fclass_s : FloatHart → InstructionData → FloatHart × ExecReturn
  exec_fclass_s f inst = (set_gpr f inst.rd (class_mask single (s1 f inst)), next)
