-- ===== src/Isa/Rv64d.antt =====
-- src/sets/rv64d.cpp. Here the rounding mode is set before the operation, and `FLOAT_START` and
-- `FLOAT_END` stand around it.
use rv64_vm.Prelude.{
  ℕ, ◌^◌, bit_and, bit_or, bit_xor, not, u32, not64, if◌then◌else◌, Option, none, some,
}
use rv64_vm.Hart.State.{InstructionData, ExecReturn, next}
use rv64_vm.Isa.Arith.{sext32}
use rv64_vm.Isa.Float.Ieee.{
  single, double, is_nan, is_equal, is_less, is_less_equal, negate, copysign,
}
use rv64_vm.Isa.Float.{
  Calc, Host, FloatHart, set_fpr, set_gpr, compute, raise, float_start, float_end, reserved,
  rm_func, f32_in, f32_out, issnan64, int32, uint32, int64, uint64, to_integer, check_signalling,
  min_of, max_of, compare, class_mask,
}

-- `sanitize_nan`: a NaN raises NV and becomes the canonical one.
unfoldable pub sanitize_nan : FloatHart → ℕ → FloatHart × ℕ
sanitize_nan f val = if is_nan double val then (raise 4 f, 0x7ff8000000000000) else (f, val)

module _ (host : Host) where
  open host use {add, sub, mul, div, fma, sqrt, widen, narrow, of_int64, of_uint64}

  -- `RM_HANDLE`: `rm_func` on 0.0, for the rounding mode alone.
  unfoldable pub rm_handle : FloatHart → ℕ → Option FloatHart
  rm_handle f rm = elim (rm_func host f 0 rm) [ none ↦ none | some (g, _) ↦ some g ]

  -- The shape of the arithmetic instructions, whose operation is `calc`.
  abbrev pub arith : FloatHart → InstructionData → Calc → FloatHart × ExecReturn
  arith f inst calc = elim (rm_handle f inst.rm) [
    | none ↦ (f, reserved inst)
    | some g ↦
        let res = compute (float_start g) calc in
        let out = sanitize_nan (float_end res.0) res.1 in (set_fpr out.0 inst.rd out.1, next)
  ]

  -- `RM_HANDLE_VAL` on the converted integer: without the two macros on 32 bits, within them on 64.
  abbrev pub of_integer32 : FloatHart → InstructionData → Calc → FloatHart × ExecReturn
  of_integer32 f inst calc =
      let exact = compute f calc in
      elim (rm_func host exact.0 exact.1 inst.rm) [
        | none ↦ (exact.0, reserved inst)
        | some (g, v) ↦ (set_fpr g inst.rd v, next)
      ]

  abbrev pub of_integer64 : FloatHart → InstructionData → Calc → FloatHart × ExecReturn
  of_integer64 f inst calc =
      let exact = compute f calc in
      elim (rm_func host (float_start exact.0) exact.1 inst.rm) [
        | none ↦ (float_start exact.0, reserved inst)
        | some (g, v) ↦ (set_fpr (float_end g) inst.rd v, next)
      ]

  unfoldable pub exec_fmadd_d : FloatHart → InstructionData → FloatHart × ExecReturn
  exec_fmadd_d f inst = arith f inst (fma (f.fpr inst.rs1) (f.fpr inst.rs2) (f.fpr inst.rs3))

  unfoldable pub exec_fmsub_d : FloatHart → InstructionData → FloatHart × ExecReturn
  exec_fmsub_d f inst =
      arith f inst (fma (f.fpr inst.rs1) (f.fpr inst.rs2) (negate double (f.fpr inst.rs3)))

  unfoldable pub exec_fnmadd_d : FloatHart → InstructionData → FloatHart × ExecReturn
  exec_fnmadd_d f inst =
      arith f inst
        (fma (negate double (f.fpr inst.rs1)) (f.fpr inst.rs2) (negate double (f.fpr inst.rs3)))

  unfoldable pub exec_fnmsub_d : FloatHart → InstructionData → FloatHart × ExecReturn
  exec_fnmsub_d f inst =
      arith f inst (fma (negate double (f.fpr inst.rs1)) (f.fpr inst.rs2) (f.fpr inst.rs3))

  unfoldable pub exec_fadd_d : FloatHart → InstructionData → FloatHart × ExecReturn
  exec_fadd_d f inst = arith f inst (add (f.fpr inst.rs1) (f.fpr inst.rs2))

  unfoldable pub exec_fsub_d : FloatHart → InstructionData → FloatHart × ExecReturn
  exec_fsub_d f inst = arith f inst (sub (f.fpr inst.rs1) (f.fpr inst.rs2))

  unfoldable pub exec_fmul_d : FloatHart → InstructionData → FloatHart × ExecReturn
  exec_fmul_d f inst = arith f inst (mul (f.fpr inst.rs1) (f.fpr inst.rs2))

  unfoldable pub exec_fdiv_d : FloatHart → InstructionData → FloatHart × ExecReturn
  exec_fdiv_d f inst = arith f inst (div (f.fpr inst.rs1) (f.fpr inst.rs2))

  unfoldable pub exec_fsqrt_d : FloatHart → InstructionData → FloatHart × ExecReturn
  exec_fsqrt_d f inst = arith f inst (sqrt (f.fpr inst.rs1))

  unfoldable pub exec_fsgnj_d : FloatHart → InstructionData → FloatHart × ExecReturn
  exec_fsgnj_d f inst =
      (set_fpr f inst.rd (copysign double (f.fpr inst.rs1) (f.fpr inst.rs2)), next)

  unfoldable pub exec_fsgnjn_d : FloatHart → InstructionData → FloatHart × ExecReturn
  exec_fsgnjn_d f inst =
      (set_fpr f inst.rd (copysign double (f.fpr inst.rs1) (negate double (f.fpr inst.rs2))), next)

  unfoldable pub exec_fsgnjx_d : FloatHart → InstructionData → FloatHart × ExecReturn
  exec_fsgnjx_d f inst = (
    set_fpr f inst.rd (
        bit_or (bit_and (f.fpr inst.rs1) (not64 (2 ^ 63)))
          (bit_and (bit_xor (f.fpr inst.rs1) (f.fpr inst.rs2)) (2 ^ 63))),
    next,
  )

  unfoldable pub exec_fmin_d : FloatHart → InstructionData → FloatHart × ExecReturn
  exec_fmin_d f inst = (
    set_fpr (check_signalling double issnan64 f (f.fpr inst.rs1) (f.fpr inst.rs2)) inst.rd
        (min_of double 0x7ff8000000000000 (f.fpr inst.rs1) (f.fpr inst.rs2)),
    next,
  )

  unfoldable pub exec_fmax_d : FloatHart → InstructionData → FloatHart × ExecReturn
  exec_fmax_d f inst = (
    set_fpr (check_signalling double issnan64 f (f.fpr inst.rs1) (f.fpr inst.rs2)) inst.rd
        (max_of double 0x7ff8000000000000 (f.fpr inst.rs1) (f.fpr inst.rs2)),
    next,
  )

  -- The narrowing comes after `FLOAT_END`.
  unfoldable pub exec_fcvt_s_d : FloatHart → InstructionData → FloatHart × ExecReturn
  exec_fcvt_s_d f inst = elim (rm_func host (float_start f) (f.fpr inst.rs1) inst.rm) [
    | none ↦ (float_start f, reserved inst)
    | some (g, exact) ↦
        let r = compute (float_end g) (narrow exact) in
        (
          if is_nan single r.1
              then set_fpr (raise 4 r.0) inst.rd (f32_out 0x7fc00000)
              else set_fpr r.0 inst.rd (f32_out r.1),
          next,
        )
  ]

  -- `issnan` is asked of the float cast to double once more.
  unfoldable pub exec_fcvt_d_s : FloatHart → InstructionData → FloatHart × ExecReturn
  exec_fcvt_d_s f inst =
      let src = f32_in (f.fpr inst.rs1) in
      let wide = compute f (widen src) in
      let again = compute wide.0 (widen src) in
      if not (is_nan single src)
      then (set_fpr wide.0 inst.rd wide.1, next)
      else if issnan64 again.1
      then (set_fpr (raise 4 again.0) inst.rd 0x7ff8000000000000, next)
      else (set_fpr again.0 inst.rd 0x7ff8000000000000, next)

  unfoldable pub exec_fcvt_w_d : FloatHart → InstructionData → FloatHart × ExecReturn
  exec_fcvt_w_d f inst =
      to_integer host double int32 sext32 f inst (f.fpr inst.rs1) (f.fpr inst.rs1)

  unfoldable pub exec_fcvt_wu_d : FloatHart → InstructionData → FloatHart × ExecReturn
  exec_fcvt_wu_d f inst =
      to_integer host double uint32 sext32 f inst (f.fpr inst.rs1) (f.fpr inst.rs1)

  unfoldable pub exec_fcvt_l_d : FloatHart → InstructionData → FloatHart × ExecReturn
  exec_fcvt_l_d f inst =
      to_integer host double int64 (λ v. v) f inst (f.fpr inst.rs1) (f.fpr inst.rs1)

  unfoldable pub exec_fcvt_lu_d : FloatHart → InstructionData → FloatHart × ExecReturn
  exec_fcvt_lu_d f inst =
      to_integer host double uint64 (λ v. v) f inst (f.fpr inst.rs1) (f.fpr inst.rs1)

  unfoldable pub exec_fcvt_d_w : FloatHart → InstructionData → FloatHart × ExecReturn
  exec_fcvt_d_w f inst = of_integer32 f inst (of_int64 (sext32 (f.hart.gpr inst.rs1)))

  unfoldable pub exec_fcvt_d_wu : FloatHart → InstructionData → FloatHart × ExecReturn
  exec_fcvt_d_wu f inst = of_integer32 f inst (of_uint64 (u32 (f.hart.gpr inst.rs1)))

  unfoldable pub exec_fcvt_d_l : FloatHart → InstructionData → FloatHart × ExecReturn
  exec_fcvt_d_l f inst = of_integer64 f inst (of_int64 (f.hart.gpr inst.rs1))

  unfoldable pub exec_fcvt_d_lu : FloatHart → InstructionData → FloatHart × ExecReturn
  exec_fcvt_d_lu f inst = of_integer64 f inst (of_uint64 (f.hart.gpr inst.rs1))

  unfoldable pub exec_fmv_x_d : FloatHart → InstructionData → FloatHart × ExecReturn
  exec_fmv_x_d f inst = (set_gpr f inst.rd (f.fpr inst.rs1), next)

  unfoldable pub exec_fmv_d_x : FloatHart → InstructionData → FloatHart × ExecReturn
  exec_fmv_d_x f inst = (set_fpr f inst.rd (f.hart.gpr inst.rs1), next)

  unfoldable pub exec_feq_d : FloatHart → InstructionData → FloatHart × ExecReturn
  exec_feq_d f inst = compare issnan64 (is_equal double) f inst (f.fpr inst.rs1) (f.fpr inst.rs2)

  unfoldable pub exec_flt_d : FloatHart → InstructionData → FloatHart × ExecReturn
  exec_flt_d f inst =
      compare (is_nan double) (is_less double) f inst (f.fpr inst.rs1) (f.fpr inst.rs2)

  unfoldable pub exec_fle_d : FloatHart → InstructionData → FloatHart × ExecReturn
  exec_fle_d f inst =
      compare (is_nan double) (is_less_equal double) f inst (f.fpr inst.rs1) (f.fpr inst.rs2)

  unfoldable pub exec_fclass_d : FloatHart → InstructionData → FloatHart × ExecReturn
  exec_fclass_d f inst = (set_gpr f inst.rd (class_mask double (f.fpr inst.rs1)), next)
