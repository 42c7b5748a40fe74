-- ===== src/Isa/Float.antt =====
-- What src/sets/rv64f.cpp and src/sets/rv64d.cpp share: the floating-point registers beside the
-- core, the host's floating-point environment, and the functions and macros that both files define
-- in the same words. A float or a double is its bit pattern, so `bit_cast` changes nothing.
pub mod Ieee
pub mod Memory
pub mod Results
pub mod Ops
pub mod Rounded
pub mod DivZero
pub mod Boxed
use rv64_vm.Prelude.{
  ℕ, ◌+◌, ◌%◌, ◌^◌, bit_and, bit_or, Bool, true, false, ◌&&◌, ◌||◌, not, ◌≡◌, ◌==◌, if◌then◌else◌,
  update, field, ltb, leb, u32, u64, not64, Option, none, some,
}
use rv64_vm.Hart.State.{Hart, InstructionData, ExecReturn, next}
use rv64_vm.Isa.Float.Ieee.{
  Format, single, double, signbit, is_nan, is_inf, is_zero, is_equal, is_less, is_less_equal,
  is_subnormal,
}

-- The rounding directions of `<cfenv>`.
pub data Rounding : Type 0 where
  to_nearest toward_zero downward upward : Rounding

-- The host's environment: the direction, and the exceptions raised since they were last cleared.
pub record Fenv : Type 0 where
  pub rounding : Rounding
  pub invalid : Bool
  pub div_by_zero : Bool
  pub overflow : Bool
  pub underflow : Bool
  pub inexact : Bool

-- A computation of the host: it reads the environment, may raise exceptions, and has a result.
abbrev pub Calc : Type 0
Calc = Fenv → Fenv × ℕ

infixl 5 ◌>>=◌
abbrev pub ◌>>=◌ : Calc → (ℕ → Calc) → Calc
◌>>=◌ m f env = let r = m env in f r.1 r.0

-- The host's arithmetic. `widen` and `narrow` are the casts between float and double, `sqrt_float`
-- the call on a float with its result cast to double, `llrint` has its result as 64 bits.
pub record Host : Type 0 where
  pub add : ℕ → ℕ → Calc
  pub sub : ℕ → ℕ → Calc
  pub mul : ℕ → ℕ → Calc
  pub div : ℕ → ℕ → Calc
  pub fma : ℕ → ℕ → ℕ → Calc
  pub sqrt : ℕ → Calc
  pub sqrt_float : ℕ → Calc
  pub round : ℕ → Calc
  pub llrint : ℕ → Calc
  pub widen : ℕ → Calc
  pub narrow : ℕ → Calc
  pub of_int64 : ℕ → Calc
  pub of_uint64 : ℕ → Calc

-- The core with its floating-point registers `FPR`, and the host's environment.
pub record FloatHart : Type 0 where
  pub hart : Hart
  pub fpr : ℕ → ℕ
  pub env : Fenv

-- `hart.FPR[i] = v`, and `hart.GPR[i] = v`
abbrev pub set_fpr : FloatHart → ℕ → ℕ → FloatHart
set_fpr f i v = record f { fpr = update f.fpr i v }

abbrev pub set_gpr : FloatHart → ℕ → ℕ → FloatHart
set_gpr f i v = record f { hart = record f.hart { gpr = update f.hart.gpr i v } }

-- A computation of the host in the core's environment.
abbrev pub compute : FloatHart → Calc → FloatHart × ℕ
compute f calc = let r = calc f.env in (record f { env = r.0 }, r.1)

-- `hart.fcsr.fields.fflags |= (1 << i)`
abbrev pub raise : ℕ → FloatHart → FloatHart
raise i f = record f { hart = record f.hart { fcsr = bit_or f.hart.fcsr (2 ^ i) } }

-- `fflags = (fflags | (1 << 4)) & ~(1 << 0)`
abbrev pub raise_invalid_only : FloatHart → FloatHart
raise_invalid_only f = record f {
  hart = record f.hart { fcsr = bit_and (bit_or f.hart.fcsr 16) (not64 1) };
}

-- `FLOAT_START`: `feclearexcept(FE_ALL_EXCEPT)`
unfoldable pub float_start : FloatHart → FloatHart
float_start f = record f {
  env = record f.env {
    invalid = false;
    div_by_zero = false;
    overflow = false;
    underflow = false;
    inexact = false;
  };
}

-- `FLOAT_END`: each exception of the host is added to fflags.
abbrev pub flags_of : Fenv → ℕ → ℕ
flags_of env fcsr =
    let a = if env.invalid then bit_or fcsr 16 else fcsr in
    let b = if env.div_by_zero then bit_or a 8 else a in
    let c = if env.overflow then bit_or b 4 else b in
    let d = if env.underflow then bit_or c 2 else c in if env.inexact then bit_or d 1 else d

unfoldable pub float_end : FloatHart → FloatHart
float_end f = record f { hart = record f.hart { fcsr = flags_of f.env f.hart.fcsr } }

-- `{ false, false, 4, 2, inst.inst }`
abbrev pub reserved : InstructionData → ExecReturn
reserved inst = record {
  is_success = false;
  can_change_pc = false;
  increase_pc = 4;
  cause = 2;
  tval = inst.inst;
}

-- The `switch` of `rm_func`: any other number leaves the direction alone.
abbrev pub fesetround : ℕ → Rounding → Rounding
fesetround cmp old =
    if cmp == 0
    then to_nearest
    else if cmp == 1
    then toward_zero
    else if cmp == 2
    then downward
    else if cmp == 3
    then upward
    else old

-- The mode that an instruction's field selects: 7 stands for the one of fcsr.
abbrev pub selected : FloatHart → ℕ → ℕ
selected f rm = if rm == 7 then field f.hart.fcsr 5 3 else rm

-- `f32_in` and `f32_out`: a float is the low half of a register, under a half of ones.
unfoldable pub f32_in : ℕ → ℕ
f32_in reg = u32 reg

unfoldable pub f32_out : ℕ → ℕ
f32_out val = bit_or 0xffffffff00000000 val

-- `issnan` on a float, and on a double.
unfoldable pub issnan32 : ℕ → Bool
issnan32 bits =
    let is_nan = bit_and bits 0x7f800000 == 0x7f800000 && not (bit_and bits 0x007fffff == 0) in
    is_nan && bit_and bits 0x00400000 == 0

unfoldable pub issnan64 : ℕ → Bool
issnan64 bits =
    let is_nan =
      bit_and bits 0x7ff0000000000000 == 0x7ff0000000000000
      && not (bit_and bits 0x000fffffffffffff == 0) in
    is_nan && bit_and bits 0x0008000000000000 == 0

-- The parameters of `finalize_fcvt`: whether T is unsigned, MinValue and MaxValue cast to int64_t,
-- and as doubles MinValue and MaxValue + 1.0.
pub record Target : Type 0 where
  pub is_unsigned : Bool
  pub min_value : ℕ
  pub max_value : ℕ
  pub min_double : ℕ
  pub above_double : ℕ

abbrev pub int32 : Target
int32 = record {
  is_unsigned = false;
  min_value = 0xffffffff80000000;
  max_value = 0x7fffffff;
  min_double = 0xc1e0000000000000;
  above_double = 0x41e0000000000000;
}

abbrev pub uint32 : Target
uint32 = record {
  is_unsigned = true;
  min_value = 0;
  max_value = 0xffffffff;
  min_double = 0;
  above_double = 0x41f0000000000000;
}

abbrev pub int64 : Target
int64 = record {
  is_unsigned = false;
  min_value = 0x8000000000000000;
  max_value = 0x7fffffffffffffff;
  min_double = 0xc3e0000000000000;
  above_double = 0x43e0000000000000;
}

abbrev pub uint64 : Target
uint64 = record {
  is_unsigned = true;
  min_value = 0;
  max_value = 0xffffffffffffffff;
  min_double = 0;
  above_double = 0x43f0000000000000;
}

module _ (host : Host) where
  open host use {round, of_int64, narrow, widen, llrint}

  -- `rm_func`; none is `is_error`, on which every caller fails at once.
  unfoldable pub rm_func : FloatHart → ℕ → ℕ → Option (FloatHart × ℕ)
  rm_func f val rm =
      let cmp = selected f rm in
      if cmp == 5 || cmp == 6
      then none
      else if cmp == 4
      then some (compute f (round val))
      else some (record f { env = record f.env { rounding = fesetround cmp f.env.rounding } }, val)

  -- The end of `finalize_fcvt`: NX unless the integer is the number itself.
  abbrev pub check_exact : FloatHart → ℕ → ℕ → FloatHart × ℕ
  check_exact f exact rounded =
      let r = compute f (of_int64 rounded) in
      (if is_equal double r.1 exact then r.0 else raise 0 r.0, rounded)

  -- `finalize_fcvt`, on a source of the format `fmt`.
  unfoldable pub finalize_fcvt : Format → Target → FloatHart → ℕ → ℕ → ℕ → FloatHart × ℕ
  finalize_fcvt fmt t f src exact rounded =
      let checked = check_exact f exact rounded in
      let too_high =
        (is_inf fmt src && not (signbit fmt src)) || is_less_equal double t.above_double exact in
      if is_nan fmt src
      then (raise_invalid_only f, t.max_value)
      else if t.is_unsigned
      then (if too_high
          then (raise_invalid_only f, t.max_value)
          else if is_less_equal double exact 0xbff0000000000000
              || (leb (2 ^ 63) rounded && not (rounded == 2 ^ 63))
          then (raise_invalid_only f, 0)
          else checked)
      else if (is_inf fmt src && signbit fmt src) || is_less double exact t.min_double
      then (raise_invalid_only f, t.min_value)
      else if too_high
      then (raise_invalid_only f, t.max_value)
      else checked

  -- FCVT.{W,WU,L,LU}: `rm_func` on the double, `llrint`, `finalize_fcvt`, and a cast of its result.
  abbrev pub to_integer :
      Format → Target → (ℕ → ℕ) → FloatHart → InstructionData → ℕ → ℕ → FloatHart × ExecReturn
  to_integer fmt t cast f inst src exact = elim (rm_func f exact inst.rm) [
    | none ↦ (f, reserved inst)
    | some (g, intermediate) ↦
        let r = compute g (llrint intermediate) in
        let out = finalize_fcvt fmt t r.0 src exact r.1 in
        (set_gpr out.0 inst.rd (cast out.1), next)
  ]

-- FMIN and FMAX: the quieter operand when one is a NaN, `nan` when both are; on two zeros the sign
-- decides.
abbrev pub check_signalling : Format → (ℕ → Bool) → FloatHart → ℕ → ℕ → FloatHart
check_signalling fmt issnan f s1 s2 =
    if (is_nan fmt s1 && issnan s1) || (is_nan fmt s2 && issnan s2) then raise 4 f else f

unfoldable pub min_of : Format → ℕ → ℕ → ℕ → ℕ
min_of fmt nan s1 s2 =
    if is_nan fmt s1 && is_nan fmt s2
    then nan
    else if is_nan fmt s1
    then s2
    else if is_nan fmt s2
    then s1
    else if is_zero fmt s1 && is_zero fmt s2
    then (if signbit fmt s1 then s1 else s2)
    else if is_less fmt s1 s2
    then s1
    else s2

unfoldable pub max_of : Format → ℕ → ℕ → ℕ → ℕ
max_of fmt nan s1 s2 =
    if is_nan fmt s1 && is_nan fmt s2
    then nan
    else if is_nan fmt s1
    then s2
    else if is_nan fmt s2
    then s1
    else if is_zero fmt s1 && is_zero fmt s2
    then (if not (signbit fmt s1) then s1 else s2)
    else if is_less fmt s2 s1
    then s1
    else s2

-- FEQ, FLT and FLE: NV and 0 on the NaNs that `bad` names, the comparison otherwise.
abbrev pub compare :
    (ℕ → Bool) → (ℕ → ℕ → Bool) → FloatHart → InstructionData → ℕ → ℕ → FloatHart × ExecReturn
compare bad test f inst s1 s2 =
    if bad s1 || bad s2
    then (set_gpr (raise 4 f) inst.rd 0, next)
    else (set_gpr f inst.rd (if test s1 s2 then 1 else 0), next)

-- FCLASS: the mask of the class that `fpclassify` and the sign give.
unfoldable pub class_mask : Format → ℕ → ℕ
class_mask fmt src =
    let sign = signbit fmt src in
    if is_inf fmt src
    then (if sign then 2 ^ 0 else 2 ^ 7)
    else if is_zero fmt src
    then (if sign then 2 ^ 3 else 2 ^ 4)
    else if is_subnormal fmt src
    then (if sign then 2 ^ 2 else 2 ^ 5)
    else if is_nan fmt src
    then (if not (bit_and src fmt.quiet == 0) then 2 ^ 9 else 2 ^ 8)
    else if sign
    then 2 ^ 1
    else 2 ^ 6
