-- ===== src/Tests/Floats.antt =====
-- Floating-point instructions on a host whose arithmetic is that of the numbers.
use rv64_vm.Prelude.{
  ◌+◌, ◌*◌, ◌%◌, ◌^◌, ◌≡◌, ◌⊎◌, inl, refl, arith, true, false, bit, if◌then◌else◌, ◌==◌,
}
use rv64_vm.Hart.State.{next}
use rv64_vm.Isa.Float.{Host, to_nearest, FloatHart, reserved}
use rv64_vm.Isa.Float.Ops.{fdiv, fadd, run_s, run_d}
use rv64_vm.Isa.Float.Rounded.{Same, Within, arith-reserved, arith-Within}
use rv64_vm.Isa.Float.DivZero.{exec_fdiv_s-dz}
use rv64_vm.Isa.Float.Boxed.{IsBoxed, arith-IsBoxed}
use rv64_vm.Isa.Float.Results.{exec_fclass_s-class}
use rv64_vm.Isa.Rv64f.{exec_fdiv_s, exec_fclass_s}
use rv64_vm.Tests.Base.{core0, inst0}

abbrev host0 : Host
host0 = record {
  add = λ x y env. (env, (x + y) % 2 ^ 64);
  sub = λ x y env. (env, (x + 2 ^ 64) % 2 ^ 64);
  mul = λ x y env. (env, (x * y) % 2 ^ 64);
  div = λ x y env. (record env { div_by_zero = true }, 0x7ff0000000000000);
  fma = λ x y z env. (env, (x * y + z) % 2 ^ 64);
  sqrt = λ x env. (env, x);
  sqrt_float = λ x env. (env, x);
  round = λ x env. (env, x);
  llrint = λ x env. (env, x);
  widen = λ x env. (env, x);
  narrow = λ x env. (record env { inexact = true }, x % 2 ^ 32);
  of_int64 = λ x env. (env, x);
  of_uint64 = λ x env. (env, x);
}

-- The flag of an inexact result is set; the operands are 1.0 and 0.0 as boxed floats.
abbrev float0 : FloatHart
float0 = record {
  hart = record core0 { fcsr = 1 };
  fpr = λ i. if i == 1 then 0xffffffff3f800000 else 0xffffffff00000000;
  env = record {
    rounding = to_nearest;
    invalid = false;
    div_by_zero = false;
    overflow = false;
    underflow = false;
    inexact = false;
  };
}

-- The rounding mode is the one of fcsr, which holds 5.
arith-reserved_example :
    (((run_s host0 fdiv
          (record float0 { hart = record core0 { fcsr = 0xa0 } })
          (record inst0 { rm = 7 })).1
        ≡ reserved (record inst0 { rm = 7 }))
      × Same
          (record float0 { hart = record core0 { fcsr = 0xa0 } })
          (run_s host0 fdiv
            (record float0 { hart = record core0 { fcsr = 0xa0 } })
            (record inst0 { rm = 7 })).0)
    × (((run_d host0 fdiv
            (record float0 { hart = record core0 { fcsr = 0xa0 } })
            (record inst0 { rm = 7 })).1
          ≡ reserved (record inst0 { rm = 7 }))
        × Same
            (record float0 { hart = record core0 { fcsr = 0xa0 } })
            (run_d host0 fdiv
              (record float0 { hart = record core0 { fcsr = 0xa0 } })
              (record inst0 { rm = 7 })).0)
arith-reserved_example =
    arith-reserved host0 fdiv (record float0 { hart = record core0 { fcsr = 0xa0 } })
      (record inst0 { rm = 7 }) (inl refl)

arith-Within_example :
    Within 1 (run_s host0 fadd float0 inst0).0.hart.fcsr
    × Within 1 (run_d host0 fadd float0 inst0).0.hart.fcsr
arith-Within_example = arith-Within host0 fadd float0 inst0

exec_fdiv_s-dz_example : bit (exec_fdiv_s host0 float0 inst0).0.hart.fcsr 3 ≡ 0
exec_fdiv_s-dz_example =
    exec_fdiv_s-dz host0 float0 inst0 (λ x env. refl) (λ x env. refl) (λ x env. refl)

arith-IsBoxed_example :
    ((run_s host0 fadd float0 inst0).1 ≡ reserved inst0)
    ⊎ IsBoxed ((run_s host0 fadd float0 inst0).0.fpr 1)
arith-IsBoxed_example = arith-IsBoxed host0 fadd float0 inst0 (λ x env. omega arith)

exec_fclass_s-class_example :
    ((exec_fclass_s host0 float0 inst0).0.hart.gpr 1 ≡ 2 ^ 6)
    × ((exec_fclass_s host0 float0 inst0).1 ≡ next)
exec_fclass_s-class_example = exec_fclass_s-class host0 float0 inst0
