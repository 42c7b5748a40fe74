-- ===== src/Isa/Float/Ops.antt =====
-- The arithmetic instructions of src/sets/rv64f.cpp and src/sets/rv64d.cpp: the operations as
-- a type, and what each computes.
use rv64_vm.Prelude.{◌≡◌, refl}
use rv64_vm.Hart.State.{InstructionData, ExecReturn}
use rv64_vm.Isa.Float.Ieee.{double, negate}
use rv64_vm.Isa.Float.{Calc, ◌>>=◌, Host, FloatHart}
use rv64_vm.Isa.Rv64f
use rv64_vm.Isa.Rv64d

-- The nine that round.
pub data Arith : Type 0 where
  fmadd fmsub fnmadd fnmsub fadd fsub fmul fdiv fsqrt : Arith

abbrev pub run_s : Host → Arith → FloatHart → InstructionData → FloatHart × ExecReturn
run_s host fmadd = Rv64f.exec_fmadd_s host
run_s host fmsub = Rv64f.exec_fmsub_s host
run_s host fnmadd = Rv64f.exec_fnmadd_s host
run_s host fnmsub = Rv64f.exec_fnmsub_s host
run_s host fadd = Rv64f.exec_fadd_s host
run_s host fsub = Rv64f.exec_fsub_s host
run_s host fmul = Rv64f.exec_fmul_s host
run_s host fdiv = Rv64f.exec_fdiv_s host
run_s host fsqrt = Rv64f.exec_fsqrt_s host

abbrev pub run_d : Host → Arith → FloatHart → InstructionData → FloatHart × ExecReturn
run_d host fmadd = Rv64d.exec_fmadd_d host
run_d host fmsub = Rv64d.exec_fmsub_d host
run_d host fnmadd = Rv64d.exec_fnmadd_d host
run_d host fnmsub = Rv64d.exec_fnmsub_d host
run_d host fadd = Rv64d.exec_fadd_d host
run_d host fsub = Rv64d.exec_fsub_d host
run_d host fmul = Rv64d.exec_fmul_d host
run_d host fdiv = Rv64d.exec_fdiv_d host
run_d host fsqrt = Rv64d.exec_fsqrt_d host

-- What the single ones compute before the result is rounded and written.
unfoldable pub calc_s : Host → Arith → FloatHart → InstructionData → Calc
calc_s host fmadd f inst = do
  a ← host.widen (Rv64f.s1 f inst)
  b ← host.widen (Rv64f.s2 f inst)
  p ← host.mul a b
  c ← host.widen (Rv64f.s3 f inst)
  host.add p c
calc_s host fmsub f inst = do
  a ← host.widen (Rv64f.s1 f inst)
  b ← host.widen (Rv64f.s2 f inst)
  p ← host.mul a b
  c ← host.widen (Rv64f.s3 f inst)
  host.sub p c
calc_s host fnmadd f inst = do
  a ← host.widen (Rv64f.s1 f inst)
  b ← host.widen (Rv64f.s2 f inst)
  p ← host.mul (negate double a) b
  c ← host.widen (Rv64f.s3 f inst)
  host.sub p c
calc_s host fnmsub f inst = do
  a ← host.widen (Rv64f.s1 f inst)
  b ← host.widen (Rv64f.s2 f inst)
  p ← host.mul (negate double a) b
  c ← host.widen (Rv64f.s3 f inst)
  host.add p c
calc_s host fadd f inst = do
  a ← host.widen (Rv64f.s1 f inst)
  b ← host.widen (Rv64f.s2 f inst)
  host.add a b
calc_s host fsub f inst = do
  a ← host.widen (Rv64f.s1 f inst)
  b ← host.widen (Rv64f.s2 f inst)
  host.sub a b
calc_s host fmul f inst = do
  a ← host.widen (Rv64f.s1 f inst)
  b ← host.widen (Rv64f.s2 f inst)
  host.mul a b
calc_s host fdiv f inst = do
  a ← host.widen (Rv64f.s1 f inst)
  b ← host.widen (Rv64f.s2 f inst)
  host.div a b
calc_s host fsqrt f inst = host.sqrt_float (Rv64f.s1 f inst)

pub run_s-arith :
    (host : Host) (op : Arith) (f : FloatHart) (inst : InstructionData)
    → run_s host op f inst ≡ Rv64f.arith host f inst (calc_s host op f inst)
unfolding Rv64f.exec_fmadd_s Rv64f.exec_fmsub_s Rv64f.exec_fnmadd_s Rv64f.exec_fnmsub_s
    Rv64f.exec_fadd_s Rv64f.exec_fsub_s Rv64f.exec_fmul_s Rv64f.exec_fdiv_s Rv64f.exec_fsqrt_s
    calc_s
run_s-arith host fmadd f inst = refl
run_s-arith host fmsub f inst = refl
run_s-arith host fnmadd f inst = refl
run_s-arith host fnmsub f inst = refl
run_s-arith host fadd f inst = refl
run_s-arith host fsub f inst = refl
run_s-arith host fmul f inst = refl
run_s-arith host fdiv f inst = refl
run_s-arith host fsqrt f inst = refl

-- What the double ones compute before the result is rounded and written.
unfoldable pub calc_d : Host → Arith → FloatHart → InstructionData → Calc
calc_d host fmadd f inst = host.fma (f.fpr inst.rs1) (f.fpr inst.rs2) (f.fpr inst.rs3)
calc_d host fmsub f inst =
    host.fma (f.fpr inst.rs1) (f.fpr inst.rs2) (negate double (f.fpr inst.rs3))
calc_d host fnmadd f inst =
    host.fma (negate double (f.fpr inst.rs1)) (f.fpr inst.rs2) (negate double (f.fpr inst.rs3))
calc_d host fnmsub f inst =
    host.fma (negate double (f.fpr inst.rs1)) (f.fpr inst.rs2) (f.fpr inst.rs3)
calc_d host fadd f inst = host.add (f.fpr inst.rs1) (f.fpr inst.rs2)
calc_d host fsub f inst = host.sub (f.fpr inst.rs1) (f.fpr inst.rs2)
calc_d host fmul f inst = host.mul (f.fpr inst.rs1) (f.fpr inst.rs2)
calc_d host fdiv f inst = host.div (f.fpr inst.rs1) (f.fpr inst.rs2)
calc_d host fsqrt f inst = host.sqrt (f.fpr inst.rs1)

pub run_d-arith :
    (host : Host) (op : Arith) (f : FloatHart) (inst : InstructionData)
    → run_d host op f inst ≡ Rv64d.arith host f inst (calc_d host op f inst)
unfolding Rv64d.exec_fmadd_d Rv64d.exec_fmsub_d Rv64d.exec_fnmadd_d Rv64d.exec_fnmsub_d
    Rv64d.exec_fadd_d Rv64d.exec_fsub_d Rv64d.exec_fmul_d Rv64d.exec_fdiv_d Rv64d.exec_fsqrt_d
    calc_d
run_d-arith host fmadd f inst = refl
run_d-arith host fmsub f inst = refl
run_d-arith host fnmadd f inst = refl
run_d-arith host fnmsub f inst = refl
run_d-arith host fadd f inst = refl
run_d-arith host fsub f inst = refl
run_d-arith host fmul f inst = refl
run_d-arith host fdiv f inst = refl
run_d-arith host fsqrt f inst = refl
