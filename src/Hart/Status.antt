-- ===== src/Hart/Status.antt =====
-- `status_t` of include/defines/csr.hpp: the bit fields of mstatus and the 64-bit word that they
-- share a union with.
use rv64_vm.Prelude.{ℕ, ◌+◌, ◌*◌, ◌^◌, ◌<◌, field, ◌≡◌, arith}

-- The fields in the order of the union; `wpri…` are its unnamed ones.
pub record Status : Type 0 where
  pub wpri0 : ℕ
  pub sie : ℕ
  pub wpri2 : ℕ
  pub mie : ℕ
  pub wpri4 : ℕ
  pub spie : ℕ
  pub ube : ℕ
  pub mpie : ℕ
  pub spp : ℕ
  pub vs : ℕ
  pub mpp : ℕ
  pub fs : ℕ
  pub xs : ℕ
  pub mprv : ℕ
  pub sum : ℕ
  pub mxr : ℕ
  pub tvm : ℕ
  pub tw : ℕ
  pub tsr : ℕ
  pub wpri23 : ℕ
  pub uxl : ℕ
  pub sxl : ℕ
  pub sbe : ℕ
  pub mbe : ℕ
  pub wpri38 : ℕ
  pub sd : ℕ

-- `status.raw`
unfoldable pub raw : Status → ℕ
raw s =
    s.wpri0
    + s.sie * 2 ^ 1
    + s.wpri2 * 2 ^ 2
    + s.mie * 2 ^ 3
    + s.wpri4 * 2 ^ 4
    + s.spie * 2 ^ 5
    + s.ube * 2 ^ 6
    + s.mpie * 2 ^ 7
    + s.spp * 2 ^ 8
    + s.vs * 2 ^ 9
    + s.mpp * 2 ^ 11
    + s.fs * 2 ^ 13
    + s.xs * 2 ^ 15
    + s.mprv * 2 ^ 17
    + s.sum * 2 ^ 18
    + s.mxr * 2 ^ 19
    + s.tvm * 2 ^ 20
    + s.tw * 2 ^ 21
    + s.tsr * 2 ^ 22
    + s.wpri23 * 2 ^ 23
    + s.uxl * 2 ^ 32
    + s.sxl * 2 ^ 34
    + s.sbe * 2 ^ 36
    + s.mbe * 2 ^ 37
    + s.wpri38 * 2 ^ 38
    + s.sd * 2 ^ 63

-- The fields after `status.raw = x`.
unfoldable pub of_raw : ℕ → Status
of_raw x = record {
  wpri0 = field x 0 1;
  sie = field x 1 1;
  wpri2 = field x 2 1;
  mie = field x 3 1;
  wpri4 = field x 4 1;
  spie = field x 5 1;
  ube = field x 6 1;
  mpie = field x 7 1;
  spp = field x 8 1;
  vs = field x 9 2;
  mpp = field x 11 2;
  fs = field x 13 2;
  xs = field x 15 2;
  mprv = field x 17 1;
  sum = field x 18 1;
  mxr = field x 19 1;
  tvm = field x 20 1;
  tw = field x 21 1;
  tsr = field x 22 1;
  wpri23 = field x 23 9;
  uxl = field x 32 2;
  sxl = field x 34 2;
  sbe = field x 36 1;
  mbe = field x 37 1;
  wpri38 = field x 38 25;
  sd = field x 63 1;
}

-- Each field fits its width.
pub record IsValid (s : Status) : Type 0 where
  pub wpri0 : s.wpri0 < 2
  pub sie : s.sie < 2
  pub wpri2 : s.wpri2 < 2
  pub mie : s.mie < 2
  pub wpri4 : s.wpri4 < 2
  pub spie : s.spie < 2
  pub ube : s.ube < 2
  pub mpie : s.mpie < 2
  pub spp : s.spp < 2
  pub vs : s.vs < 4
  pub mpp : s.mpp < 4
  pub fs : s.fs < 4
  pub xs : s.xs < 4
  pub mprv : s.mprv < 2
  pub sum : s.sum < 2
  pub mxr : s.mxr < 2
  pub tvm : s.tvm < 2
  pub tw : s.tw < 2
  pub tsr : s.tsr < 2
  pub wpri23 : s.wpri23 < 2 ^ 9
  pub uxl : s.uxl < 4
  pub sxl : s.sxl < 4
  pub sbe : s.sbe < 2
  pub mbe : s.mbe < 2
  pub wpri38 : s.wpri38 < 2 ^ 25
  pub sd : s.sd < 2

-- The bit fields of the status union lose nothing: a 64-bit word written to `raw` is read back from it.
pub raw-of_raw : (x : ℕ) → x < 2 ^ 64 → raw (of_raw x) ≡ x
unfolding raw of_raw
raw-of_raw x h = omega arith

-- Whatever word is written, the fields fit their widths.
pub of_raw-IsValid : (x : ℕ) → IsValid (of_raw x)
unfolding of_raw
of_raw-IsValid x = omega arith

pub raw-lt : (s : Status) → IsValid s → raw s < 2 ^ 64
unfolding raw
raw-lt s v = omega arith

-- And the fields are read back from the word that they make up.
pub of_raw-raw : (s : Status) → IsValid s → of_raw (raw s) ≡ s
unfolding raw of_raw
of_raw-raw s v = ground arith
