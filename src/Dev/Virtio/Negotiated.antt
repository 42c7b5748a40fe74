-- ===== src/Dev/Virtio/Negotiated.antt =====
-- The feature negotiation in the register STATUS of src/devices/virtio/virtio_blk.cpp.
use rv64_vm.Prelude.{
  ℕ, ◌*◌, ◌≡◌, ◌⊎◌, inl, inr, refl, arith, false, ◌==◌, Bool-cases, bit, bit_and, bit_or, nonzero,
  u32, not32, not64,
}
use rv64_vm.Bits.{bit-bit_and, bit_and-zero}
use rv64_vm.Bits.Join.{bit_and_top}
use rv64_vm.Dev.Virtio.{Virtio}
use rv64_vm.Dev.Virtio.Registers.{write_status, reset, features_ok}

-- FEATURES_OK is off, or the driver has asked for nothing that the device has not.
abbrev pub IsNegotiated : Virtio → Type 0
IsNegotiated d =
    (bit_and d.device_status features_ok ≡ 0)
    ⊎ (bit_and d.driver_features (not64 d.device_features) ≡ 0)

-- FEATURES_OK is bit 3.
features_ok-bit : (x : ℕ) → bit_and x features_ok ≡ bit x 3 * 8
features_ok-bit x = omega (arith, bit_and_top 3 x 0 (omega arith), bit_and-zero x)

nonzero-false : (x : ℕ) → nonzero x ≡ false → x ≡ 0
nonzero-false x h = ground arith

cleared : (x : ℕ) → bit_and (bit_and x (not32 features_ok)) features_ok ≡ 0
cleared x =
    omega
      (arith, features_ok-bit (bit_and x (not32 features_ok)), bit-bit_and x (not32 features_ok) 3)

-- After every write of STATUS, FEATURES_OK is off or the driver has asked for nothing that the
-- device has not.
pub write_status-IsNegotiated : (d : Virtio) (val : ℕ) → IsNegotiated (write_status d val)
unfolding write_status reset
write_status-IsNegotiated d val =
    let status = bit_or d.device_status (u32 val) in
    elim (Bool-cases (val == 0)) [
      | inl e ↦ rw (write_status, e) (inl refl)
      | inr e ↦ elim (Bool-cases (nonzero (bit_and status features_ok))) [
        | inr off ↦ rw (write_status, e, off) (inl (nonzero-false _ off))
        | inl on ↦
            elim (Bool-cases (nonzero (bit_and d.driver_features (not64 d.device_features)))) [
              | inr fine ↦ rw (write_status, e, on, fine) (inr (nonzero-false _ fine))
              | inl bad ↦ rw (write_status, e, on, bad) (inl (cleared status))
            ]
      ]
    ]
