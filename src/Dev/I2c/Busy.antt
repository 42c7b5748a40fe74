-- ===== src/Dev/I2c/Busy.antt =====
-- When a command of the I2C controller runs: `write` and `tick` of src/devices/i2c/i2c-core.cpp.
use rv64_vm.Prelude.{
  ◌>>=◌, ℕ, zero, suc, ◌+◌, ◌-◌, ◌^◌, ◌<◌, ◌≡◌, refl, ap, ◌∙◌, arith, true, false, Option, some,
  lt→ltb, u8, u64,
}
use rv64_vm.Dev.I2c.{Slaves, I2c, execute_command, tick, write, is_set, run_delay}

module _ (bus : Slaves) where
  -- `n` ticks, one after the other.
  abbrev pub ticks : ℕ → I2c bus → Option (I2c bus)
  ticks zero c = some c
  ticks (suc n) c = ticks n c >>= tick bus

  -- A command is waiting, and `d` ticks have passed.
  abbrev pub armed : I2c bus → ℕ → I2c bus
  armed c d = record c { op_active = true; delay = d }

  tick-armed :
      (c : I2c bus) (d : ℕ) → d + 1 < run_delay → tick bus (armed c d) ≡ some (armed c (d + 1))
  unfolding tick
  tick-armed c d h = rw (tick, lt→ltb (d + 1) run_delay h) refl

  ticks-armed : (c : I2c bus) (n : ℕ) → n < run_delay → ticks n (armed c 0) ≡ some (armed c n)
  ticks-armed c zero h = refl
  ticks-armed c (suc n) h =
      ap (λ o. o >>= tick bus) (ticks-armed c n (omega arith))
      ∙ tick-armed c n (omega arith)
      ∙ ap (λ k. some (armed c k)) (omega arith)

  -- The command that `write` leaves waiting.
  abbrev pub accepted : I2c bus → ℕ → I2c bus
  accepted c val = record c { cr = u8 val; sr = record c.sr { tip = true; irq_flag = false } }

  -- `execute_command` when the delay is over.
  abbrev pub run_now : I2c bus → Option (I2c bus)
  run_now c =
      execute_command bus (armed c run_delay) >>= (λ e. some (record e { op_active = false }))

  tick-runs : (c : I2c bus) → tick bus (armed c 99) ≡ run_now c
  unfolding tick
  tick-runs c = refl

  -- A command that the guest writes while the core is enabled changes nothing for 99 ticks but the
  -- count of them, and is executed by the 100th.
  pub write-ticks :
      (c : I2c bus) (addr val n : ℕ) (at_cr : u64 (addr + 2 ^ 64 - c.start) ≡ 16)
      (enabled : is_set c.ctr 7 ≡ true) (early : n < run_delay)
      → ((write bus c addr val >>= ticks n) ≡ some (armed (accepted c val) n))
        × ((write bus c addr val >>= ticks run_delay) ≡ run_now (accepted c val))
  unfolding write
  write-ticks c addr val n at_cr enabled early =
      rw (write, at_cr, enabled)
        (
          ticks-armed (accepted c val) n early,
          ap (λ o. o >>= tick bus) (ticks-armed (accepted c val) 99 (omega arith))
              ∙ tick-runs (accepted c val),
        )
