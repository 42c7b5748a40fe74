-- ===== src/Dev/Clint.antt =====
-- src/devices/clint.cpp, include/devices/clint.hpp and include/structs/timecmp_st.hpp: the core-local
-- interruptor. Its registers sit in vectors with an element for each core: a function beside their number,
-- and an access beyond them is `none`. The timer is an interface, whose time stands still during an
-- operation. The thread that calls `update_mip` now and then is not here.
pub mod Driven
use rv64_vm.Prelude.{
  ℕ, zero, suc, ◌+◌, ◌-◌, ◌%◌, ◌^◌, Bool, not, ◌&&◌, Option, none, some, ltb, leb, ◌==◌,
  if◌then◌else◌, update, u32, ◌>>>◌, with_bit,
}
use rv64_vm.Hart.State.{Hart}

-- `timer_get` and `timer_set` of include/structs/timer_st.hpp, over the clock of the host.
pub record Timer : Type 1 where
  pub State : Type 0
  pub get : State → ℕ
  pub set : State → ℕ → State

abbrev pub mswi_size : ℕ
mswi_size = 0x4000

abbrev pub mtimer_size : ℕ
mtimer_size = 0x8000

module _ (timer : Timer) where
  pub record Clint : Type 0 where
    pub count : ℕ
    pub msip : ℕ → ℕ
    pub mtimecmp : ℕ → ℕ
    pub mtime : timer.State

  abbrev bool_bit : Bool → ℕ
  bool_bit b = if b then 1 else 0

  -- The body of the loop of `update_mip`: the time, and MSIP, MTIP and STIP.
  unfoldable pub update_hart : Clint → ℕ → Hart → Hart
  update_hart c now hart = record hart {
    ctime = now;
    ip =
        with_bit
          (with_bit (with_bit hart.ip 3 (c.msip hart.id % 2)) 7
            (bool_bit (leb (c.mtimecmp hart.id) now)))
          5 (bool_bit (leb hart.stimecmp now && not (hart.stimecmp == 2 ^ 64 - 1)));
  }

  -- The loop from core `i` on, with `left` cores to go.
  unfoldable pub update_from : Clint → ℕ → ℕ → ℕ → (ℕ → Hart) → Option (ℕ → Hart)
  update_from c now i zero harts = some harts
  update_from c now i (suc left) harts =
      let rest = update_from c now (i + 1) left (update harts i (update_hart c now (harts i))) in
      if ltb (harts i).id c.count then rest else none

  unfoldable pub update_mip : Clint → (ℕ → Hart) → Option (ℕ → Hart)
  update_mip c harts = update_from c (timer.get c.mtime) 0 c.count harts

  -- An element of a vector that has one for each core.
  abbrev pub element : Clint → (ℕ → ℕ) → ℕ → Option ℕ
  element c f i = if ltb i c.count then some (f i) else none

  unfoldable pub read_mswi : Clint → ℕ → Option ℕ
  read_mswi c offset = element c c.msip (offset >>> 2)

  unfoldable pub read_mtimer : Clint → ℕ → Option ℕ
  read_mtimer c offset =
      if offset == 0x7ff8 then some (timer.get c.mtime) else element c c.mtimecmp (offset >>> 3)

  -- `off` is `addr - start`.
  unfoldable pub read : Clint → ℕ → Option ℕ
  read c off =
      if ltb off mswi_size
      then read_mswi c off
      else if ltb off (mswi_size + mtimer_size)
      then read_mtimer c (off - mswi_size)
      else some 0

  -- What a write leaves: the registers, and the cores with their interrupt lines.
  pub record Written : Type 0 where
    pub clint : Clint
    pub harts : ℕ → Hart

  abbrev pub updated : Clint → (ℕ → Hart) → Option Written
  updated c harts = elim (update_mip c harts) [
    | none ↦ none
    | some harts' ↦ some (record { clint = c; harts = harts' })
  ]

  unfoldable pub write_mswi : Clint → (ℕ → Hart) → ℕ → ℕ → Option Written
  write_mswi c harts offset value =
      if ltb (offset >>> 2) c.count
      then updated (record c { msip = update c.msip (offset >>> 2) (u32 value) }) harts
      else none

  unfoldable pub write_mtimer : Clint → (ℕ → Hart) → ℕ → ℕ → Option Written
  write_mtimer c harts offset value =
      if offset == 0x7ff8
      then updated (record c { mtime = timer.set c.mtime value }) harts
      else if ltb (offset >>> 3) c.count
      then updated (record c { mtimecmp = update c.mtimecmp (offset >>> 3) value }) harts
      else none

  unfoldable pub write : Clint → (ℕ → Hart) → ℕ → ℕ → Option Written
  write c harts off value =
      if ltb off mswi_size
      then write_mswi c harts off value
      else if ltb off (mswi_size + mtimer_size)
      then write_mtimer c harts (off - mswi_size) value
      else some (record { clint = c; harts = harts })
