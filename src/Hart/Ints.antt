-- ===== src/Hart/Ints.antt =====
-- Interrupts: `int_local_pending` and `check_ints` of src/hart.cpp. `~mideleg` and the results of `&`
-- are 64-bit words; `63 - clz(x)` is the index of the highest bit of `x`.
pub mod Choice
use rv64_vm.Prelude.{
  ℕ, zero, suc, ◌-◌, ◌^◌, ◌/◌, ◌%◌, bit_and, bit, Bool, true, false, ◌==◌, if◌then◌else◌, leb, ltb,
  not64, nonzero,
}
use rv64_vm.Hart.Csrs
use rv64_vm.Hart.State.{Hart, machine, supervisor, is_mode, to_number}
use rv64_vm.Hart.Trap.{trap}

-- The highest set bit below `n`; 0 if there is none.
unfoldable pub highest_bit : ℕ → ℕ → ℕ
highest_bit zero x = 0
highest_bit (suc n) x = let rest = highest_bit n x in if bit x n == 1 then n else rest

unfoldable pub int_local_pending : Hart → Bool
int_local_pending h =
    let pending_all = bit_and h.ip h.ie in
    let mideleg = h.csrs Csrs.mideleg in
    if pending_all == 0
    then false
    else if nonzero (bit_and pending_all (not64 mideleg))
    then true
    else if leb (to_number h.mode) 1
    then nonzero (bit_and (bit_and pending_all Csrs.se_mask) mideleg)
    else false

-- `m_global` and `s_global`: may an interrupt of that level be taken in the present mode?
unfoldable pub m_global : Hart → Bool
m_global h = if is_mode h.mode machine then nonzero h.status.mie else ltb (to_number h.mode) 3

unfoldable pub s_global : Hart → Bool
s_global h = if is_mode h.mode supervisor then nonzero h.status.sie else ltb (to_number h.mode) 1

unfoldable pub pending_m : Hart → ℕ
pending_m h = bit_and (bit_and h.ip h.ie) (not64 (h.csrs Csrs.mideleg))

unfoldable pub pending_s : Hart → ℕ
pending_s h =
    bit_and (bit_and (bit_and h.ip Csrs.se_mask) (h.csrs Csrs.mideleg)) (bit_and h.ie Csrs.se_mask)

-- `check_ints` after the machine-level interrupts were found not to apply
check_s : Hart → Hart × Bool
check_s h =
    if s_global h
    then (if nonzero (pending_s h)
        then (trap h (highest_bit 64 (pending_s h)) 0 true, true)
        else (h, false))
    else (h, false)

unfoldable pub check_ints : Hart → Hart × Bool
unfolding check_s
check_ints h =
    if bit_and h.ip h.ie == 0
    then (h, false)
    else if m_global h
    then (if nonzero (pending_m h)
        then (trap h (highest_bit 64 (pending_m h)) 0 true, true)
        else check_s h)
    else check_s h
