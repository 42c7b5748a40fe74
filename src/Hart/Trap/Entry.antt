-- ===== src/Hart/Trap/Entry.antt =====
-- What the handler finds when `trap` has run.
use rv64_vm.Prelude.{
  ℕ, ◌+◌, ◌*◌, ◌/◌, ◌%◌, ◌^◌, ◌≤◌, ◌<◌, Bool, true, false, ◌&&◌, ◌==◌, ltb, ◌≡◌, ◌≢◌, arith,
  if◌then◌else◌,
}
use rv64_vm.Bits.{zero-bit_or}
use rv64_vm.Bits.Join.{bit_or_top}
use rv64_vm.Bits.Masks.{bit_or_comm}
use rv64_vm.Hart.Csrs
use rv64_vm.Hart.State.{Hart, supervisor, hypervisor, machine, to_number}
use rv64_vm.Hart.Trap.{trap, delegate_to_s, cause_word, vector_pc}

-- The delegation of the privileged architecture: below machine mode, by the bit of the cause.
abbrev goes_to_s : Hart → ℕ → Bool → Bool
goes_to_s h cause interrupt =
    ltb (to_number h.mode) 3
    && h.csrs (if interrupt then Csrs.mideleg else Csrs.medeleg) / 2 ^ cause % 2 == 1

-- Its vectors: mode 0 sends all traps to the base, mode 1 spreads the interrupts out.
abbrev entry_point : ℕ → Bool → ℕ → ℕ
entry_point tvec false cause = tvec / 4 * 4
entry_point tvec true cause =
    if tvec % 4 == 1 then (tvec / 4 * 4 + 4 * cause) % 2 ^ 64 else tvec / 4 * 4

-- Outside the hypervisor mode, a trap never lowers the privilege; it ends in supervisor mode if it is
-- delegated and in machine mode if not.
pub trap-mode-le :
    (h : Hart) (cause tval : ℕ) (interrupt : Bool)
    → h.mode ≢ hypervisor
    → let h' = trap h cause tval interrupt in
      (to_number h.mode ≤ to_number h'.mode)
      × (h'.mode ≡ (if delegate_to_s h cause interrupt then supervisor else machine))
unfolding trap delegate_to_s
trap-mode-le h cause tval interrupt hyp = ground arith

cause_word_lem :
    (interrupt : Bool) (cause : ℕ)
    → cause < 64
    → cause_word interrupt cause ≡ (if interrupt then 2 ^ 63 + cause else cause)
unfolding cause_word
cause_word_lem false cause small = zero-bit_or cause
cause_word_lem true cause small = omega (
  arith,
  bit_or_comm (2 ^ 63) cause (omega arith) (omega arith),
  bit_or_top 63 cause (omega arith),
)

-- A trap below machine mode goes to supervisor mode if the bit of its cause is set in mideleg, for an
-- interrupt, or in medeleg, for an exception; all others go to machine mode. On that level the handler
-- finds the interrupted program counter, the cause, with bit 63 set for an interrupt, and the value in
-- the CSRs, the interrupts of the level off, what their enable was and the mode that was interrupted in
-- the fields for it, MPRV off, and the reservation and the wait gone. The core goes on at the base of
-- the level's vector, an interrupt under vectored mode four bytes further for each number of its cause.
-- This holds for causes below 64, vectors of 64 bits, and outside the hypervisor mode.
pub trap_entry :
    (h : Hart) (cause tval : ℕ) (interrupt : Bool)
    → cause < 64
    → h.csrs Csrs.stvec < 2 ^ 64
    → h.csrs Csrs.mtvec < 2 ^ 64
    → h.mode ≢ hypervisor
    → let h' = trap h cause tval interrupt in
      let s = goes_to_s h cause interrupt in
      (h'.mode ≡ (if s then supervisor else machine))
      × (h'.csrs (if s then Csrs.sepc else Csrs.mepc) ≡ h.pc)
      × (h'.csrs (if s then Csrs.scause else Csrs.mcause)
          ≡ (if interrupt then 2 ^ 63 + cause else cause))
      × (h'.csrs (if s then Csrs.stval else Csrs.mtval) ≡ tval)
      × ((if s then h'.status.sie else h'.status.mie) ≡ 0)
      × ((if s then h'.status.spie else h'.status.mpie)
          ≡ (if s then h.status.sie else h.status.mie))
      × ((if s then h'.status.spp else h'.status.mpp) ≡ to_number h.mode)
      × (h'.status.mprv ≡ 0)
      × (h'.wfi ≡ false)
      × (h'.reservation.valid ≡ false)
      × (h'.pc ≡ entry_point (h.csrs (if s then Csrs.stvec else Csrs.mtvec)) interrupt cause)
unfolding trap delegate_to_s vector_pc
trap_entry h cause tval interrupt small s_word m_word hyp =
    let word = cause_word_lem interrupt cause small in ground arith

-- The interrupted program counter, for any cause and in every mode.
pub trap_saves_pc :
    (h : Hart) (cause tval : ℕ) (interrupt : Bool)
    → (trap h cause tval interrupt).csrs
        (if delegate_to_s h cause interrupt then Csrs.sepc else Csrs.mepc)
      ≡ h.pc
unfolding trap
trap_saves_pc h cause tval interrupt = ground arith

-- A trap leaves the general registers alone and, of the level that it does not go to, the saved program
-- counter, the interrupt enable and the field of the previous mode.
pub trap_frame :
    (h : Hart) (cause tval : ℕ) (interrupt : Bool)
    → let h' = trap h cause tval interrupt in
      let s = delegate_to_s h cause interrupt in
      (h'.gpr ≡ h.gpr)
      × (h'.csrs (if s then Csrs.mepc else Csrs.sepc) ≡ h.csrs (if s then Csrs.mepc else Csrs.sepc))
      × ((if s then h'.status.mie else h'.status.sie) ≡ (if s then h.status.mie else h.status.sie))
      × ((if s then h'.status.mpp else h'.status.spp) ≡ (if s then h.status.mpp else h.status.spp))
unfolding trap
trap_frame h cause tval interrupt = ground arith
