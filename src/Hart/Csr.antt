-- ===== src/Hart/Csr.antt =====
-- `Hart::csr_write` and `Hart::csr_read` of src/hart.cpp. The floating-point CSRs trap from inside
-- both when `FS` is off, so a read gives the new state beside the value.
pub mod Views
use rv64_vm.Prelude.{
  ℕ, ◌+◌, ◌-◌, ◌*◌, ◌%◌, ◌/◌, ◌^◌, bit_and, bit_or, Bool, true, false, ◌&&◌, ◌||◌, leb, ◌==◌,
  if◌then◌else◌, update, field, not64, u16,
}
use rv64_vm.Hart.Csrs
use rv64_vm.Hart.Status.{Status, raw, of_raw}
use rv64_vm.Hart.State.{Hart, set_csr, satp_mode}
use rv64_vm.Hart.Trap.{trap}
use rv64_vm.Mem.Exc
use rv64_vm.Mem.Tlb.{flush_all}

-- `(old & mask) | (val & ~mask)`: `mask` keeps its bits.
abbrev pub keep : ℕ → ℕ → ℕ → ℕ
keep mask old val = bit_or (bit_and old mask) (bit_and val (not64 mask))

-- `(old & ~mask) | (val & mask)`: `mask` takes the new bits.
abbrev pub take : ℕ → ℕ → ℕ → ℕ
take mask old val = bit_or (bit_and old (not64 mask)) (bit_and val mask)

-- `case CSR_SATP`. The inner test compares `satp.raw` with the value just stored in it.
unfoldable pub write_satp : Hart → ℕ → Hart
write_satp h val =
    if satp_mode val == 9 || satp_mode val == 10
    then h
    else let h' = record h { satp = val } in
      if h'.satp == val then h' else record h' { satp = val; tlb = flush_all h'.tlb }

-- The three floating-point registers, behind the test of `FS`.
unfoldable pub write_float : Hart → ℕ → ℕ → Hart
write_float h csr val =
    if h.status.fs == 0
    then trap h Exc.illegal_instruction csr false
    else if csr == Csrs.fcsr
    then record h { fcsr = val; status = record (h.status) { fs = 3 } }
    else if csr == Csrs.fflags
    then record h { fcsr = h.fcsr - h.fcsr % 32 + val % 32 }
    else record h { fcsr = h.fcsr - field h.fcsr 5 3 * 32 + val % 8 * 32 }

abbrev pub is_float : ℕ → Bool
is_float csr = csr == Csrs.fcsr || csr == Csrs.fflags || csr == Csrs.frm

abbrev pub is_read_only : ℕ → Bool
is_read_only csr = csr == Csrs.mvendorid || csr == Csrs.marchid || csr == Csrs.mimpid

unfoldable pub csr_write : Hart → ℕ → ℕ → Hart
csr_write h csr val =
    if csr == Csrs.mstatus
    then record h { status = of_raw (keep Csrs.mstatus_ro_mask (raw h.status) val) }
    else if csr == Csrs.sstatus
    then record h { status = of_raw (take Csrs.sstatus_mask (raw h.status) val) }
    else if csr == Csrs.sie
    then record h { ie = u16 (take Csrs.se_mask h.ie val) }
    else if csr == Csrs.sip
    then record h { ip = u16 (take Csrs.se_mask h.ip val) }
    else if csr == Csrs.mie
    then record h { ie = u16 val }
    else if csr == Csrs.mip
    then record h { ip = u16 val }
    else if csr == Csrs.stimecmp
    then record h { stimecmp = val }
    else if csr == Csrs.satp
    then write_satp h val
    else if is_float csr
    then write_float h csr val
    else if is_read_only csr
    then h
    else set_csr h csr val

-- What the three floating-point registers read as.
unfoldable pub read_float : Hart → ℕ → Hart × ℕ
read_float h csr =
    if h.status.fs == 0
    then (trap h Exc.illegal_instruction csr false, 0)
    else if csr == Csrs.fcsr
    then (h, h.fcsr)
    else if csr == Csrs.fflags
    then (h, h.fcsr % 32)
    else (h, field h.fcsr 5 3)

-- The cases that return a value and leave the state alone.
unfoldable pub csr_value : Hart → ℕ → ℕ
csr_value h csr =
    if csr == Csrs.mstatus
    then raw h.status
    else if csr == Csrs.sstatus
    then bit_and (raw h.status) Csrs.sstatus_mask
    else if csr == Csrs.sie
    then bit_and h.ie Csrs.se_mask
    else if csr == Csrs.sip
    then bit_and h.ip Csrs.se_mask
    else if csr == Csrs.mip
    then h.ip
    else if csr == Csrs.mie
    then h.ie
    else if csr == Csrs.cycle || csr == Csrs.mcycle
    then h.cycle
    else if csr == Csrs.time
    then h.ctime
    else if csr == Csrs.instret || csr == Csrs.minstret
    then h.instret
    else if leb Csrs.hpmcounter3 csr && leb csr Csrs.hpmcounter31
    then h.csrs (csr - 0x100)
    else if csr == Csrs.stimecmp
    then h.stimecmp
    else if csr == Csrs.satp
    then h.satp
    else h.csrs csr

unfoldable pub csr_read : Hart → ℕ → Hart × ℕ
csr_read h csr = if is_float csr then read_float h csr else (h, csr_value h csr)
