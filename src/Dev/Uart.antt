-- ===== src/Dev/Uart.antt =====
-- src/devices/uart.cpp, include/devices/uart.hpp: the serial port. `irq` is what it last told the
-- interrupt controller of its source, `sent` the bytes given to the host's stream, the last one first.
-- `overrun_error` is never used and is left out.
pub mod Consistent
use rv64_vm.Prelude.{
  ℕ, zero, suc, ◌+◌, ◌*◌, ◌/◌, ◌%◌, ◌^◌, Bool, true, false, not, ◌&&◌, ◌||◌, List, [], ◌∷◌, ◌++◌,
  leb, ◌==◌, if◌then◌else◌, u8, bit, with_bit,
}

pub record Uart : Type 0 where
  pub rhr : ℕ
  pub thr : ℕ
  pub ier : ℕ
  pub iir : ℕ
  pub fcr : ℕ
  pub lcr : ℕ
  pub mcr : ℕ
  pub lsr : ℕ
  pub msr : ℕ
  pub scr : ℕ
  pub dll : ℕ
  pub dlm : ℕ
  pub rx_irq_pending : Bool
  pub tx_irq_pending : Bool
  pub dlab : Bool
  pub fifo_enabled : Bool
  pub fifo_buffer : List ℕ
  pub irq : Bool
  pub sent : List ℕ

abbrev pub iir_no_int : ℕ
iir_no_int = 1

abbrev pub iir_thr_empty : ℕ
iir_thr_empty = 2

abbrev pub iir_rx_available : ℕ
iir_rx_available = 4

-- The bits of LSR: `LSR_DATA_READY` is bit 0, `LSR_OE` bit 1 and `LSR_THR_EMPTY` bit 5.
abbrev pub data_ready : ℕ → Bool
data_ready lsr = bit lsr 0 == 1

abbrev pub with_ready : ℕ → Bool → ℕ
with_ready lsr b = with_bit lsr 0 (if b then 1 else 0)

-- The constructor.
unfoldable pub init : Uart
init = record {
  rhr = 0;
  thr = 0;
  ier = 0;
  iir = 1;
  fcr = 0;
  lcr = 0;
  mcr = 0;
  lsr = 0x60;
  msr = 0;
  scr = 0;
  dll = 0;
  dlm = 0;
  rx_irq_pending = false;
  tx_irq_pending = false;
  dlab = false;
  fifo_enabled = false;
  fifo_buffer = [];
  irq = false;
  sent = [];
}

-- On the two registers that it reads.
unfoldable pub calc_iir : ℕ → ℕ → ℕ
calc_iir ier lsr =
    if bit ier 0 == 1 && data_ready lsr
    then iir_rx_available
    else if bit ier 1 == 1 && bit lsr 5 == 1
    then iir_thr_empty
    else iir_no_int

unfoldable pub update_iir : Uart → Uart
update_iir u =
    let new_iir = calc_iir u.ier u.lsr in
    let irq_active = not (new_iir == iir_no_int) in
    record u {
      iir = new_iir;
      irq = irq_active;
      rx_irq_pending = irq_active && (u.rx_irq_pending || new_iir == iir_rx_available);
      tx_irq_pending = irq_active && (u.tx_irq_pending || new_iir == iir_thr_empty);
    }

pub record Access : Type 0 where
  pub uart : Uart
  pub val : ℕ

-- The byte received that a read of RHR gives, and the state before the interrupt is updated.
unfoldable pub take_byte : Uart → Access
take_byte u =
    if u.fifo_enabled
    then elim (u.fifo_buffer) [
      | [] ↦ record { uart = u; val = 0 }
      | b ∷ [] ↦ record {
        uart = record u { fifo_buffer = []; lsr = with_ready u.lsr false };
        val = b;
      }
      | b ∷ c ∷ cs ↦ record { uart = record u { fifo_buffer = c ∷ cs }; val = b }
    ]
    else record { uart = record u { lsr = with_ready u.lsr false }; val = u.rhr }

-- `if(lsr & LSR_OE) lsr &= ~LSR_OE; update_iir();`
unfoldable pub after_read : Uart → Uart
after_read u = update_iir (record u { lsr = with_bit u.lsr 1 0 })

-- What a read of IIR does to the flags.
unfoldable pub acknowledge : Uart → Uart
acknowledge u =
    if u.iir == iir_rx_available && u.rx_irq_pending
    then (let u' = record u { rx_irq_pending = false } in
        if calc_iir u.ier u.lsr == iir_no_int then update_iir u' else u')
    else if u.iir == iir_thr_empty && u.tx_irq_pending
    then (let u' = record u { tx_irq_pending = false } in
        if calc_iir u.ier u.lsr == iir_no_int then update_iir u' else u')
    else u

-- `offset` is `addr - start`.
unfoldable pub read : Uart → ℕ → Access
read u offset =
    let reg = u8 offset in
    if reg == 0
    then (if u.dlab
        then record { uart = u; val = u.dll }
        else let r = take_byte u in record { uart = after_read r.uart; val = r.val })
    else if reg == 2
    then record { uart = acknowledge u; val = u.iir }
    else record {
      uart = u;
      val =
          if reg == 1
          then (if u.dlab then u.dlm else u.ier)
          else if reg == 3
          then u.lcr
          else if reg == 4
          then u.mcr
          else if reg == 5
          then u.lsr
          else if reg == 6
          then u.msr
          else if reg == 7
          then u.scr
          else 0;
    }

-- The change of mode of a write to FCR: the byte held moves into the queue, or the first of the queue
-- becomes the byte held.
unfoldable pub switch_fifo : Uart → Bool → Uart
switch_fifo u enabled =
    if enabled && not u.fifo_enabled && data_ready u.lsr
    then record u { fifo_enabled = enabled; fifo_buffer = u.fifo_buffer ++ (u.rhr ∷ []) }
    else if not enabled && u.fifo_enabled
    then elim (u.fifo_buffer) [
      | [] ↦ record u { fifo_enabled = enabled }
      | b ∷ bs ↦ record u {
        fifo_enabled = enabled;
        rhr = b;
        fifo_buffer = [];
        lsr = with_ready u.lsr true;
      }
    ]
    else record u { fifo_enabled = enabled }

unfoldable pub write_fcr : Uart → ℕ → Uart
write_fcr u value =
    let u' = switch_fifo (record u { fcr = value }) (bit value 0 == 1) in
    if bit value 1 == 1
    then update_iir
        (record u' { fifo_buffer = []; lsr = with_ready u'.lsr false; rx_irq_pending = false })
    else u'

unfoldable pub write : Uart → ℕ → ℕ → Uart
write u offset value =
    let reg = u8 offset in
    let byte = u8 value in
    if reg == 0
    then (if u.dlab
        then record u { dll = byte }
        else update_iir (record u { thr = byte; sent = byte ∷ u.sent }))
    else if reg == 1
    then (if u.dlab then record u { dlm = byte } else update_iir (record u { ier = byte % 16 }))
    else if reg == 2
    then write_fcr u byte
    else if reg == 3
    then record u { lcr = byte; dlab = bit byte 7 == 1 }
    else if reg == 4
    then record u { mcr = byte }
    else if reg == 7
    then record u { scr = byte }
    else u

abbrev pub length : List ℕ → ℕ
length [] = 0
length (b ∷ bs) = length bs + 1

unfoldable pub receive_byte : Uart → ℕ → Uart
receive_byte u byte =
    if u.fifo_enabled && leb 512 (length u.fifo_buffer)
    then record u { lsr = with_bit u.lsr 1 1 }
    else if u.fifo_enabled
    then update_iir
        (record u { fifo_buffer = u.fifo_buffer ++ (byte ∷ []); lsr = with_ready u.lsr true })
    else if data_ready u.lsr
    then update_iir (record u { lsr = with_bit u.lsr 1 1 })
    else update_iir (record u { rhr = byte; lsr = with_ready u.lsr true })
