-- ===== src/Dev/Uart/Consistent.antt =====
-- src/devices/uart.cpp: the interrupt line agrees with the registers.
use rv64_vm.Prelude.{
  ℕ, Bool, true, false, not, ◌&&◌, List, [], ◌∷◌, ◌++◌, leb, ◌==◌, ◌≡◌, ◌⊎◌, inl, inr, refl, ap,
  sym, ◌∙◌, arith, if◌then◌else◌, u8, bit, with_bit,
}
use rv64_vm.Dev.Uart.{
  Uart, Access, init, calc_iir, update_iir, take_byte, after_read, acknowledge, read, switch_fifo,
  write_fcr, write, receive_byte, length, data_ready, with_ready, iir_no_int,
}

-- LSR says so if a byte waits in the queue, and the queue is empty while it is not enabled.
pub record IsQueued (u : Uart) : Type 0 where
  pub ready : (u.fifo_buffer ≡ []) ⊎ (bit u.lsr 0 ≡ 1)
  pub idle : (u.fifo_enabled ≡ true) ⊎ (u.fifo_buffer ≡ [])

-- The interrupt identification and the line are those of the registers.
pub record IsConsistent (u : Uart) : Type 0 where
  pub iir : u.iir ≡ calc_iir u.ier u.lsr
  pub irq : u.irq ≡ not (calc_iir u.ier u.lsr == iir_no_int)
  pub queue : IsQueued u

pub init-IsConsistent : IsConsistent init
unfolding init calc_iir
init-IsConsistent = record {
  iir = refl;
  irq = refl;
  queue = record { ready = inl refl; idle = inr refl };
}

update_iir-IsConsistent : (u : Uart) → IsQueued u → IsConsistent (update_iir u)
unfolding update_iir
update_iir-IsConsistent u q = record {
  iir = refl;
  irq = refl;
  queue = record { ready = q.ready; idle = q.idle };
}

take_byte-IsQueued : (u : Uart) → IsQueued u → IsQueued (take_byte u).uart
unfolding take_byte
take_byte-IsQueued u q = by_buffer u.fifo_buffer refl
  where
    by_buffer : (b : List ℕ) → u.fifo_buffer ≡ b → IsQueued (take_byte u).uart
    by_buffer [] e = record { ready = ground (arith, e); idle = ground (arith, e) }
    by_buffer (x ∷ []) e = record {
      ready = ground (arith, e, q.idle);
      idle = ground (arith, e, q.idle);
    }
    by_buffer (x ∷ y ∷ ys) e = record {
      ready = ground (arith, e, q.ready, q.idle);
      idle = ground (arith, e, q.idle);
    }

acknowledge-IsConsistent : (u : Uart) → IsConsistent u → IsConsistent (acknowledge u)
unfolding acknowledge update_iir
acknowledge-IsConsistent u c = record {
  iir = ground (arith, c.iir);
  irq = ground (arith, c.irq);
  queue = record { ready = ground (arith, c.queue.ready); idle = ground (arith, c.queue.idle) };
}

switch_fifo-IsQueued : (u : Uart) (b : Bool) → IsQueued u → IsQueued (switch_fifo u b)
unfolding switch_fifo
switch_fifo-IsQueued u b q = by_buffer u.fifo_buffer refl
  where
    by_buffer : (l : List ℕ) → u.fifo_buffer ≡ l → IsQueued (switch_fifo u b)
    by_buffer [] e = record { ready = ground (arith, e, q.ready); idle = ground (arith, e, q.idle) }
    by_buffer (x ∷ xs) e = record {
      ready = ground (arith, e, q.ready);
      idle = ground (arith, e, q.idle);
    }

after_read-IsConsistent : (u : Uart) → IsQueued u → IsConsistent (after_read u)
unfolding after_read
after_read-IsConsistent u q =
    update_iir-IsConsistent (record u { lsr = with_bit u.lsr 1 0 })
      (record { ready = ground (arith, q.ready); idle = q.idle })

-- Both branches of a test.
if-IsConsistent :
    (b : Bool) {x y : Uart} → IsConsistent x → IsConsistent y → IsConsistent (if b then x else y)
if-IsConsistent true cx cy = cx
if-IsConsistent false cx cy = cy

access-IsConsistent :
    (b : Bool) (x y : Access)
    → IsConsistent x.uart
    → IsConsistent y.uart
    → IsConsistent (if b then x else y).uart
access-IsConsistent true x y cx cy = cx
access-IsConsistent false x y cx cy = cy

-- Registers that no interrupt depends on.
plain-IsConsistent :
    (u u' : Uart)
    → (u'.iir ≡ u.iir)
      × (u'.irq ≡ u.irq)
      × (u'.ier ≡ u.ier)
      × (u'.lsr ≡ u.lsr)
      × (u'.fifo_enabled ≡ u.fifo_enabled)
      × (u'.fifo_buffer ≡ u.fifo_buffer)
    → IsConsistent u
    → IsConsistent u'
plain-IsConsistent u u' same c = record {
  iir = rw (same.0, same.2, same.3) c.iir;
  irq = rw (same.1, same.2, same.3) c.irq;
  queue = record {
    ready = rw (same.3, same.5) c.queue.ready;
    idle = rw (same.4, same.5) c.queue.idle;
  };
}

read-IsConsistent : (u : Uart) (offset : ℕ) → IsConsistent u → IsConsistent (read u offset).uart
unfolding read
read-IsConsistent u offset c =
    access-IsConsistent (u8 offset == 0) _ _
      (access-IsConsistent u.dlab _ _ c
        (after_read-IsConsistent (take_byte u).uart (take_byte-IsQueued u c.queue)))
      (access-IsConsistent (u8 offset == 2) _ _ (acknowledge-IsConsistent u c) c)

switch_fifo-IsConsistent : (u : Uart) (b : Bool) → IsConsistent u → IsConsistent (switch_fifo u b)
unfolding switch_fifo
switch_fifo-IsConsistent u b c = by_buffer u.fifo_buffer refl
  where
    by_buffer : (l : List ℕ) → u.fifo_buffer ≡ l → IsConsistent (switch_fifo u b)
    by_buffer [] e = record {
      iir = ground (arith, e, c.iir);
      irq = ground (arith, e, c.irq);
      queue = switch_fifo-IsQueued u b c.queue;
    }
    by_buffer (x ∷ xs) e =
        let here : bit u.lsr 0 ≡ 1 = ground (arith, e, c.queue.ready) in
        let same : with_ready u.lsr true ≡ u.lsr = omega (arith, here) in
        record {
          iir = ground (arith, e, c.iir, ap (λ (l : ℕ). calc_iir u.ier l) same);
          irq = ground (arith, e, c.irq, ap (λ (l : ℕ). calc_iir u.ier l) same);
          queue = switch_fifo-IsQueued u b c.queue;
        }

write_fcr-IsConsistent : (u : Uart) (value : ℕ) → IsConsistent u → IsConsistent (write_fcr u value)
unfolding write_fcr
write_fcr-IsConsistent u value c =
    if-IsConsistent (bit value 1 == 1)
      (update_iir-IsConsistent _ (record { ready = inl refl; idle = inr refl }))
      (switch_fifo-IsConsistent (record u { fcr = value }) (bit value 0 == 1)
        (plain-IsConsistent u (record u { fcr = value }) (refl, refl, refl, refl, refl, refl) c))

write-IsConsistent :
    (u : Uart) (offset value : ℕ) → IsConsistent u → IsConsistent (write u offset value)
unfolding write
write-IsConsistent u offset value c =
    if-IsConsistent (u8 offset == 0)
      (if-IsConsistent u.dlab unchanged (update_iir-IsConsistent _ queued))
      (if-IsConsistent (u8 offset == 1)
        (if-IsConsistent u.dlab unchanged (update_iir-IsConsistent _ queued))
        (if-IsConsistent (u8 offset == 2) (write_fcr-IsConsistent u (u8 value) c) (
          if-IsConsistent (u8 offset == 3) unchanged (
            if-IsConsistent (u8 offset == 4) unchanged
              (if-IsConsistent (u8 offset == 7) unchanged c)))))
  where
    unchanged :
        {rhr thr fcr lcr mcr msr scr dll dlm : ℕ} {rx tx dlab : Bool} {sent : List ℕ}
        → IsConsistent (record u {
          rhr = rhr;
          thr = thr;
          fcr = fcr;
          lcr = lcr;
          mcr = mcr;
          msr = msr;
          scr = scr;
          dll = dll;
          dlm = dlm;
          dlab = dlab;
          rx_irq_pending = rx;
          tx_irq_pending = tx;
          sent = sent;
        })
    unchanged = record {
      iir = c.iir;
      irq = c.irq;
      queue = record { ready = c.queue.ready; idle = c.queue.idle };
    }

    queued :
        {thr ier : ℕ} {sent : List ℕ} → IsQueued (record u { thr = thr; ier = ier; sent = sent })
    queued = record { ready = c.queue.ready; idle = c.queue.idle }

-- The overrun bit is none that an interrupt depends on.
calc_iir-overrun : (ier lsr : ℕ) → calc_iir ier (with_bit lsr 1 1) ≡ calc_iir ier lsr
unfolding calc_iir
calc_iir-overrun ier lsr =
    rw
      (
        (let e : bit (with_bit lsr 1 1) 0 ≡ bit lsr 0 = omega arith in e),
        (let e : bit (with_bit lsr 1 1) 5 ≡ bit lsr 5 = omega arith in e),
      )
      refl

receive_byte-IsConsistent :
    (u : Uart) (byte : ℕ) → IsConsistent u → IsConsistent (receive_byte u byte)
unfolding receive_byte
receive_byte-IsConsistent u byte c =
    if-IsConsistent (u.fifo_enabled && leb 512 (length u.fifo_buffer))
      (record {
        iir = c.iir ∙ sym (calc_iir-overrun u.ier u.lsr);
        irq = c.irq ∙ ap (λ (k : ℕ). not (k == iir_no_int)) (sym (calc_iir-overrun u.ier u.lsr));
        queue = overrun;
      })
      (by_mode u.fifo_enabled refl)
  where
    overrun : IsQueued (record u { lsr = with_bit u.lsr 1 1 })
    overrun = record { ready = ground (arith, c.queue.ready); idle = c.queue.idle }

    by_mode :
        (f : Bool)
        → u.fifo_enabled ≡ f
        → IsConsistent (
            if f
            then update_iir (record u {
              fifo_buffer = u.fifo_buffer ++ (byte ∷ []);
              lsr = with_ready u.lsr true;
            })
            else if data_ready u.lsr
            then update_iir (record u { lsr = with_bit u.lsr 1 1 })
            else update_iir (record u { rhr = byte; lsr = with_ready u.lsr true }))
    by_mode true e = update_iir-IsConsistent _ (record { ready = inr (omega arith); idle = inl e })
    by_mode false e =
        if-IsConsistent (data_ready u.lsr) (update_iir-IsConsistent _ overrun)
          (update_iir-IsConsistent _ (record { ready = inr (omega arith); idle = c.queue.idle }))

-- The states that the guest and the host can bring the port to.
pub data Reachable : Uart → Type 0 where
  start : Reachable init
  reading : (u : Uart) (offset : ℕ) → Reachable u → Reachable (read u offset).uart
  writing : (u : Uart) (offset value : ℕ) → Reachable u → Reachable (write u offset value)
  receiving : (u : Uart) (byte : ℕ) → Reachable u → Reachable (receive_byte u byte)

-- Whatever the guest reads and writes and the host sends, the interrupt line of the port and its IIR are
-- those that IER and LSR call for, and LSR says so if a byte waits in the queue.
pub Reachable-IsConsistent : (u : Uart) → Reachable u → IsConsistent u
Reachable-IsConsistent _ start = init-IsConsistent
Reachable-IsConsistent _ (reading u offset r) =
    read-IsConsistent u offset (Reachable-IsConsistent u r)
Reachable-IsConsistent _ (writing u offset value r) =
    write-IsConsistent u offset value (Reachable-IsConsistent u r)
Reachable-IsConsistent _ (receiving u byte r) =
    receive_byte-IsConsistent u byte (Reachable-IsConsistent u r)
