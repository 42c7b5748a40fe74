-- ===== src/Dev/I2c.antt =====
-- The I2C controller of src/devices/i2c/i2c-core.cpp, over an interface for the devices on its bus.
-- `none` is an access of the interrupt controller beyond its vectors.
pub mod Busy
use rv64_vm.Prelude.{
  ◌>>=◌, ℕ, zero, suc, ◌+◌, ◌-◌, ◌*◌, ◌%◌, ◌^◌, Bool, true, false, not, ◌&&◌, ◌||◌, Option, none,
  some, List, [], ◌∷◌, ◌==◌, ltb, if◌then◌else◌, bit, u8, u64, ◌>>>◌,
}
use rv64_vm.Dev.Plic.{Plic, set_pending}

-- `I2CSlave`: the addresses on the bus, and the four calls on the slave of an index.
pub record Slaves : Type 1 where
  pub World : Type 0
  pub addresses : World → List ℕ
  pub start_transmit : ℕ → World → World
  pub stop_transmit : ℕ → World → World
  pub dev_write : ℕ → ℕ → World → World
  pub dev_read : ℕ → Bool → World → ℕ × World

-- The fields of `i2c_sr`.
pub record Sr : Type 0 where
  pub irq_flag : Bool
  pub tip : Bool
  pub al : Bool
  pub busy : Bool
  pub rx_ack : Bool

abbrev pub sr_zero : Sr
sr_zero = record { irq_flag = false; tip = false; al = false; busy = false; rx_ack = false }

abbrev pub to_bit : Bool → ℕ
to_bit b = if b then 1 else 0

-- `sr.raw`
unfoldable pub sr_raw : Sr → ℕ
sr_raw s =
    to_bit s.irq_flag
    + to_bit s.tip * 2
    + to_bit s.al * 2 ^ 5
    + to_bit s.busy * 2 ^ 6
    + to_bit s.rx_ack * 2 ^ 7

-- The fields of `i2c_cr`.
abbrev pub is_set : ℕ → ℕ → Bool
is_set cr i = bit cr i == 1

abbrev pub cr_iack : ℕ → Bool
cr_iack cr = is_set cr 0

abbrev pub cr_ack : ℕ → Bool
cr_ack cr = is_set cr 3

abbrev pub cr_wr : ℕ → Bool
cr_wr cr = is_set cr 4

abbrev pub cr_rd : ℕ → Bool
cr_rd cr = is_set cr 5

abbrev pub cr_sto : ℕ → Bool
cr_sto cr = is_set cr 6

abbrev pub cr_sta : ℕ → Bool
cr_sta cr = is_set cr 7

abbrev pub run_delay : ℕ
run_delay = 100

-- The index of the first slave with an address.
unfoldable pub find_slave : List ℕ → ℕ → Option ℕ
find_slave [] address = none
find_slave (a ∷ others) address =
    let rest = find_slave others address in
    if a == address then some 0 else elim rest [ none ↦ none | some i ↦ some (i + 1) ]

module _ (bus : Slaves) where
  open bus use {World, addresses, start_transmit, stop_transmit, dev_write, dev_read}

  pub record I2c : Type 0 where
    pub start : ℕ
    pub irq_num : ℕ
    pub prer_lo : ℕ
    pub prer_hi : ℕ
    pub ctr : ℕ
    pub txr : ℕ
    pub rxr : ℕ
    pub cr : ℕ
    pub sr : Sr
    pub device_selected : Bool
    pub current_address : ℕ
    pub current_dev : Option ℕ
    pub is_read_operation : Bool
    pub int_line : Bool
    pub op_active : Bool
    pub delay : ℕ
    pub plic : Plic
    pub slaves : World

  unfoldable pub read : I2c → ℕ → ℕ
  read c addr =
      let offs = u64 (addr + 2 ^ 64 - c.start) in
      if offs == 0
      then c.prer_lo
      else if offs == 4
      then c.prer_hi
      else if offs == 8
      then c.ctr
      else if offs == 12
      then c.rxr
      else if offs == 16
      then sr_raw c.sr
      else 0

  unfoldable pub raise_interrupt : I2c → Option I2c
  raise_interrupt c =
      if is_set c.ctr 6 && not c.int_line
      then set_pending c.plic c.irq_num true
        >>= (λ p. some (record c { int_line = true; plic = p }))
      else some c

  unfoldable pub lower_interrupt : I2c → Option I2c
  lower_interrupt c =
      if c.int_line
      then set_pending c.plic c.irq_num false
        >>= (λ p. some (record c { int_line = false; plic = p }))
      else some c

  -- IACK
  unfoldable pub acknowledge : I2c → Option I2c
  acknowledge c =
      if cr_iack c.cr
      then lower_interrupt (record c { sr = record c.sr { irq_flag = false } })
        >>= (λ d. some (record d { cr = d.cr - 1 }))
      else some c

  -- STA
  unfoldable pub start_command : I2c → I2c
  start_command c =
      if cr_sta c.cr
      then record c { sr = record c.sr { busy = true }; current_address = 0xffff }
      else c

  -- The first byte after a start: the address of a slave. Without such a slave RxACK stays.
  unfoldable pub select : I2c → I2c
  select c =
      let address = c.txr >>> 1 in
      let d = record c {
        current_address = address;
        is_read_operation = is_set c.txr 0;
        device_selected = false;
      } in
      elim (find_slave (addresses c.slaves) address) [
        | none ↦ d
        | some i ↦ record d {
          current_dev = some i;
          slaves = start_transmit i c.slaves;
          device_selected = true;
          sr = record c.sr { rx_ack = false };
        }
      ]

  -- `device_selected && current_dev`
  abbrev pub selected : I2c → Option ℕ
  selected c = if c.device_selected then c.current_dev else none

  unfoldable pub send : I2c → I2c
  send c =
      let d = record c { sr = record c.sr { tip = true; rx_ack = true } } in
      elim (selected c) [
        | none ↦ d
        | some i ↦ record d {
          slaves = dev_write i c.txr c.slaves;
          sr = record d.sr { rx_ack = false };
        }
      ]

  -- WR
  unfoldable pub write_command : I2c → I2c
  write_command c =
      if not (cr_wr c.cr) then c else if c.current_address == 0xffff then select c else send c

  -- RD
  unfoldable pub read_command : I2c → I2c
  read_command c = if not (cr_rd c.cr) then c else elim (selected c) [
    | none ↦ record c { rxr = 0xff; sr = record c.sr { tip = true; rx_ack = true } }
    | some i ↦
        let r = dev_read i (cr_ack c.cr) c.slaves in
        record c { rxr = r.0; slaves = r.1; sr = record c.sr { tip = true; rx_ack = false } }
  ]

  -- STO
  unfoldable pub stop_command : I2c → I2c
  stop_command c = if not (cr_sto c.cr) then c else record c {
    slaves = elim (selected c) [ none ↦ c.slaves | some i ↦ stop_transmit i c.slaves ];
    device_selected = false;
    sr = record c.sr { busy = false };
  }

  -- `transaction_started`, and the end of a transaction.
  unfoldable pub finish : I2c → Option I2c
  finish c =
      if cr_wr c.cr || cr_rd c.cr || cr_sto c.cr
      then raise_interrupt (record c { sr = record c.sr { tip = false; irq_flag = true } })
      else some c

  unfoldable pub execute_command : I2c → Option I2c
  execute_command c = acknowledge c >>= λ d.
      if not (cr_sta d.cr) && not (cr_sto d.cr) && not (cr_rd d.cr) && not (cr_wr d.cr)
      then some d
      else finish (stop_command (read_command (write_command (start_command d))))

  unfoldable pub tick : I2c → Option I2c
  tick c =
      let d = record c { delay = c.delay + 1 } in
      if not c.op_active
      then some c
      else if ltb d.delay run_delay
      then some d
      else execute_command d >>= (λ e. some (record e { op_active = false }))

  -- The register CTR: switching the core off resets its status.
  unfoldable pub write_ctr : I2c → ℕ → Option I2c
  write_ctr c val =
      let d = record c { ctr = u8 val } in
      if not (is_set d.ctr 7)
      then lower_interrupt
          (record d { sr = sr_zero; device_selected = false; current_address = 0xffff })
      else some d

  unfoldable pub write : I2c → ℕ → ℕ → Option I2c
  write c addr val =
      let offs = u64 (addr + 2 ^ 64 - c.start) in
      if offs == 0
      then some (record c { prer_lo = u8 val })
      else if offs == 4
      then some (record c { prer_hi = u8 val })
      else if offs == 8
      then write_ctr c val
      else if offs == 12
      then some (record c { txr = u8 val })
      else if offs == 16
      then (if not (is_set c.ctr 7)
          then some c
          else some (record c {
            cr = u8 val;
            op_active = true;
            delay = 0;
            sr = record c.sr { tip = true; irq_flag = false };
          }))
      else some c
