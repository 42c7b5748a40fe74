-- ===== src/Tests/Buses.antt =====
-- The I2C controller with one slave, a counter of the bytes written to it, and the PCI bridge.
use rv64_vm.Prelude.{◌>>=◌, ℕ, ◌+◌, ◌≡◌, refl, arith, false, none, some, [], ◌∷◌, ◌==◌}
use rv64_vm.Dev.I2c.{Slaves, I2c, write, sr_zero}
use rv64_vm.Dev.Pci.{Functions, Pci, find_window}
use rv64_vm.Dev.Pci.Windows.{IsWindow, find_window-IsWindow}
use rv64_vm.Dev.I2c.Busy.{ticks, armed, accepted, run_now, write-ticks}
use rv64_vm.Tests.Controller.{quiet_controller}

abbrev slaves0 : Slaves
slaves0 = record {
  World = ℕ;
  addresses = λ w. 0x15 ∷ [];
  start_transmit = λ i w. w;
  stop_transmit = λ i w. w;
  dev_write = λ i v w. w + 1;
  dev_read = λ i ack w. (w, w);
}

abbrev i2c0 : I2c slaves0
i2c0 = record {
  start = 0x10030000;
  irq_num = 7;
  prer_lo = 0xff;
  prer_hi = 0xff;
  ctr = 0xc0;
  txr = 0x2a;
  rxr = 0;
  cr = 0;
  sr = sr_zero;
  device_selected = false;
  current_address = 0xffff;
  current_dev = none;
  is_read_operation = false;
  int_line = false;
  op_active = false;
  delay = 0;
  plic = quiet_controller;
  slaves = 0;
}

-- Start, and write the address of the slave.
write-ticks_example :
    ((write slaves0 i2c0 0x10030010 0x90 >>= ticks slaves0 30)
      ≡ some (armed slaves0 (accepted slaves0 i2c0 0x90) 30))
    × ((write slaves0 i2c0 0x10030010 0x90 >>= ticks slaves0 100)
        ≡ run_now slaves0 (accepted slaves0 i2c0 0x90))
write-ticks_example = write-ticks slaves0 i2c0 0x10030010 0x90 30 refl refl (omega arith)

-- One device in slot 3 with a window of 4096 bytes.
abbrev functions0 : Functions
functions0 = record {
  World = ℕ;
  bars = λ w slot.
      record { address = 0; size = 0 } ∷ record { address = 0x30200000; size = 0x1000 } ∷ [];
  read_config = λ slot reg size w. (reg, w);
  write_config = λ slot reg size v w. v;
  read_mmio = λ slot off size w. (off, w);
  write_mmio = λ slot off size v w. v;
  tick_device = λ slot w. w;
}

abbrev pci0 : Pci functions0
pci0 = record { start = 0x30000000; attached = λ slot. slot == 3; world = 0 }

find_window-IsWindow_example :
    IsWindow functions0 pci0 0x30200010 32 (find_window functions0 32 0 pci0 0x30200010)
find_window-IsWindow_example = find_window-IsWindow functions0 pci0 0x30200010
