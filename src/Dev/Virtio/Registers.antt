-- ===== src/Dev/Virtio/Registers.antt =====
-- The registers of the two virtio devices: `read` and `write` of src/devices/virtio/virtio_blk.cpp
-- and virtio_rng.cpp, whose common cases are the same.
use rv64_vm.Prelude.{
  ℕ, ◌+◌, ◌*◌, ◌-◌, ◌/◌, ◌^◌, bit_and, bit_or, false, ◌&&◌, ◌==◌, if◌then◌else◌, nonzero, u32, u64,
  not32, not64,
}
use rv64_vm.Dev.Virtio.{VirtQueueState, Virtio, System, Outcome, returned, Handler, process_queue}

-- `(x & ~0xFFFFFFFF) | (uint32_t)val`, and the other half.
abbrev pub with_low : ℕ → ℕ → ℕ
with_low x val = x / 2 ^ 32 * 2 ^ 32 + u32 val

abbrev pub with_high : ℕ → ℕ → ℕ
with_high x val = u32 x + u32 val * 2 ^ 32

abbrev pub low : ℕ → ℕ
low x = u32 x

abbrev pub high : ℕ → ℕ
high x = u32 (x / 2 ^ 32)

-- `addr - start` on 64 bits
abbrev pub offset : Virtio → ℕ → ℕ
offset d addr = u64 (addr + 2 ^ 64 - d.start)

-- `read`: `id` is the device's answer at VIRT_REG_DEVICEID and `own` its registers beyond the common
-- ones, 0 at an offset that it does not have.
unfoldable pub read : ℕ → (ℕ → ℕ) → Virtio → ℕ → ℕ
read id own d addr =
    let off = offset d addr in
    let q = d.queue0 in
    if off == 0x000
    then 0x74726976
    else if off == 0x004
    then 2
    else if off == 0x008
    then id
    else if off == 0x00c
    then 0x554d4551
    else if off == 0x010
    then (if d.device_features_sel == 0 then low d.device_features else high d.device_features)
    else if off == 0x014
    then d.device_features_sel
    else if off == 0x030
    then d.queue_sel
    else if off == 0x034
    then (if d.queue_sel == 0 then 128 else 0)
    else if off == 0x038
    then q.size
    else if off == 0x044
    then (if q.ready then 1 else 0)
    else if off == 0x060
    then d.interrupt_status
    else if off == 0x070
    then d.device_status
    else if off == 0x080
    then low q.desc_addr
    else if off == 0x084
    then high q.desc_addr
    else if off == 0x090
    then low q.avail_addr
    else if off == 0x094
    then high q.avail_addr
    else if off == 0x0a0
    then low q.used_addr
    else if off == 0x0a4
    then high q.used_addr
    else if off == 0x0fc
    then d.config_generation
    else own off

-- The registers of the block device: its capacity, limits and the size of a sector.
unfoldable pub read_blk : ℕ → Virtio → ℕ → ℕ
read_blk capacity_sectors = read 2 (λ off.
    if off == 0x100
    then low capacity_sectors
    else if off == 0x104
    then high capacity_sectors
    else if off == 0x10c
    then 128
    else if off == 0x144
    then 512
    else 0)

unfoldable pub read_rng : Virtio → ℕ → ℕ
read_rng = read 4 (λ off. 0)

abbrev pub features_ok : ℕ
features_ok = 8

-- The case VIRT_REG_STATUS: a reset, or more bits of which FEATURES_OK is refused to a driver that
-- has asked for features the device has not.
unfoldable pub reset : Virtio → Virtio
reset d = record d {
  device_status = 0;
  interrupt_status = 0;
  queue0 = record {
    size = 0;
    desc_addr = 0;
    avail_addr = 0;
    used_addr = 0;
    last_avail_idx = 0;
    last_used_idx = 0;
    ready = false;
  };
}

unfoldable pub write_status : Virtio → ℕ → Virtio
write_status d val =
    let status = bit_or d.device_status (u32 val) in
    let refused =
      nonzero (bit_and status features_ok)
      && nonzero (bit_and d.driver_features (not64 d.device_features)) in
    if val == 0
    then reset d
    else record d { device_status = if refused then bit_and status (not32 features_ok) else status }

-- A register of queue 0, which is written only while it is selected.
abbrev pub on_queue : Virtio → VirtQueueState → Virtio
on_queue d q = if d.queue_sel == 0 then record d { queue0 = q } else d

-- `write` but for QUEUENOTIFY.
unfoldable pub write_register : Virtio → ℕ → ℕ → Virtio
write_register d off val =
    let q = d.queue0 in
    if off == 0x014
    then record d { device_features_sel = u32 val }
    else if off == 0x024
    then record d { driver_features_sel = u32 val }
    else if off == 0x020
    then record d {
      driver_features =
          if d.driver_features_sel == 0
          then with_low d.driver_features val
          else with_high d.driver_features val;
    }
    else if off == 0x030
    then record d { queue_sel = u32 val }
    else if off == 0x038
    then on_queue d (record q { size = u32 val })
    else if off == 0x044
    then on_queue d (record q { ready = nonzero val })
    else if off == 0x080
    then on_queue d (record q { desc_addr = with_low q.desc_addr val })
    else if off == 0x084
    then on_queue d (record q { desc_addr = with_high q.desc_addr val })
    else if off == 0x090
    then on_queue d (record q { avail_addr = with_low q.avail_addr val })
    else if off == 0x094
    then on_queue d (record q { avail_addr = with_high q.avail_addr val })
    else if off == 0x0a0
    then on_queue d (record q { used_addr = with_low q.used_addr val })
    else if off == 0x0a4
    then on_queue d (record q { used_addr = with_high q.used_addr val })
    else if off == 0x064
    then record d { interrupt_status = bit_and d.interrupt_status (not32 (u32 val)) }
    else if off == 0x070
    then write_status d val
    else d

module _ {Own : Type 0} (handle : Handler Own) where
  unfoldable pub write : System Own → ℕ → ℕ → Outcome Own
  write s addr val =
      let off = offset s.dev addr in
      if off == 0x050
      then process_queue handle (u32 val) s
      else returned (record s { dev = write_register s.dev off val })
