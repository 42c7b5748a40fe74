-- ===== src/Dev/Pci.antt =====
-- The PCI host bridge of src/devices/pci-host-ecam-generic.cpp: configuration space and the windows
-- of the base address registers, over an interface for the devices in its 32 slots.
pub mod Windows
use rv64_vm.Prelude.{
  ℕ, zero, suc, ◌+◌, ◌-◌, ◌%◌, ◌^◌, bit_and, Bool, true, ◌&&◌, Option, none, some, List, [], ◌∷◌,
  ◌==◌, ltb, leb, if◌then◌else◌, update, u64, ◌>>>◌,
}

-- `World` is the state of all devices; `bars` are the six of a slot's device, as the guest set them.
pub record Bar : Type 0 where
  pub address : ℕ
  pub size : ℕ

pub record Functions : Type 1 where
  pub World : Type 0
  pub bars : World → ℕ → List Bar
  pub read_config : ℕ → ℕ → ℕ → World → ℕ × World
  pub write_config : ℕ → ℕ → ℕ → ℕ → World → World
  pub read_mmio : ℕ → ℕ → ℕ → World → ℕ × World
  pub write_mmio : ℕ → ℕ → ℕ → ℕ → World → World
  pub tick_device : ℕ → World → World

-- `bar_size > 0 && bar_start > 0 && addr >= bar_start && addr < (bar_start + bar_size)`
unfoldable pub in_bar : ℕ → Bar → Bool
in_bar addr bar =
    ltb 0 bar.size
    && ltb 0 bar.address
    && leb bar.address addr
    && ltb addr (u64 (bar.address + bar.size))

-- The offset of an address in the first window of a device that holds it.
unfoldable pub find_bar : ℕ → List Bar → Option ℕ
find_bar addr [] = none
find_bar addr (b ∷ bs) =
    let rest = find_bar addr bs in if in_bar addr b then some (addr - b.address) else rest

module _ (fns : Functions) where
  open fns use {World, bars, read_config, write_config, read_mmio, write_mmio, tick_device}

  -- `devices[slot] != nullptr` is `attached slot`.
  pub record Pci : Type 0 where
    pub start : ℕ
    pub attached : ℕ → Bool
    pub world : World

  -- `dev != nullptr` is `present`; the pointer is stored either way.
  unfoldable pub attach_device : Pci → ℕ → Bool → Pci
  attach_device p slot present =
      if ltb slot 32 then record p { attached = update p.attached slot present } else p

  -- The loop over the slots from `slot` on, `left` of them.
  unfoldable pub tick_from : ℕ → ℕ → Pci → Pci
  tick_from zero slot p = p
  tick_from (suc left) slot p =
      tick_from left (slot + 1)
        (if p.attached slot then record p { world = tick_device slot p.world } else p)

  unfoldable pub tick : Pci → Pci
  tick p = tick_from 32 0 p

  -- The slot and the offset that an address in the windows belongs to.
  unfoldable pub find_window : ℕ → ℕ → Pci → ℕ → Option (ℕ × ℕ)
  find_window zero slot p addr = none
  find_window (suc left) slot p addr =
      let rest = find_window left (slot + 1) p addr in
      if p.attached slot
      then elim (find_bar addr (bars p.world slot)) [ none ↦ rest | some off ↦ some (slot, off) ]
      else rest

  abbrev pub offset_of : Pci → ℕ → ℕ
  offset_of p addr = u64 (addr + 2 ^ 64 - p.start)

  abbrev pub dev_of : ℕ → ℕ
  dev_of offset = bit_and (offset >>> 15) 0x1f

  abbrev pub func_of : ℕ → ℕ
  func_of offset = bit_and (offset >>> 12) 7

  abbrev pub reg_of : ℕ → ℕ
  reg_of offset = bit_and offset 0xfff

  abbrev pub in_ecam : ℕ → Bool
  in_ecam offset = ltb offset 0x00100000

  abbrev pub in_mmio : ℕ → Bool
  in_mmio offset = leb 0x00200000 offset && ltb offset 0x08000000

  unfoldable pub read : Pci → ℕ → ℕ → ℕ × Pci
  read p addr size =
      let offset = offset_of p addr in
      let dev = dev_of offset in
      if in_ecam offset
      then (if p.attached dev && func_of offset == 0
          then (let r = read_config dev (reg_of offset) size p.world in
              (r.0, record p { world = r.1 }))
          else (0xffffffff, p))
      else if in_mmio offset
      then elim (find_window 32 0 p addr) [
        | none ↦ (0, p)
        | some (slot, off) ↦
            let r = read_mmio slot off size p.world in (r.0, record p { world = r.1 })
      ]
      else (0, p)

  unfoldable pub write : Pci → ℕ → ℕ → ℕ → Pci
  write p addr size val =
      let offset = offset_of p addr in
      let dev = dev_of offset in
      if in_ecam offset
      then (if p.attached dev && func_of offset == 0
          then record p { world = write_config dev (reg_of offset) size val p.world }
          else p)
      else if in_mmio offset
      then elim (find_window 32 0 p addr) [
        | none ↦ p
        | some (slot, off) ↦ record p { world = write_mmio slot off size val p.world }
      ]
      else p
