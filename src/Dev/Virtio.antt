-- ===== src/Dev/Virtio.antt =====
-- The queue of the two virtio devices, src/devices/virtio/virtio_blk.cpp and virtio_rng.cpp, which
-- share its code and their registers word for word. What a device does with a chain of descriptors
-- is a parameter. `none` is an exception that a memory access throws.
pub mod Registers
pub mod Chain
pub mod Negotiated
pub mod Drains
pub mod Blk
pub mod Rng
pub mod Requests
use rv64_vm.Prelude.{
  ◌>>=◌, ℕ, zero, suc, ◌+◌, ◌*◌, ◌%◌, ◌^◌, bit_and, bit_or, Bool, true, false, not, ◌||◌, Option,
  none, some, List, [], ◌∷◌, ◌==◌, if◌then◌else◌, nonzero, u16, u32, u64,
}
use rv64_vm.Mem.Map.{MemoryMap, load, store}
use rv64_vm.Dev.Plic.{Plic, set_pending}

-- `VirtqDesc`
pub record VirtqDesc : Type 0 where
  pub addr : ℕ
  pub len : ℕ
  pub flags : ℕ
  pub next : ℕ

pub record VirtQueueState : Type 0 where
  pub size : ℕ
  pub desc_addr : ℕ
  pub avail_addr : ℕ
  pub used_addr : ℕ
  pub last_avail_idx : ℕ
  pub last_used_idx : ℕ
  pub ready : Bool

-- The fields that both classes have.
pub record Virtio : Type 0 where
  pub start : ℕ
  pub irq_num : ℕ
  pub device_features : ℕ
  pub driver_features : ℕ
  pub device_features_sel : ℕ
  pub driver_features_sel : ℕ
  pub device_status : ℕ
  pub interrupt_status : ℕ
  pub queue_sel : ℕ
  pub queue0 : VirtQueueState
  pub config_generation : ℕ

abbrev pub desc_f_next : ℕ
desc_f_next = 1

abbrev pub desc_f_write : ℕ
desc_f_write = 2

abbrev pub has_next : VirtqDesc → Bool
has_next d = nonzero (bit_and d.flags desc_f_next)

abbrev pub is_write : VirtqDesc → Bool
is_write d = nonzero (bit_and d.flags desc_f_write)

-- The descriptor `idx` of the table.
unfoldable pub load_desc : MemoryMap → VirtQueueState → ℕ → Option VirtqDesc
load_desc m q idx =
    let desc_addr = u64 (q.desc_addr + idx * 16) in
    do
      addr ← load m desc_addr 64
      len ← load m (u64 (desc_addr + 8)) 32
      flags ← load m (u64 (desc_addr + 12)) 16
      next ← load m (u64 (desc_addr + 14)) 16
      some (record { addr = addr; len = u32 len; flags = u16 flags; next = u16 next })

-- The loop of `fetch_descriptor_chain` with `left` rounds to go: whether the chain ended, and it.
unfoldable pub fetch_from : MemoryMap → VirtQueueState → ℕ → ℕ → Option (Bool × List VirtqDesc)
fetch_from m q zero idx = some (false, [])
fetch_from m q (suc left) idx = load_desc m q idx >>= λ d.
    let rest = fetch_from m q left d.next in
    if has_next d then rest >>= (λ r. some (r.0, d ∷ r.1)) else some (true, d ∷ [])

unfoldable pub fetch_descriptor_chain :
    MemoryMap → VirtQueueState → ℕ → Option (Bool × List VirtqDesc)
fetch_descriptor_chain m q head =
    if q.desc_addr == 0 then some (false, []) else fetch_from m q q.size head

-- `copy_from_dram` and `copy_to_dram`, byte by byte.
unfoldable pub copy_from_dram : MemoryMap → ℕ → ℕ → Option (List ℕ)
copy_from_dram m gpa zero = some []
copy_from_dram m gpa (suc len) = do
  b ← load m gpa 8
  bs ← copy_from_dram m (u64 (gpa + 1)) len
  some (b ∷ bs)

unfoldable pub copy_to_dram : MemoryMap → ℕ → List ℕ → Option MemoryMap
copy_to_dram m gpa [] = some m
copy_to_dram m gpa (b ∷ bs) = store m gpa 8 b >>= λ m'. copy_to_dram m' (u64 (gpa + 1)) bs

-- A device with its own state, the memory and the interrupt controller.
module _ (Own : Type 0) where
  pub record System : Type 0 where
    pub dev : Virtio
    pub mmap : MemoryMap
    pub plic : Plic
    pub own : Own

  -- How the loop of `process_queue` ends: it returns, an access throws, or its fuel is used up.
  pub data Outcome : Type 0 where
    returned : System → Outcome
    threw unfinished : Outcome

  -- What a device makes of a chain: the length for the used ring, or `none` for a malformed one.
  abbrev pub Handler : Type 0
  Handler =
      Own
      → MemoryMap
      → List VirtqDesc
      → Option (record { own : Own; mmap : MemoryMap; written : Option ℕ })

module _ {Own : Type 0} (handle : Handler Own) where
  -- `q.last_avail_idx++` on 16 bits
  abbrev pub consumed : System Own → System Own
  consumed s = record s {
    dev = record s.dev {
      queue0 = record s.dev.queue0 { last_avail_idx = u16 (s.dev.queue0.last_avail_idx + 1) };
    };
  }

  -- The used element, `used.idx`, and the interrupt.
  unfoldable pub complete : System Own → ℕ → ℕ → Option (System Own)
  complete s head written =
      let q = s.dev.queue0 in
      let used_elem = u64 (q.used_addr + 4 + q.last_used_idx % q.size * 8) in
      let used = u16 (q.last_used_idx + 1) in
      do
        m1 ← store s.mmap used_elem 32 head
        m2 ← store m1 (u64 (used_elem + 4)) 32 written
        m3 ← store m2 (u64 (q.used_addr + 2)) 16 used
        p ← set_pending s.plic s.dev.irq_num true
        some (record s {
          dev = record s.dev {
            queue0 = record q { last_used_idx = used; last_avail_idx = u16 (q.last_avail_idx + 1) };
            interrupt_status = bit_or s.dev.interrupt_status 1;
          };
          mmap = m3;
          plic = p;
        })

  -- One round of the loop: the next chain of the available ring.
  unfoldable pub process_one : System Own → Option (System Own)
  process_one s =
      let q = s.dev.queue0 in
      load s.mmap (u64 (q.avail_addr + 4 + q.last_avail_idx % q.size * 2)) 16 >>= λ head.
      fetch_descriptor_chain s.mmap q (u16 head) >>= λ c.
      if not c.0
      then some (consumed s)
      else handle s.own s.mmap c.1 >>= (λ r.
        let s' = record s { own = r.own; mmap = r.mmap } in
        elim (r.written) [
          | none ↦ some (consumed s')
          | some written ↦ complete s' (u16 head) written
        ])

  -- `while(q.last_avail_idx != avail_idx)`
  unfoldable pub process_loop : ℕ → ℕ → System Own → Outcome Own
  process_loop zero avail_idx s =
      if s.dev.queue0.last_avail_idx == avail_idx then returned s else unfinished
  process_loop (suc fuel) avail_idx s =
      if s.dev.queue0.last_avail_idx == avail_idx
      then returned s
      else elim (process_one s) [ none ↦ threw | some s' ↦ process_loop fuel avail_idx s' ]

  -- `process_queue`; the indices have 16 bits, so that 2 ^ 16 rounds are enough.
  unfoldable pub process_queue : ℕ → System Own → Outcome Own
  process_queue qsel s =
      let q = s.dev.queue0 in
      if nonzero qsel
      then returned s
      else if not q.ready || q.size == 0
      then returned s
      else elim (load s.mmap (u64 (q.avail_addr + 2)) 16) [
        | none ↦ threw
        | some avail_idx ↦ process_loop (2 ^ 16) (u16 avail_idx) s
      ]
