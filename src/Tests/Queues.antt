-- ===== src/Tests/Queues.antt =====
-- The virtio queue on a small memory.
use rv64_vm.Prelude.{
  ℕ, ◌≡◌, refl, arith, true, Option, some, List, [], ◌∷◌, ◌==◌, if◌then◌else◌, update, ==_self,
}
use rv64_vm.Mem.Map.{MemoryMap, load, store, read_at, write_at, read_bytes, write_bytes}
use rv64_vm.Dev.Virtio.{
  Virtio, VirtqDesc, System, is_write, fetch_descriptor_chain, process_queue, copy_from_dram,
}
use rv64_vm.Dev.Virtio.Blk.{
  Stdio, handle, gather, length, disk_write, disk_read, read_request, split_status,
}
use rv64_vm.Dev.Virtio.Registers.{write_status}
use rv64_vm.Dev.Virtio.Chain.{IsFetched, fetch_descriptor_chain-IsFetched}
use rv64_vm.Dev.Virtio.Drains.{IsDrained, process_queue-IsDrained}
use rv64_vm.Dev.Virtio.Negotiated.{IsNegotiated, write_status-IsNegotiated}
use rv64_vm.Dev.Virtio.Requests.{IsStorage, serve_out_misaligned}
use rv64_vm.Tests.Controller.{quiet_controller}
use rv64_vm.Tests.Translation.{ram0, memory0}

-- A disk image keeps, for each offset, what was last written there; it stands at an offset.
abbrev stdio0 : Stdio
stdio0 = record {
  File = ℕ × (ℕ → List ℕ);
  fseek = λ f offset. (true, (offset, f.1));
  fread = λ f n. (f.1 f.0, f);
  fwrite = λ f buf. (length buf, (f.0, update f.1 f.0 buf));
}

stdio0-IsStorage : IsStorage stdio0
stdio0-IsStorage = record { seeks = λ f off. refl; keeps = λ f off buf. rw (==_self off) refl }

abbrev blank : ℕ × (ℕ → List ℕ)
blank = (0, λ _. [])

-- Entry 0 of the available ring is published; its descriptor 0 is the only one.
abbrev queue_memory : MemoryMap
queue_memory = record memory0 {
  ram_direct = some (record ram0 { bytes = λ i. if i == 0x102 then 1 else 0 });
}

abbrev virtio0 : Virtio
virtio0 = record {
  start = 0x10001000;
  irq_num = 7;
  device_features = 0x100000000;
  driver_features = 1;
  device_features_sel = 0;
  driver_features_sel = 0;
  device_status = 3;
  interrupt_status = 0;
  queue_sel = 0;
  queue0 = record {
    size = 8;
    desc_addr = 0x80000000;
    avail_addr = 0x80000100;
    used_addr = 0x80000200;
    last_avail_idx = 0;
    last_used_idx = 0;
    ready = true;
  };
  config_generation = 0;
}

abbrev system0 : System (Option (ℕ × (ℕ → List ℕ)))
system0 = record { dev = virtio0; mmap = queue_memory; plic = quiet_controller; own = some blank }

fetch_descriptor_chain-IsFetched_example :
    IsFetched 8 (fetch_descriptor_chain queue_memory virtio0.queue0 0)
fetch_descriptor_chain-IsFetched_example =
    fetch_descriptor_chain-IsFetched queue_memory virtio0.queue0 0

process_queue-IsDrained_example :
    IsDrained (handle stdio0) system0 (process_queue (handle stdio0) 0 system0)
process_queue-IsDrained_example = process_queue-IsDrained (handle stdio0) 0 system0 (omega arith)

write_status-IsNegotiated_example : IsNegotiated (write_status virtio0 8)
write_status-IsNegotiated_example = write_status-IsNegotiated virtio0 8

-- A write of three bytes of memory to sector 0: the header, the data and the status byte.
abbrev header0 : VirtqDesc
header0 = record { addr = 0x80000102; len = 16; flags = 1; next = 1 }

abbrev data0 : VirtqDesc
data0 = record { addr = 0x80000100; len = 3; flags = 1; next = 2 }

abbrev status0 : VirtqDesc
status0 = record { addr = 0x80000200; len = 1; flags = 2; next = 0 }

abbrev three_bytes : List ℕ
three_bytes = 0 ∷ 0 ∷ 1 ∷ []

abbrev answered0 : MemoryMap
answered0 = record memory0 {
  ram_direct =
      some (record ram0 { bytes = write_bytes 1 (λ i. if i == 0x102 then 1 else 0) 0x200 1 });
}

request0 : read_request stdio0 queue_memory header0 ≡ some (record { type = 1; sector = 0 })
unfolding read_request copy_from_dram load read_at read_bytes
request0 = refl

split0 : split_status (data0 ∷ status0 ∷ []) ≡ some (data0 ∷ [], status0)
unfolding split_status is_write
split0 = refl

gathered0 : gather stdio0 queue_memory (data0 ∷ []) ≡ some three_bytes
unfolding gather copy_from_dram load read_at read_bytes
gathered0 = refl

answered0_eq : store queue_memory 0x80000200 8 1 ≡ some answered0
unfolding store write_at
answered0_eq = refl

serve_out_misaligned_example :
    let disk = (disk_write stdio0 (some blank) 0 three_bytes).1 in
    (handle stdio0 (some blank) queue_memory (header0 ∷ data0 ∷ status0 ∷ [])
      ≡ some (record { own = disk; mmap = answered0; written = some 0 }))
    × ((disk_read stdio0 disk 0 3).0 ≡ (true, three_bytes))
serve_out_misaligned_example =
    serve_out_misaligned stdio0 stdio0-IsStorage blank queue_memory answered0 header0 data0
      (status0 ∷ []) (data0 ∷ []) status0 (record { type = 1; sector = 0 }) three_bytes
      (omega arith) request0 refl split0 gathered0 (λ e. omega arith) answered0_eq
