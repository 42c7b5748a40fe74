-- ===== src/Dev/Virtio/Requests.antt =====
-- A write request of src/devices/virtio/virtio_blk.cpp whose length is no multiple of a sector.
use rv64_vm.Prelude.{
  ℕ, ◌*◌, ◌-◌, ◌%◌, ◌≤◌, ◌≡◌, ◌≢◌, refl, ap, arith, ltb, true, false, some, List, [], ◌∷◌, ◌++◌,
  ==_ne, u64,
}
use rv64_vm.Mem.Map.{MemoryMap, store}
use rv64_vm.Dev.Virtio.{VirtqDesc}
use rv64_vm.Dev.Virtio.Blk.{
  Stdio, VirtioBlkReq, data_total, length, zeros, gather, disk_write, disk_read, serve, serve_out,
  handle, read_request, split_status,
}

-- A disk that works: it can be positioned, and what is written at an offset is read back there.
pub record IsStorage (io : Stdio) : Type 0 where
  pub seeks : (f : io.File) (off : ℕ) → (io.fseek f off).0 ≡ true
  pub keeps :
      (f : io.File) (off : ℕ) (buf : List ℕ)
      → (io.fread (io.fseek (io.fwrite (io.fseek f off).1 buf).1 off).1 (length buf)).0 ≡ buf

append_none : (n : ℕ) (buf : List ℕ) → n ≡ 0 → buf ++ zeros n ≡ buf
append_none n [] e = rw e refl
append_none n (x ∷ xs) e = ap (λ ys. x ∷ ys) (append_none n xs e)

module _ (io : Stdio) (works : IsStorage io) where
  open io use {File, fseek, fwrite}

  disk_read-write :
      (f : File) (sector : ℕ) (buf : List ℕ)
      → (disk_read io (disk_write io (some f) sector buf).1 sector (length buf)).0 ≡ (true, buf)
  unfolding disk_read disk_write
  disk_read-write f sector buf =
      let off = u64 (sector * 512) in
      let g = (fwrite (fseek f off).1 buf).1 in
      rw (works.seeks f off, works.seeks g off, works.keeps f off buf)
        (ap (λ b. (true, b)) (append_none (length buf - length buf) buf (omega arith)))

  -- A write request with a complete header, whose data can be read and has a length that is no multiple
  -- of 512, on a disk that works: the status byte is 1, an error, and what the sector is then read to
  -- hold is the data of the request all the same.
  pub serve_out_misaligned :
      (f : File) (m m' : MemoryMap) (header d : VirtqDesc) (ds descs : List VirtqDesc)
      (status : VirtqDesc) (req : VirtioBlkReq) (tmp : List ℕ)
      → 16 ≤ header.len
      → read_request io m header ≡ some req
      → req.type ≡ 1
      → split_status (d ∷ ds) ≡ some (descs, status)
      → gather io m descs ≡ some tmp
      → data_total descs % 512 ≢ 0
      → store m status.addr 8 1 ≡ some m'
      → let disk = (disk_write io (some f) req.sector tmp).1 in
        (handle io (some f) m (header ∷ d ∷ ds)
          ≡ some (record { own = disk; mmap = m'; written = some 0 }))
        × ((disk_read io disk req.sector (length tmp)).0 ≡ (true, tmp))
  unfolding handle serve serve_out
  serve_out_misaligned f m m' header d ds descs status req tmp long request type split gathered
        misaligned answered =
      let wide : ltb header.len 16 ≡ false = ground arith in
      let odd = ==_ne (data_total descs % 512) 0 misaligned in
      (
        rw (handle, wide, request, split, serve, type, serve_out, gathered, odd, answered) refl,
        disk_read-write f req.sector tmp,
      )
