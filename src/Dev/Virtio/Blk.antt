-- ===== src/Dev/Virtio/Blk.antt =====
-- Requests of src/devices/virtio/virtio_blk.cpp. `File` is a `FILE*` of the host: the disk image, or
-- `none` for the null pointer.
use rv64_vm.Prelude.{
  ◌>>=◌, ℕ, zero, suc, ◌+◌, ◌-◌, ◌*◌, ◌%◌, Bool, true, false, not, ◌&&◌, Option, none, some, List,
  [], ◌∷◌, ◌++◌, ◌==◌, ltb, if◌then◌else◌, u64,
}
use rv64_vm.Mem.Map.{MemoryMap, store}
use rv64_vm.Dev.Virtio.{VirtqDesc, is_write, copy_from_dram, copy_to_dram, Handler}

abbrev pub sector_size : ℕ
sector_size = 512

abbrev pub length : List ℕ → ℕ
length [] = 0
length (x ∷ xs) = length xs + 1

abbrev pub take : ℕ → List ℕ → List ℕ
take zero xs = []
take (suc n) [] = []
take (suc n) (x ∷ xs) = x ∷ take n xs

abbrev pub drop : ℕ → List ℕ → List ℕ
drop zero xs = xs
drop (suc n) [] = []
drop (suc n) (x ∷ xs) = drop n xs

abbrev pub zeros : ℕ → List ℕ
zeros zero = []
zeros (suc n) = 0 ∷ zeros n

-- A number from its bytes, the low one first.
abbrev pub little_endian : List ℕ → ℕ
little_endian [] = 0
little_endian (b ∷ bs) = b + 256 * little_endian bs

-- `fseek` (whether it succeeded), `fread` (the bytes, at most as many as asked) and `fwrite` (how
-- many were written).
pub record Stdio : Type 1 where
  pub File : Type 0
  pub fseek : File → ℕ → Bool × File
  pub fread : File → ℕ → List ℕ × File
  pub fwrite : File → List ℕ → ℕ × File

-- `VirtioBlkReq`, its reserved word left out.
pub record VirtioBlkReq : Type 0 where
  pub type : ℕ
  pub sector : ℕ

-- The data length of a list of descriptors.
abbrev pub data_total : List VirtqDesc → ℕ
data_total [] = 0
data_total (d ∷ ds) = d.len + data_total ds

-- The descriptors before the last one that the device may write, and that one: `status_desc_i`.
unfoldable pub split_status : List VirtqDesc → Option (List VirtqDesc × VirtqDesc)
split_status [] = none
split_status (d ∷ ds) = elim (split_status ds) [
  | some r ↦ some (d ∷ r.0, r.1)
  | none ↦ if is_write d then some ([], d) else none
]

module _ (io : Stdio) where
  open io use {File, fseek, fread, fwrite}

  unfoldable pub disk_read : Option File → ℕ → ℕ → (Bool × List ℕ) × Option File
  disk_read none sector n = ((false, zeros n), none)
  disk_read (some f) sector n =
      let s = fseek f (u64 (sector * sector_size)) in
      let r = fread s.1 n in
      if not s.0
      then ((false, zeros n), some s.1)
      else ((true, r.0 ++ zeros (n - length r.0)), some r.1)

  unfoldable pub disk_write : Option File → ℕ → List ℕ → Bool × Option File
  disk_write none sector buf = (false, none)
  disk_write (some f) sector buf =
      let s = fseek f (u64 (sector * sector_size)) in
      let r = fwrite s.1 buf in if not s.0 then (false, some s.1) else (r.0 == length buf, some r.1)

  -- The loop of VIRTIO_BLK_T_IN from `tmp` on: a descriptor that the device may not write still gets
  -- its bytes, and is the last one.
  unfoldable pub scatter : MemoryMap → List ℕ → List VirtqDesc → Bool → Option (Bool × MemoryMap)
  scatter m tmp [] ok = some (ok, m)
  scatter m tmp (d ∷ ds) false = some (false, m)
  scatter m tmp (d ∷ ds) true =
      copy_to_dram m d.addr (take d.len tmp) >>= λ m'. scatter m' (drop d.len tmp) ds (is_write d)

  -- The loop of VIRTIO_BLK_T_OUT.
  unfoldable pub gather : MemoryMap → List VirtqDesc → Option (List ℕ)
  gather m [] = some []
  gather m (d ∷ ds) = do bs ← copy_from_dram m d.addr d.len; rest ← gather m ds; some (bs ++ rest)

  -- Whether the request succeeded, with the disk and the memory after it.
  pub record Served : Type 0 where
    pub ok : Bool
    pub disk : Option File
    pub mmap : MemoryMap

  unfoldable pub serve_in : Option File → MemoryMap → ℕ → List VirtqDesc → Option Served
  serve_in disk m sector descs =
      let r = disk_read disk sector (data_total descs) in
      scatter m r.0.1 descs r.0.0 >>= λ s. some (record { ok = s.0; disk = r.1; mmap = s.1 })

  unfoldable pub serve_out : Option File → MemoryMap → ℕ → List VirtqDesc → Option Served
  serve_out disk m sector descs = gather m descs >>= λ tmp.
      let w = disk_write disk sector tmp in
      some (record { ok = data_total descs % 512 == 0 && w.0; disk = w.1; mmap = m })

  unfoldable pub serve : Option File → MemoryMap → VirtioBlkReq → List VirtqDesc → Option Served
  serve disk m req descs =
      if req.type == 0
      then serve_in disk m req.sector descs
      else if req.type == 1
      then serve_out disk m req.sector descs
      else some (record { ok = false; disk = disk; mmap = m })

  -- VIRTIO_BLK_S_OK and VIRTIO_BLK_S_IOERR
  abbrev pub status_of : Bool → ℕ
  status_of ok = if ok then 0 else 1

  unfoldable pub read_request : MemoryMap → VirtqDesc → Option VirtioBlkReq
  read_request m d = copy_from_dram m d.addr 16 >>= λ bs.
      some (record { type = little_endian (take 4 bs); sector = little_endian (drop 8 bs) })

  -- A chain of a header, data and a status byte. Without a status descriptor nothing is done, and the
  -- chain is used all the same.
  unfoldable pub handle : Handler (Option File)
  handle disk m [] = some (record { own = disk; mmap = m; written = none })
  handle disk m (header ∷ []) = some (record { own = disk; mmap = m; written = none })
  handle disk m (header ∷ d ∷ ds) =
      if ltb header.len 16
      then some (record { own = disk; mmap = m; written = none })
      else read_request m header >>= λ req. elim (split_status (d ∷ ds)) [
        | none ↦ some (record { own = disk; mmap = m; written = some 0 })
        | some (descs, status) ↦ serve disk m req descs >>= λ r.
            store r.mmap status.addr 8 (status_of r.ok) >>= λ m'.
            some (record { own = r.disk; mmap = m'; written = some 0 })
      ]
