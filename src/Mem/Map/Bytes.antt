-- ===== src/Mem/Map/Bytes.antt =====
-- Bytes are read back as they were written, and nothing else changes.
use native.Mathlib.Nat.{pow-succ', div-add-mod, div-div-eq-div-mul}
use rv64_vm.Prelude.{
  Option-cases, ℕ, zero, suc, ◌+◌, ◌-◌, ◌*◌, ◌/◌, ◌%◌, ◌^◌, ◌≤◌, ◌<◌, ◌≡◌, ◌⊎◌, inl, inr, refl, ap,
  arith, some, List, [], ◌∷◌, leb, update, u8, Bool-cases,
}
use rv64_vm.Mem.Map.{
  Region, MemoryMap, read_bytes, write_bytes, read_at, write_at, load, store, load_low, store_low,
  covers,
}

-- The step from `value / 256` to `value`.
mod-byte-suc : (value n : ℕ) → value % 256 ^ suc n ≡ value % 256 + 256 * (value / 256 % 256 ^ n)
mod-byte-suc value n = rw (pow-succ' 256 n) (
    omega (
      arith,
      div-add-mod value (256 * 256 ^ n),
      div-add-mod (value / 256) (256 ^ n),
      ap (λ (t : ℕ). 256 ^ n * t) (div-div-eq-div-mul value 256 (256 ^ n)),
    ))

-- A write from offset `off` on leaves the bytes before it and the bytes from its end on.
pub write_bytes_frame :
    (n : ℕ) (bytes : ℕ → ℕ) (off value i : ℕ)
    → (i < off) ⊎ (off + n ≤ i)
    → write_bytes n bytes off value i ≡ bytes i
unfolding write_bytes
write_bytes_frame zero bytes off value i out = refl
write_bytes_frame (suc n) bytes off value i out =
    ground (arith, write_bytes_frame n (update bytes off (u8 value)) (off + 1) (value / 2 ^ 8) i)

pub read_bytes-write_bytes :
    (n : ℕ) (bytes : ℕ → ℕ) (off value : ℕ)
    → read_bytes n (write_bytes n bytes off value) off ≡ value % 256 ^ n
unfolding read_bytes write_bytes
read_bytes-write_bytes zero bytes off value = omega arith
read_bytes-write_bytes (suc n) bytes off value =
    let here =
      write_bytes_frame n (update bytes off (u8 value)) (off + 1) (value / 2 ^ 8) off
        (inl (omega arith)) in
    let rest = read_bytes-write_bytes n (update bytes off (u8 value)) (off + 1) (value / 2 ^ 8) in
    rw (here, rest) (ground (arith, mod-byte-suc value n))

pub read_bytes_same :
    (n : ℕ) (bytes bytes' : ℕ → ℕ) (off : ℕ)
    → ((i : ℕ) → off ≤ i → i < off + n → bytes i ≡ bytes' i)
    → read_bytes n bytes off ≡ read_bytes n bytes' off
unfolding read_bytes
read_bytes_same zero bytes bytes' off same = refl
read_bytes_same (suc n) bytes bytes' off same =
    let rest =
      read_bytes_same n bytes bytes' (off + 1) (λ i lo hi. same i (omega arith) (omega arith)) in
    rw (same off (omega arith) (omega arith), rest) refl

pub read_bytes-lt : (n : ℕ) (bytes : ℕ → ℕ) (off : ℕ) → read_bytes n bytes off < 256 ^ n
unfolding read_bytes
read_bytes-lt zero bytes off = omega arith
read_bytes-lt (suc n) bytes off = omega (arith, pow-succ' 256 n, read_bytes-lt n bytes (off + 1))

pub read_at-write_at :
    (r r' : Region) (off n value : ℕ)
    → write_at r off n value ≡ some r'
    → (read_at r' off n ≡ some (value % 256 ^ n))
      × (r'.base_addr ≡ r.base_addr)
      × (r'.size ≡ r.size)
unfolding read_at write_at
read_at-write_at r r' off n value e = ground (arith, e, read_bytes-write_bytes n r.bytes off value)

load_low-store_low :
    (rs rs' : List Region) (addr n value : ℕ)
    → store_low rs addr n value ≡ some rs'
    → load_low rs' addr n ≡ some (value % 256 ^ n)
unfolding load_low store_low
load_low-store_low [] rs' addr n value e = ground (arith, e)
load_low-store_low (r ∷ rs) rs' addr n value e = elim (Bool-cases (covers r addr)) [
  | inl here ↦ elim (Option-cases (write_at r (addr - r.base_addr) n value)) [
    | inl fail ↦ ground (arith, e, here, fail)
    | inr (r', w) ↦
        let back = read_at-write_at r r' (addr - r.base_addr) n value w in
        let tail : r' ∷ rs ≡ rs' = ground (arith, e, here, w) in
        rw (← tail) (ground (arith, here, back))
  ]
  | inr there ↦ elim (Option-cases (store_low rs addr n value)) [
    | inl fail ↦ ground (arith, e, there, fail)
    | inr (rest, w) ↦
        let back = load_low-store_low rs rest addr n value w in
        let tail : r ∷ rest ≡ rs' = ground (arith, e, there, w) in
        rw (← tail) (ground (arith, there, back))
  ]
]

-- A value that `store` writes is what `load` of the same size gives at the same address, cut to that
-- size, in whichever region the address lies.
pub load-store :
    (m m' : MemoryMap) (addr size value : ℕ)
    → store m addr size value ≡ some m'
    → load m' addr size ≡ some (value % 256 ^ (size / 8))
unfolding load store
load-store m m' addr size value e = elim (Bool-cases (leb 0x80000000 addr)) [
  | inl high ↦ elim (Option-cases (m.ram_direct)) [
    | inl no_ram ↦ ground (arith, e, high, no_ram)
    | inr (r, ram) ↦ elim (Option-cases (write_at r (addr - r.base_addr) (size / 8) value)) [
      | inl fail ↦ ground (arith, e, high, ram, fail)
      | inr (r', w) ↦
          let back = read_at-write_at r r' (addr - r.base_addr) (size / 8) value w in
          let after : m'.ram_direct ≡ some r' = ground (arith, e, high, ram, w) in
          ground (arith, e, high, ram, w, after, back)
    ]
  ]
  | inr low ↦ elim (Option-cases (store_low m.regions addr (size / 8) value)) [
    | inl fail ↦ ground (arith, e, low, fail)
    | inr (rs, w) ↦
        let back = load_low-store_low m.regions rs addr (size / 8) value w in
        let after : m'.regions ≡ rs = ground (arith, e, low, w) in
        ground (
          arith,
          e,
          low,
          after,
          (let b : load_low m'.regions addr (size / 8) ≡ some (value % 256 ^ (size / 8)) =
                rw after back in
              b),
        )
  ]
]
