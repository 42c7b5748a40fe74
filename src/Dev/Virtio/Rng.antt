-- ===== src/Dev/Virtio/Rng.antt =====
-- The generator and the requests of include/devices/virtio/virtio_rng.hpp and
-- src/devices/virtio/virtio_rng.cpp.
use rv64_vm.Prelude.{
  ◌>>=◌, ℕ, zero, suc, ◌+◌, ◌-◌, ◌*◌, ◌%◌, bit_or, bit_xor, not, Option, none, some, List, [], ◌∷◌,
  ◌++◌, if◌then◌else◌, u8, u32, u64, ◌<<<◌, ◌>>>◌,
}
use rv64_vm.Mem.Map.{MemoryMap}
use rv64_vm.Dev.Virtio.{VirtqDesc, is_write, copy_to_dram}

-- `virtio_pcg32_ctx_t`
pub record Pcg32 : Type 0 where
  pub state : ℕ
  pub inc : ℕ

abbrev pub multiplier : ℕ
multiplier = 6364136223846793005

unfoldable pub seed : ℕ → ℕ → Pcg32
seed init_state init_seq =
    let inc = bit_or (u64 (init_seq <<< 1)) 1 in
    let first = u64 (0 * multiplier + inc) in
    record { state = u64 (u64 (first + init_state) * multiplier + inc); inc = inc }

-- `virtio_rng_next32`: a rotation of 32 bits; `-rot & 31` is `(32 - rot) % 32`.
unfoldable pub next32 : Pcg32 → Pcg32 × ℕ
next32 ctx =
    let old = ctx.state in
    let xorshifted = u32 (bit_xor (old >>> 18) old >>> 27) in
    let rot = old >>> 59 in
    (
      record ctx { state = u64 (old * multiplier + ctx.inc) },
      bit_or (xorshifted >>> rot) (u32 (xorshifted <<< ((32 - rot) % 32))),
    )

-- The low `n` bytes of a number.
abbrev pub bytes_of : ℕ → ℕ → List ℕ
bytes_of zero v = []
bytes_of (suc n) v = u8 v ∷ bytes_of n (v >>> 8)

-- `virtio_rng_fill_buffer`: four bytes of each number, and the rest of one more.
unfoldable pub fill_buffer : ℕ → Pcg32 → Pcg32 × List ℕ
fill_buffer zero ctx = (ctx, [])
fill_buffer (suc zero) ctx = let r = next32 ctx in (r.0, bytes_of 1 r.1)
fill_buffer (suc (suc zero)) ctx = let r = next32 ctx in (r.0, bytes_of 2 r.1)
fill_buffer (suc (suc (suc zero))) ctx = let r = next32 ctx in (r.0, bytes_of 3 r.1)
fill_buffer (suc (suc (suc (suc len)))) ctx =
    let r = next32 ctx in let rest = fill_buffer len r.0 in (rest.0, bytes_of 4 r.1 ++ rest.1)

-- The loop over a chain: each descriptor that the device may write is filled.
unfoldable pub fill_chain :
    Pcg32
    → MemoryMap
    → List VirtqDesc
    → Option (record { own : Pcg32; mmap : MemoryMap; written : Option ℕ })
fill_chain ctx m [] = some (record { own = ctx; mmap = m; written = some 0 })
fill_chain ctx m (d ∷ ds) =
    let r = fill_buffer d.len ctx in
    let skipped = fill_chain ctx m ds in
    if not (is_write d)
    then skipped
    else copy_to_dram m d.addr r.1 >>= λ m'. fill_chain r.0 m' ds >>= λ rest. some (record rest {
      written = elim (rest.written) [ none ↦ none | some n ↦ some (u32 (d.len + n)) ];
    })
