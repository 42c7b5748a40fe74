-- ===== src/Dev/Virtio/Chain.antt =====
-- The chains that `fetch_descriptor_chain` of src/devices/virtio/virtio_blk.cpp accepts.
use rv64_vm.Prelude.{
  ◌>>=◌, ℕ, zero, suc, ◌≡◌, Bool, true, false, Option, none, some, List, [], ◌∷◌, ◌==◌,
  if◌then◌else◌, Bool-cases, inl, inr,
}
use rv64_vm.Mem.Map.{MemoryMap}
use rv64_vm.Dev.Virtio.{
  VirtqDesc, VirtQueueState, has_next, load_desc, fetch_from, fetch_descriptor_chain,
}

-- A chain of at most `bound` descriptors: the last one, and no other, is without the flag NEXT.
pub data IsChain : ℕ → List VirtqDesc → Type 0 where
  last : {bound : ℕ} {d : VirtqDesc} → has_next d ≡ false → IsChain (suc bound) (d ∷ [])
  more :
      {bound : ℕ} {d : VirtqDesc} {ds : List VirtqDesc}
      → has_next d ≡ true
      → IsChain bound ds
      → IsChain (suc bound) (d ∷ ds)

-- A memory access throws, or the chain is malformed, or it is one.
pub data IsFetched (bound : ℕ) : Option (Bool × List VirtqDesc) → Type 0 where
  throws : IsFetched bound none
  malformed : {ds : List VirtqDesc} → IsFetched bound (some (false, ds))
  fetched : {ds : List VirtqDesc} → IsChain bound ds → IsFetched bound (some (true, ds))

-- One more descriptor before a fetched chain.
prepend :
    {bound : ℕ} (d : VirtqDesc) (o : Option (Bool × List VirtqDesc))
    → has_next d ≡ true
    → IsFetched bound o
    → IsFetched (suc bound) (o >>= λ r. some (r.0, d ∷ r.1))
prepend d none h throws = throws
prepend d (some (false, ds)) h malformed = malformed
prepend d (some (true, ds)) h (fetched c) = fetched (more h c)

-- The body of the loop, after its descriptor is loaded.
one_more : MemoryMap → VirtQueueState → ℕ → VirtqDesc → Option (Bool × List VirtqDesc)
one_more m q left d =
    let rest = fetch_from m q left d.next in
    if has_next d then rest >>= (λ r. some (r.0, d ∷ r.1)) else some (true, d ∷ [])

with_desc :
    (m : MemoryMap) (q : VirtQueueState) (left : ℕ) (o : Option VirtqDesc)
    → ((idx : ℕ) → IsFetched left (fetch_from m q left idx))
    → IsFetched (suc left) (o >>= one_more m q left)
unfolding one_more
with_desc m q left none ih = throws
with_desc m q left (some d) ih = elim (Bool-cases (has_next d)) [
  | inl e ↦ rw (one_more, e) (prepend d (fetch_from m q left d.next) e (ih d.next))
  | inr e ↦ rw (one_more, e) (fetched (last e))
]

fetch_from-IsFetched :
    (m : MemoryMap) (q : VirtQueueState) (left idx : ℕ) → IsFetched left (fetch_from m q left idx)
unfolding fetch_from one_more
fetch_from-IsFetched m q zero idx = malformed
fetch_from-IsFetched m q (suc left) idx =
    with_desc m q left (load_desc m q idx) (fetch_from-IsFetched m q left)

-- `fetch_descriptor_chain` throws, refuses, or gives a chain of 1 to `q.size` descriptors, each but
-- the last with NEXT and the last without: a loop in the guest's table is refused.
pub fetch_descriptor_chain-IsFetched :
    (m : MemoryMap) (q : VirtQueueState) (head : ℕ)
    → IsFetched q.size (fetch_descriptor_chain m q head)
unfolding fetch_descriptor_chain
fetch_descriptor_chain-IsFetched m q head = elim (Bool-cases (q.desc_addr == 0)) [
  | inl e ↦ rw (fetch_descriptor_chain, e) malformed
  | inr e ↦ rw (fetch_descriptor_chain, e) (fetch_from-IsFetched m q q.size head)
]
