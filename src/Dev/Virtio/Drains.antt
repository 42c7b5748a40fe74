-- ===== src/Dev/Virtio/Drains.antt =====
-- `process_queue` of src/devices/virtio/virtio_blk.cpp returns: the loop ends within the 2 ^ 16 rounds
-- of its index.
use rv64_vm.Prelude.{
  ◌>>=◌, ℕ, zero, suc, ◌+◌, ◌-◌, ◌*◌, ◌%◌, ◌^◌, ◌≤◌, ◌<◌, ◌≡◌, ◌≢◌, inl, inr, refl, arith, true,
  not, ◌||◌, Option, none, some, ◌==◌, Bool-cases, Option-cases, nonzero, u16, u64,
}
use rv64_vm.Mem.Map.{MemoryMap, load, store}
use rv64_vm.Dev.Plic.{set_pending}
use rv64_vm.Dev.Virtio.{
  fetch_descriptor_chain, System, Outcome, returned, threw, Handler, consumed, complete,
  process_one, process_loop, process_queue,
}

-- What a bind can give, when every continuation gives it.
bind-all :
    {A B : Type 0} (P : Option B → Type 0) (o : Option A) (f : A → Option B)
    → P none
    → ((a : A) → P (f a))
    → P (o >>= f)
bind-all P none f n h = n
bind-all P (some a) f n h = h a

module _ {Own : Type 0} (handle : Handler Own) where
  abbrev last_idx : System Own → ℕ
  last_idx s = s.dev.queue0.last_avail_idx

  -- One round moves the index on by one, or throws.
  data IsNext (s : System Own) : Option (System Own) → Type 0 where
    throws : IsNext s none
    moved : {s' : System Own} → last_idx s' ≡ u16 (last_idx s + 1) → IsNext s (some s')

  complete-IsNext : (s : System Own) (head written : ℕ) → IsNext s (complete handle s head written)
  unfolding complete
  complete-IsNext s head written =
      let q = s.dev.queue0 in
      let used_elem = u64 (q.used_addr + 4 + q.last_used_idx % q.size * 8) in
      let used = u16 (q.last_used_idx + 1) in
      bind-all (IsNext s) (store s.mmap used_elem 32 head) _ throws (λ m1.
        bind-all (IsNext s) (store m1 (u64 (used_elem + 4)) 32 written) _ throws (λ m2.
          bind-all (IsNext s) (store m2 (u64 (q.used_addr + 2)) 16 used) _ throws (λ m3.
            bind-all (IsNext s) (set_pending s.plic s.dev.irq_num true) _ throws
              (λ p. moved refl))))

  -- After the handler of the device.
  answered-IsNext :
      (s : System Own) (head : ℕ) (r : record { own : Own; mmap : MemoryMap; written : Option ℕ })
      → IsNext s (elim (r.written) [
        | none ↦ some (consumed handle (record s { own = r.own; mmap = r.mmap }))
        | some written ↦ complete handle (record s { own = r.own; mmap = r.mmap }) head written
      ])
  answered-IsNext s head r = elim (Option-cases r.written) [
    | inl e ↦ rw e (moved refl)
    | inr (n, e) ↦ rw e (same (complete-IsNext (record s { own = r.own; mmap = r.mmap }) head n))
  ]
    where
      same :
          {o : Option (System Own)}
          → IsNext (record s { own = r.own; mmap = r.mmap }) o
          → IsNext s o
      same throws = throws
      same (moved e) = moved e

  process_one-IsNext : (s : System Own) → IsNext s (process_one handle s)
  unfolding process_one
  process_one-IsNext s =
      let q = s.dev.queue0 in
      bind-all (IsNext s) (load s.mmap (u64 (q.avail_addr + 4 + q.last_avail_idx % q.size * 2)) 16)
        _ throws
        (λ head. bind-all (IsNext s) (fetch_descriptor_chain s.mmap q (u16 head)) _ throws (λ c.
          elim (Bool-cases c.0) [
            | inr e ↦ rw e (moved refl)
            | inl e ↦ rw e (
                bind-all (IsNext s) (handle s.own s.mmap c.1) _ throws
                  (λ r. answered-IsNext s (u16 head) r))
          ]))

  -- How `process_queue` may end: it does nothing, it has consumed every entry up to the index that the
  -- guest published, or an access throws.
  pub data IsDrained (s : System Own) : Outcome Own → Type 0 where
    idle : IsDrained s (returned s)
    drained :
        {s' : System Own} {avail_idx : ℕ}
        → load s.mmap (u64 (s.dev.queue0.avail_addr + 2)) 16 ≡ some avail_idx
        → last_idx s' ≡ u16 avail_idx
        → IsDrained s (returned s')
    threw_out : IsDrained s threw

  -- The loop with a target below 2 ^ 16 and fuel for the rounds to it.
  data Ends (avail_idx : ℕ) : Outcome Own → Type 0 where
    at : {s' : System Own} → last_idx s' ≡ avail_idx → Ends avail_idx (returned s')
    stopped : Ends avail_idx threw

  -- Rounds from the index `i` to `avail_idx`, modulo 2 ^ 16.
  abbrev distance : ℕ → ℕ → ℕ
  distance avail_idx i = (avail_idx + 2 ^ 16 - i) % 2 ^ 16

  -- The loop after a round, when it ends from where that round leads.
  after_round :
      (fuel avail_idx : ℕ) (s : System Own) {o : Option (System Own)}
      → IsNext s o
      → ((s' : System Own)
          → last_idx s' ≡ u16 (last_idx s + 1)
          → Ends avail_idx (process_loop handle fuel avail_idx s'))
      → Ends avail_idx (elim o [ none ↦ threw | some s' ↦ process_loop handle fuel avail_idx s' ])
  after_round fuel avail_idx s throws go = stopped
  after_round fuel avail_idx s (moved {s'} e) go = go s' e

  process_loop-Ends :
      (fuel avail_idx : ℕ) (s : System Own)
      → avail_idx < 2 ^ 16
      → last_idx s < 2 ^ 16
      → distance avail_idx (last_idx s) ≤ fuel
      → Ends avail_idx (process_loop handle fuel avail_idx s)
  unfolding process_loop
  process_loop-Ends zero avail_idx s ha hl h =
      let here : (last_idx s == avail_idx) ≡ true = ground arith in
      rw (process_loop, here) (at (omega arith))
  process_loop-Ends (suc fuel) avail_idx s ha hl h = elim (Bool-cases (last_idx s == avail_idx)) [
    | inl e ↦ rw (process_loop, e) (at (ground arith))
    | inr e ↦
        let apart : last_idx s ≢ avail_idx = ground arith in
        rw (process_loop, e)
          (after_round fuel avail_idx s (process_one-IsNext s)
            (λ s' next. process_loop-Ends fuel avail_idx s' ha (omega arith) (omega arith)))
  ]

  -- `process_queue` returns: it does nothing, or an access throws, or it has consumed every entry of
  -- the available ring up to the index that the guest published; its loop never needs more than
  -- 2 ^ 16 rounds, whatever the chains and the device make of them.
  pub process_queue-IsDrained :
      (qsel : ℕ) (s : System Own) (idx_bound : last_idx s < 2 ^ 16)
      → IsDrained s (process_queue handle qsel s)
  unfolding process_queue
  process_queue-IsDrained qsel s idx_bound =
      let q = s.dev.queue0 in
      elim (Bool-cases (nonzero qsel)) [
        | inl e ↦ rw (process_queue, e) idle
        | inr other ↦ elim (Bool-cases (not q.ready || q.size == 0)) [
          | inl e ↦ rw (process_queue, other, e) idle
          | inr on ↦ elim (Option-cases (load s.mmap (u64 (q.avail_addr + 2)) 16)) [
            | inl e ↦ rw (process_queue, other, on, e) threw_out
            | inr (avail_idx, e) ↦
                rw (process_queue, other, on, e)
                  (published e (
                    process_loop-Ends (2 ^ 16) (u16 avail_idx) s (omega arith) idx_bound
                      (omega arith)))
          ]
        ]
      ]
    where
      published :
          {avail_idx : ℕ} {r : Outcome Own}
          → load s.mmap (u64 (s.dev.queue0.avail_addr + 2)) 16 ≡ some avail_idx
          → Ends (u16 avail_idx) r
          → IsDrained s r
      published e (at h) = drained e h
      published e stopped = threw_out
