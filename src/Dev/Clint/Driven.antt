-- ===== src/Dev/Clint/Driven.antt =====
-- src/devices/clint.cpp: the interrupt lines follow the registers.
use rv64_vm.Prelude.{
  ℕ, zero, suc, ◌+◌, ◌-◌, ◌%◌, ◌^◌, ◌≤◌, ◌<◌, not, ◌&&◌, some, ltb, leb, ◌==◌, if◌then◌else◌,
  update, ◌≡◌, ◌⊎◌, inl, inr, refl, ap, sym, ◌∙◌, arith, bit, Option-cases, Bool-cases, some_inj,
  u32, ◌>>>◌, ==_ne,
}
use rv64_vm.Hart.State.{Hart}
use rv64_vm.Dev.Clint.{
  Timer, Clint, Written, updated, update_hart, update_from, update_mip, write, write_mswi,
  write_mtimer, mswi_size, mtimer_size,
}

module _ (timer : Timer) where
  -- The lines of a core are what the registers say.
  pub record IsDriven (c : Clint timer) (h : Hart) : Type 0 where
    pub now : h.ctime ≡ timer.get c.mtime
    pub msip : bit h.ip 3 ≡ c.msip h.id % 2
    pub mtip : bit h.ip 7 ≡ (if leb (c.mtimecmp h.id) (timer.get c.mtime) then 1 else 0)
    pub stip :
        bit h.ip 5
        ≡ (if leb h.stimecmp (timer.get c.mtime) && not (h.stimecmp == 2 ^ 64 - 1) then 1 else 0)

  update_hart-IsDriven :
      (c : Clint timer) (h : Hart) → IsDriven c (update_hart timer c (timer.get c.mtime) h)
  unfolding update_hart
  update_hart-IsDriven c h = record {
    now = refl;
    msip = ground arith;
    mtip = ground arith;
    stip = ground arith;
  }

  -- The loop updates the cores from `i` on, and leaves those before.
  update_from_lem :
      (c : Clint timer) (now i left : ℕ) (harts harts' : ℕ → Hart)
      → update_from timer c now i left harts ≡ some harts'
      → (k : ℕ)
      → ((k < i) ⊎ (i + left ≤ k) → harts' k ≡ harts k)
        × (i ≤ k → k < i + left → harts' k ≡ update_hart timer c now (harts k))
  unfolding update_from
  update_from_lem c now i zero harts harts' e k =
      ((λ out. ap (λ (f : ℕ → Hart). f k) (sym (some_inj e))), (λ lo hi. absurd (omega arith)))
  update_from_lem c now i (suc left) harts harts' e k =
      elim (Bool-cases (ltb (harts i).id c.count)) [
        | inr beyond ↦ absurd (ground (arith, e, beyond))
        | inl within ↦
            let changed = update harts i (update_hart timer c now (harts i)) in
            let rest =
              update_from_lem c now (i + 1) left changed harts' (ground (arith, e, within)) k in
            (
              (λ out. rest.0 (ground (arith, out)) ∙ rw (==_ne i k (ground (arith, out))) refl),
              (λ lo hi. elim (Bool-cases (i == k)) [
                | inl here ↦
                    rest.0 (inl (ground (arith, here)))
                    ∙ (rw here
                        (ap (λ (j : ℕ). update_hart timer c now (harts j)) (ground (arith, here))))
                | inr later ↦
                    rest.1 (ground (arith, later)) (omega arith)
                    ∙ ap (λ (x : Hart). update_hart timer c now x) (rw later refl)
              ]),
            )
      ]

  update_mip-IsDriven :
      (c : Clint timer) (harts harts' : ℕ → Hart)
      → update_mip timer c harts ≡ some harts'
      → (k : ℕ) → k < c.count
      → IsDriven c (harts' k)
  unfolding update_mip
  update_mip-IsDriven c harts harts' e k lt =
      rw
        ((update_from_lem c (timer.get c.mtime) 0 c.count harts harts' e k).1 (omega arith)
          (omega arith))
        (update_hart-IsDriven c (harts k))

  updated-IsDriven :
      (c : Clint timer) (harts : ℕ → Hart) (r : Written timer)
      → updated timer c harts ≡ some r
      → (k : ℕ) → k < c.count
      → IsDriven r.clint (r.harts k)
  updated-IsDriven c harts r e k lt = elim (Option-cases (update_mip timer c harts)) [
    | inl fail ↦ absurd (ground (arith, e, fail))
    | inr (harts', all) ↦
        let same : r ≡ record { clint = c; harts = harts' } = ground (arith, e, all) in
        rw same (update_mip-IsDriven c harts harts' all k lt)
  ]

  -- After a write to any register, the time and the lines of every core are what the registers then say.
  pub register_write-IsDriven :
      (c : Clint timer) (harts : ℕ → Hart) (off value : ℕ) (r : Written timer)
      → off < mswi_size + mtimer_size
      → write timer c harts off value ≡ some r
      → (k : ℕ) → k < c.count
      → IsDriven r.clint (r.harts k)
  unfolding write write_mswi write_mtimer
  register_write-IsDriven c harts off value r within e k lt =
      elim (Bool-cases (ltb off mswi_size)) [
        | inl soft ↦
            let c' = record c { msip = update c.msip (off >>> 2) (u32 value) } in
            updated-IsDriven c' harts r (ground (arith, e, soft)) k lt
        | inr time ↦ elim (Bool-cases (off - mswi_size == 0x7ff8)) [
          | inl now ↦
              let c' = record c { mtime = timer.set c.mtime value } in
              updated-IsDriven c' harts r (ground (arith, e, time, now, within)) k lt
          | inr cmp ↦
              let c' = record c { mtimecmp = update c.mtimecmp ((off - mswi_size) >>> 3) value } in
              updated-IsDriven c' harts r (ground (arith, e, time, cmp, within)) k lt
        ]
      ]
