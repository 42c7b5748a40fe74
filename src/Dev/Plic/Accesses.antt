-- ===== src/Dev/Plic/Accesses.antt =====
-- Reads and writes of the registers keep the `ip` bits and the lines together.
use rv64_vm.Prelude.{
  ℕ, ◌-◌, ◌/◌, ◌%◌, ◌^◌, ◌<◌, Bool, true, false, not, ◌≡◌, refl, arith, ltb, leb, ◌==◌,
  if◌then◌else◌, update, Option, some, u32, ◌&&◌,
}
use rv64_vm.Dev.Plic.{Plic, read, write, offset_of, in_contexts, between}
use rv64_vm.Dev.Plic.Updates.{IsDriven, update_all_contexts-IsConsistent}
use rv64_vm.Dev.Plic.Registers.{
  update_context-IsDriven, IsDriven-sources, IsDriven-context, claim_interrupt-IsDriven,
  complete_interrupt-IsDriven,
}

-- Whatever controller a result holds, it is driven.
Keeps : {A : Type 0} → (A → Plic) → Option A → Type 0
Keeps {A} state o = (x : A) → o ≡ some x → IsDriven (state x)

Keeps-some : {A : Type 0} (state : A → Plic) (x : A) → IsDriven (state x) → Keeps state (some x)
unfolding Keeps
Keeps-some state x d y e = let same : x ≡ y = ground (arith, e) in rw same at d

Keeps-if :
    {A : Type 0} (state : A → Plic) (c : Bool) (x y : Option A)
    → (c ≡ true → Keeps state x)
    → (c ≡ false → Keeps state y)
    → Keeps state (if c then x else y)
Keeps-if state true x y f g = f refl
Keeps-if state false x y f g = g refl

module _ (p : Plic) (addr size : ℕ) (d : IsDriven p) where
  off : ℕ
  off = offset_of p addr

  context_of : in_contexts p off ≡ true → (off - 0x200000) / 0x1000 < p.num_contexts
  unfolding off
  context_of h = ground arith

  read-Keeps : Keeps (λ (r : ℕ × Plic). r.1) (read p addr size)
  unfolding read off Keeps
  read-Keeps =
      let pair = λ (v : ℕ). Keeps-some (λ (r : ℕ × Plic). r.1) (v, p) d in
      let split = Keeps-if (λ (r : ℕ × Plic). r.1) in
      split (not (size == 4)) _ _ (λ _. pair 0)
        (λ _.
          split (ltb off 0x1000) _ _
            (λ _.
              split (leb 1 (off / 4) && leb (off / 4) p.max_sources) _ _ (λ _. pair _)
                (λ _. pair 0))
            (λ _.
              split (between 0x1000 0x1080 off) _ _
                (λ _.
                  split (ltb ((off - 0x1000) / 4) p.words_count) _ _ (λ _. pair _) (λ _. pair 0))
                (λ _.
                  split (between 0x2000 0x200000 off) _ _
                    (λ _.
                      split
                        (ltb ((off - 0x2000) / 0x80) p.num_contexts
                          && ltb ((off - 0x2000) % 0x80 / 4) p.words_count)
                        _ _ (λ _. pair _) (λ _. pair 0))
                    (λ _.
                      split (in_contexts p off) _ _
                        (λ h.
                          split ((off - 0x200000) % 0x1000 == 0) _ _ (λ _. pair _)
                            (λ _.
                              split ((off - 0x200000) % 0x1000 == 4) _ _
                                (λ _ x e.
                                  claim_interrupt-IsDriven p ((off - 0x200000) / 0x1000)
                                    (context_of h) d x.1 x.0 e)
                                (λ _. pair 0)))
                        (λ _. pair 0)))))

  write-Keeps : (value : ℕ) → Keeps (λ (q : Plic). q) (write p addr size value)
  unfolding write off Keeps
  write-Keeps value =
      let holds = Keeps-some (λ (q : Plic). q) in
      let same = holds p d in
      let split = Keeps-if (λ (q : Plic). q) in
      let i = (off - 0x2000) / 0x80 in
      let word = (off - 0x2000) % 0x80 / 4 in
      let j = (off - 0x200000) / 0x1000 in
      let prios = update p.priorities (off / 4) (value % 2 ^ 31) in
      split (not (size == 4)) _ _ (λ _. same)
        (λ _.
          split (ltb off 0x1000) _ _
            (λ _.
              split (leb 1 (off / 4) && leb (off / 4) p.max_sources) _ _
                (λ _.
                  holds _
                    (update_all_contexts-IsConsistent _
                      (IsDriven-sources p p.pending_words prios d)).driven)
                (λ _. same))
            (λ _.
              split (between 0x1000 0x1080 off) _ _ (λ _. same)
                (λ _.
                  split (between 0x2000 0x200000 off) _ _
                    (λ _.
                      split (ltb i p.num_contexts && ltb word p.words_count) _ _
                        (λ h. holds _ (
                          update_context-IsDriven _ i (ground arith) (
                            IsDriven-context p i (p.contexts i).threshold
                              (update (p.contexts i).enables word (u32 value)) d)))
                        (λ _. same))
                    (λ _.
                      split (in_contexts p off) _ _
                        (λ h.
                          split ((off - 0x200000) % 0x1000 == 0) _ _
                            (λ _. holds _ (
                              update_context-IsDriven _ j (context_of h)
                                (IsDriven-context p j (value % 2 ^ 31) (p.contexts j).enables d)))
                            (λ _.
                              split ((off - 0x200000) % 0x1000 == 4) _ _
                                (λ _ x e.
                                  complete_interrupt-IsDriven p j (context_of h) d x (u32 value) e)
                                (λ _. same)))
                        (λ _. same)))))

-- With at most 64 cores and the `ip` bit of each context equal to its line, this is so after a write to
-- any register that stays inside the pending words.
pub write-IsDriven :
    (p p' : Plic) (addr size value : ℕ)
    → IsDriven p
    → write p addr size value ≡ some p'
    → IsDriven p'
unfolding Keeps
write-IsDriven p p' addr size value d e = write-Keeps p addr size d value p' e

-- With at most 64 cores and the `ip` bit of each context equal to its line, this is so after a read of
-- any register, a claim included, that stays inside the pending words.
pub read-IsDriven :
    (p p' : Plic) (addr size value : ℕ)
    → IsDriven p
    → read p addr size ≡ some (value, p')
    → IsDriven p'
unfolding Keeps
read-IsDriven p p' addr size value d e = read-Keeps p addr size d (value, p') e
