-- ===== src/Dev/Pci/Windows.antt =====
-- The windows that src/devices/pci-host-ecam-generic.cpp finds for an address.
use rv64_vm.Prelude.{
  ℕ, zero, suc, ◌+◌, ◌-◌, ◌≤◌, ◌<◌, ◌≡◌, arith, true, Option, none, some, List, [], ◌∷◌, Bool-cases,
  inl, inr,
}
use rv64_vm.Dev.Pci.{Bar, Functions, Pci, in_bar, find_bar, find_window}

-- `off` is the offset of `addr` in one of the windows of the list, and below its size.
pub data Holds (addr off : ℕ) : List Bar → Type 0 where
  first :
      {b : Bar} {bs : List Bar} → b.address + off ≡ addr → off < b.size → Holds addr off (b ∷ bs)
  later : {b : Bar} {bs : List Bar} → Holds addr off bs → Holds addr off (b ∷ bs)

-- What `find_bar` may give.
data IsFound (addr : ℕ) (bs : List Bar) : Option ℕ → Type 0 where
  nowhere : IsFound addr bs none
  found : {off : ℕ} → Holds addr off bs → IsFound addr bs (some off)

in_bar-first :
    (addr : ℕ) (b : Bar) (bs : List Bar)
    → in_bar addr b ≡ true
    → Holds addr (addr - b.address) (b ∷ bs)
unfolding in_bar
in_bar-first addr b bs h = first (ground arith) (ground arith)

find_bar-IsFound : (addr : ℕ) (bs : List Bar) → IsFound addr bs (find_bar addr bs)
unfolding find_bar
find_bar-IsFound addr [] = nowhere
find_bar-IsFound addr (b ∷ bs) = elim (Bool-cases (in_bar addr b)) [
  | inl e ↦ rw (find_bar, e) (found (in_bar-first addr b bs e))
  | inr e ↦ rw (find_bar, e) (further (find_bar-IsFound addr bs))
]
  where
    further : {o : Option ℕ} → IsFound addr bs o → IsFound addr (b ∷ bs) o
    further nowhere = nowhere
    further (found h) = found (later h)

module _ (fns : Functions) where
  open fns use {bars}

  -- No window, or an attached device below `bound` with a window that holds the address.
  pub data IsWindow (p : Pci fns) (addr bound : ℕ) : Option (ℕ × ℕ) → Type 0 where
    no_window : IsWindow p addr bound none
    window :
        {slot off : ℕ}
        → slot < bound
        → p.attached slot ≡ true
        → Holds addr off (bars p.world slot)
        → IsWindow p addr bound (some (slot, off))

  in_slot :
      (p : Pci fns) (addr bound slot : ℕ) (o : Option ℕ) (rest : Option (ℕ × ℕ))
      → slot < bound
      → p.attached slot ≡ true
      → IsFound addr (bars p.world slot) o
      → IsWindow p addr bound rest
      → IsWindow p addr bound (elim o [ none ↦ rest | some off ↦ some (slot, off) ])
  in_slot p addr bound slot none rest lt on nowhere w = w
  in_slot p addr bound slot (some off) rest lt on (found h) w = window lt on h

  find_from-IsWindow :
      (left slot : ℕ) (p : Pci fns) (addr bound : ℕ)
      → slot + left ≤ bound
      → IsWindow p addr bound (find_window fns left slot p addr)
  unfolding find_window
  find_from-IsWindow zero slot p addr bound h = no_window
  find_from-IsWindow (suc left) slot p addr bound h =
      let rest = find_from-IsWindow left (slot + 1) p addr bound (omega arith) in
      elim (Bool-cases (p.attached slot)) [
        | inr e ↦ rw (find_window, e) rest
        | inl e ↦
            rw (find_window, e)
              (in_slot p addr bound slot (find_bar addr (bars p.world slot)) _ (omega arith) e
                (find_bar-IsFound addr (bars p.world slot)) rest)
      ]

  -- An access of the windows goes to no device, or to one that is attached in a slot below 32, at the
  -- offset of the address in one of its windows, which is below the window's size.
  pub find_window-IsWindow :
      (p : Pci fns) (addr : ℕ) → IsWindow p addr 32 (find_window fns 32 0 p addr)
  find_window-IsWindow p addr = find_from-IsWindow 32 0 p addr 32 (omega arith)
