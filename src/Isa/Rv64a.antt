-- ===== src/Isa/Rv64a.antt =====
-- src/sets/rv64a.cpp: atomic instructions, over the accesses of `Mmio`. `none` is a failure of the host
-- program.
pub mod Reserve
use rv64_vm.Prelude.{
  ℕ, ◌+◌, ◌%◌, ◌^◌, bit_and, bit_or, bit_xor, min, max, Bool, true, false, not, ◌&&◌, Option, none,
  some, ◌==◌, if◌then◌else◌, u32, u64,
}
use rv64_vm.Hart.State.{Hart, set_gpr, ExecReturn, InstructionData, next, fail}
use rv64_vm.Isa.Arith.{sext32, lt_signed}
use rv64_vm.Isa.Rv64i.Alu.{rs1, rs2}
use rv64_vm.Isa.Rv64i.LoadStore.{of_memory}
use rv64_vm.Mem.Access.{load, store, MemoryReturn, success}
use rv64_vm.Mem.Mmio.{
  Devices, World, At, Reply, Flow, crash, exit, go, ◌>>=◌, run, translated, read, write,
}

-- `none` where an access crashed; its reply otherwise, whose failure is returned at once.
abbrev pub of_reply : {S : Type 0} → Option (Reply S) → Flow S (At S)
of_reply none = crash
of_reply (some r) =
    if r.ret.is_success then go (record { hart = r.hart; world = r.world; val = r.val }) else exit r

-- `reservation.valid = false`
abbrev pub drop_reservation : Hart → Hart
drop_reservation h = record h { reservation = record h.reservation { valid = false } }

-- `reservation.valid && reservation.paddr == pa && reservation.size == size`
abbrev pub reserves : Hart → ℕ → ℕ → Bool
reserves h pa n = h.reservation.valid && h.reservation.paddr == pa && h.reservation.size == n

module _ (dev : Devices) where
  open dev use {State}

  abbrev replied : At State → ℕ → Flow State (Reply State)
  replied a val = go (record { hart = a.hart; world = a.world; ret = success; val = val })

  -- SC once its address is translated.
  unfoldable pub store_reserved : ℕ → ℕ → At State → Flow State (Reply State)
  store_reserved n val p =
      if reserves p.hart p.val n
      then of_reply (write dev p.hart p.world p.val n val true)
        >>= (λ a. replied (record a { hart = drop_reservation a.hart }) 0)
      else replied (record p { hart = drop_reservation p.hart }) 1

  unfoldable pub amo_sc : Hart → World State → ℕ → ℕ → ℕ → Option (Reply State)
  amo_sc h w va n val = run (translated dev h w store va >>= store_reserved n val)

  unfoldable pub amo_lr : Hart → World State → ℕ → ℕ → Option (Reply State)
  amo_lr h w va n = run (do
    p ← translated dev h w load va
    a ← of_reply (read dev p.hart p.world p.val n true)
    replied
        (record a {
          hart = record a.hart { reservation = record { valid = true; size = n; paddr = p.val } };
        })
        (a.val % 256 ^ n))

  -- `AMO64` and `AMO32`, for n = 8 and n = 4: `func` on the value read and the operand.
  unfoldable pub amo : ℕ → (ℕ → ℕ → ℕ) → Hart → World State → ℕ → ℕ → Option (Reply State)
  amo n func h w va operand = run (do
    p ← translated dev h w store va
    a ← of_reply (read dev p.hart p.world p.val n true)
    b ← of_reply (write dev a.hart a.world p.val n (func a.val operand) true)
    replied b a.val)

  -- What an instruction gives back.
  pub record Step : Type 0 where
    pub hart : Hart
    pub world : World State
    pub out : ExecReturn

  -- The register is written on success; a failure returns with `increase_pc` as given.
  abbrev finish : ℕ → (ℕ → ℕ) → InstructionData → Option (Reply State) → Option Step
  finish increase extend inst none = none
  finish increase extend inst (some r) = some (
      if r.ret.is_success
      then record { hart = set_gpr r.hart inst.rd (extend r.val); world = r.world; out = next }
      else record {
        hart = r.hart;
        world = r.world;
        out = record (of_memory r.ret) { increase_pc = increase };
      })

  unfoldable pub exec_lr_d : Hart → World State → InstructionData → Option Step
  exec_lr_d h w inst = finish 4 (λ v. v) inst (amo_lr h w (rs1 h inst) 8)

  unfoldable pub exec_sc_d : Hart → World State → InstructionData → Option Step
  exec_sc_d h w inst = finish 4 (λ v. v) inst (amo_sc h w (rs1 h inst) 8 (rs2 h inst))

  unfoldable pub exec_lr_w : Hart → World State → InstructionData → Option Step
  exec_lr_w h w inst = finish 0 sext32 inst (amo_lr h w (rs1 h inst) 4)

  unfoldable pub exec_sc_w : Hart → World State → InstructionData → Option Step
  exec_sc_w h w inst = finish 0 (λ v. v) inst (amo_sc h w (rs1 h inst) 4 (u32 (rs2 h inst)))

  unfoldable pub exec_amoswap_d : Hart → World State → InstructionData → Option Step
  exec_amoswap_d h w inst = finish 4 (λ v. v) inst (amo 8 (λ a b. b) h w (rs1 h inst) (rs2 h inst))

  unfoldable pub exec_amoadd_d : Hart → World State → InstructionData → Option Step
  exec_amoadd_d h w inst =
      finish 4 (λ v. v) inst (amo 8 (λ a b. u64 (a + b)) h w (rs1 h inst) (rs2 h inst))

  unfoldable pub exec_amoxor_d : Hart → World State → InstructionData → Option Step
  exec_amoxor_d h w inst =
      finish 4 (λ v. v) inst (amo 8 (λ a b. bit_xor a b) h w (rs1 h inst) (rs2 h inst))

  unfoldable pub exec_amoand_d : Hart → World State → InstructionData → Option Step
  exec_amoand_d h w inst =
      finish 4 (λ v. v) inst (amo 8 (λ a b. bit_and a b) h w (rs1 h inst) (rs2 h inst))

  unfoldable pub exec_amoor_d : Hart → World State → InstructionData → Option Step
  exec_amoor_d h w inst =
      finish 4 (λ v. v) inst (amo 8 (λ a b. bit_or a b) h w (rs1 h inst) (rs2 h inst))

  unfoldable pub exec_amomin_d : Hart → World State → InstructionData → Option Step
  exec_amomin_d h w inst =
      finish 4 (λ v. v) inst
        (amo 8 (λ a b. (if lt_signed b a then b else a)) h w (rs1 h inst) (rs2 h inst))

  unfoldable pub exec_amomax_d : Hart → World State → InstructionData → Option Step
  exec_amomax_d h w inst =
      finish 4 (λ v. v) inst
        (amo 8 (λ a b. (if lt_signed a b then b else a)) h w (rs1 h inst) (rs2 h inst))

  unfoldable pub exec_amominu_d : Hart → World State → InstructionData → Option Step
  exec_amominu_d h w inst =
      finish 4 (λ v. v) inst (amo 8 (λ a b. min a b) h w (rs1 h inst) (rs2 h inst))

  unfoldable pub exec_amomaxu_d : Hart → World State → InstructionData → Option Step
  exec_amomaxu_d h w inst =
      finish 4 (λ v. v) inst (amo 8 (λ a b. max a b) h w (rs1 h inst) (rs2 h inst))

  unfoldable pub exec_amoswap_w : Hart → World State → InstructionData → Option Step
  exec_amoswap_w h w inst =
      finish 4 sext32 inst (amo 4 (λ a b. b) h w (rs1 h inst) (u32 (rs2 h inst)))

  unfoldable pub exec_amoadd_w : Hart → World State → InstructionData → Option Step
  exec_amoadd_w h w inst =
      finish 4 sext32 inst (amo 4 (λ a b. u32 (a + b)) h w (rs1 h inst) (u32 (rs2 h inst)))

  unfoldable pub exec_amoxor_w : Hart → World State → InstructionData → Option Step
  exec_amoxor_w h w inst =
      finish 4 sext32 inst (amo 4 (λ a b. bit_xor a b) h w (rs1 h inst) (u32 (rs2 h inst)))

  unfoldable pub exec_amoand_w : Hart → World State → InstructionData → Option Step
  exec_amoand_w h w inst =
      finish 4 sext32 inst (amo 4 (λ a b. bit_and a b) h w (rs1 h inst) (u32 (rs2 h inst)))

  unfoldable pub exec_amoor_w : Hart → World State → InstructionData → Option Step
  exec_amoor_w h w inst =
      finish 4 sext32 inst (amo 4 (λ a b. bit_or a b) h w (rs1 h inst) (u32 (rs2 h inst)))

  unfoldable pub exec_amomin_w : Hart → World State → InstructionData → Option Step
  exec_amomin_w h w inst = finish 4 sext32 inst (
      amo 4 (λ a b. (if lt_signed (sext32 b) (sext32 a) then b else a)) h w (rs1 h inst)
        (u32 (rs2 h inst)))

  unfoldable pub exec_amomax_w : Hart → World State → InstructionData → Option Step
  exec_amomax_w h w inst = finish 4 sext32 inst (
      amo 4 (λ a b. (if lt_signed (sext32 a) (sext32 b) then b else a)) h w (rs1 h inst)
        (u32 (rs2 h inst)))

  unfoldable pub exec_amominu_w : Hart → World State → InstructionData → Option Step
  exec_amominu_w h w inst =
      finish 4 sext32 inst (amo 4 (λ a b. min a b) h w (rs1 h inst) (u32 (rs2 h inst)))

  unfoldable pub exec_amomaxu_w : Hart → World State → InstructionData → Option Step
  exec_amomaxu_w h w inst =
      finish 4 sext32 inst (amo 4 (λ a b. max a b) h w (rs1 h inst) (u32 (rs2 h inst)))
