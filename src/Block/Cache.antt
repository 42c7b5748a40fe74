-- ===== src/Block/Cache.antt =====
-- include/block_cache.hpp: blocks and their direct-mapped cache. `epoch` is `g_smc_epoch`.
use rv64_vm.Prelude.{ℕ, ◌+◌, ◌%◌, ◌^◌, Option, none, some, ◌&&◌, ◌==◌, if◌then◌else◌, u64, ◌>>>◌}
use rv64_vm.Hart.State.{InstructionData}

module _ (Code : Type 0) where
  pub record BlockInstr : Type 0 where
    pub inst : Code
    pub bytes : InstructionData
    pub increase_pc : ℕ

  pub record Block : Type 0 where
    pub start_phys : ℕ
    pub gen : ℕ
    pub smc : ℕ
    pub count : ℕ
    pub last_inst : ℕ
    pub instrs : ℕ → BlockInstr

  pub record BlockCache : Type 0 where
    pub generation : ℕ
    pub slots : ℕ → Block

abbrev pub block_max_insts : ℕ
block_max_insts = 16

abbrev pub cache_bits : ℕ
cache_bits = 15

-- The slot that `lookup` reads, and the one that `compile_block` fills.
abbrev pub lookup_slot : ℕ → ℕ
lookup_slot phys_pc = (phys_pc >>> 1) % 2 ^ cache_bits

abbrev pub compile_slot : ℕ → ℕ
compile_slot start_phys = (start_phys >>> 2) % 2 ^ cache_bits

unfoldable pub clear : {Code : Type 0} → BlockCache Code → BlockCache Code
clear bc = record bc { generation = u64 (bc.generation + 1) }

unfoldable pub lookup : {Code : Type 0} → BlockCache Code → ℕ → ℕ → Option (Block Code)
lookup bc epoch phys_pc =
    let b = bc.slots (lookup_slot phys_pc) in
    if b.start_phys == phys_pc && b.gen == bc.generation && b.smc == epoch then some b else none
