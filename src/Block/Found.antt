-- ===== src/Block/Found.antt =====
-- `compile_block` of src/block.cpp and `BlockCache::lookup` of include/block_cache.hpp index the
-- slots by different shifts of the address.
use rv64_vm.Prelude.{ℕ, inl, inr, ◌≡◌, ◌≢◌, refl, ◌==◌, ==_ne, Bool-cases, update}
use rv64_vm.Hart.State.{Hart}
use rv64_vm.Block.Cache.{Block, BlockCache, lookup, lookup_slot, compile_slot, block_max_insts}
use rv64_vm.Block.Compile.{Machine, compile_from, compile_block}

module _ (m : Machine) where
  open m use {World, Code, self_mod}

  update-other :
      (slots : ℕ → Block Code) (i j : ℕ) (b : Block Code) → i ≢ j → update slots i b j ≡ slots j
  update-other slots i j b h = rw (==_ne i j h) refl

  -- Outside the slot that `compile_block` fills, `lookup` finds what it found before.
  lookup-other :
      (bc : BlockCache Code) (slot : ℕ) (b : Block Code) (epoch phys : ℕ)
      → slot ≢ lookup_slot phys
      → lookup (record bc { slots = update bc.slots slot b }) epoch phys ≡ lookup bc epoch phys
  unfolding lookup
  lookup-other bc slot b epoch phys h =
      rw (lookup, update-other bc.slots slot (lookup_slot phys) b h) refl

  -- When the two indices of an address differ, `compile_block` at that address changes nothing for
  -- `lookup` there: the block that it has built is never found.
  pub compile_block-lookup :
      (h : Hart) (w : World) (bc : BlockCache Code) (phys epoch : ℕ)
      (apart : compile_slot phys ≢ lookup_slot phys)
      → lookup (compile_block m h w bc phys).cache epoch phys ≡ lookup bc epoch phys
  unfolding compile_block
  compile_block-lookup h w bc phys epoch apart =
      let r =
        compile_from m block_max_insts h w h.pc 0
          (record (bc.slots (compile_slot phys)) { gen = 0; start_phys = phys }) in
      elim (Bool-cases (r.count == 0)) [
        | inl e ↦
            rw (compile_block, e) (lookup-other bc (compile_slot phys) r.block epoch phys apart)
        | inr e ↦ rw (compile_block, e) (lookup-other bc (compile_slot phys) _ epoch phys apart)
      ]
