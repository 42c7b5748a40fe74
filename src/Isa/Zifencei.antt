-- ===== src/Isa/Zifencei.antt =====
-- FENCE.I of src/sets/zifencei.cpp, over the decoder that the core shares.
use rv64_vm.Prelude.{ℕ}
use rv64_vm.Hart.State.{Hart, InstructionData, ExecReturn, next}
use rv64_vm.Decode.Cache.{Decoder, clear_decode_cache}

module _ (F : Type 0) (pext_u32 : ℕ → ℕ → ℕ) where
  unfoldable pub exec_fence_i :
      Decoder F
      → Hart
      → InstructionData
      → record { decoder : Decoder F; hart : Hart; out : ExecReturn }
  exec_fence_i d hart inst = record {
    decoder = clear_decode_cache F pext_u32 d;
    hart = hart;
    out = next;
  }
