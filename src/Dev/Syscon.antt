-- ===== src/Dev/Syscon.antt =====
-- The system controller of src/devices/syscon.cpp.
use rv64_vm.Prelude.{ℕ, ◌+◌, ◌-◌, ◌^◌, not, ◌==◌, if◌then◌else◌, u64}

-- What a write asks of the machine: `cpu.stop()`, `cpu.reset()` or nothing.
pub data Request : Type 0 where
  nothing stop reset : Request

unfoldable pub read : ℕ → ℕ
read addr = 0

unfoldable pub write : ℕ → ℕ → ℕ → Request
write start addr val =
    let offset = u64 (start + 2 ^ 64 - addr) in
    if not (offset == 0)
    then nothing
    else if val == 0x5555
    then stop
    else if val == 0x7777
    then reset
    else nothing
