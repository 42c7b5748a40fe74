-- ===== src/Hart.antt =====
-- The processor core: include/hart.hpp, include/defines/csr.hpp, src/hart.cpp, src/sets/priv.cpp and
-- src/sets/zicsr.cpp.
pub mod Csrs
pub mod Status
pub mod State
pub mod Trap
pub mod Csr
pub mod Ints
pub mod Tick
