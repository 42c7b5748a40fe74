-- ===== src/Decode.antt =====
-- Instruction decoding: include/decode.hpp and src/decode.cpp.
pub mod Fields
pub mod Pattern
pub mod Cache
