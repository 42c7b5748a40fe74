-- ===== src/Block.antt =====
-- src/block.cpp and include/block_cache.hpp: the runner on blocks of decoded instructions, as it is
-- built without USE_JIT.
pub mod Shape
pub mod Cache
pub mod Compile
pub mod Run
pub mod Loop
pub mod Terminates
pub mod Built
pub mod Valid
pub mod Found
pub mod Steps
