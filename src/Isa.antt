-- ===== src/Isa.antt =====
-- The instructions: src/sets.
pub mod Priv
pub mod Zicsr
pub mod TrapReturn
pub mod Arith
pub mod Rv64i
pub mod Rv64m
pub mod Rv64a
pub mod Rv64c
pub mod Zba
pub mod Zbb
pub mod Zbc
pub mod Zbs
pub mod Zicboz
pub mod Float
pub mod Rv64f
pub mod Rv64d
pub mod Zifencei
