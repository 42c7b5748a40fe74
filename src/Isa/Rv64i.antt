-- ===== src/Isa/Rv64i.antt =====
-- src/sets/rv64i.cpp.
pub mod Alu
pub mod Jump
pub mod LoadStore
pub mod Results
