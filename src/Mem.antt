-- ===== src/Mem.antt =====
-- Memory: self-modifying-code marks, the translation cache, the physical memory and the bus.
pub mod Access
pub mod Exc
pub mod Perm
pub mod SelfMod
pub mod Tlb
pub mod Map
pub mod Mmu
pub mod Mmio
