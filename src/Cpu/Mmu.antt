-- ===== src/Cpu/Mmu.antt =====
-- Sv32 address translation: src/cpu/mmu.h and src/cpu/mmu.cpp.
pub mod Permissions
pub mod Tlb
pub mod Walk
pub mod Sv32
pub mod Flags
pub mod Memory
pub mod Result
pub mod Cache
pub mod Refines
