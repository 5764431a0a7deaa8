-- ===== src/Cpu.antt =====
-- The RV32IMAC core: src/cpu.
pub mod Defs
pub mod Csr
pub mod State
pub mod Trap
pub mod Mmu
pub mod Decode
pub mod Arith
pub mod Execute
pub mod Iss
