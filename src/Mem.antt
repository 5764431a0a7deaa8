-- ===== src/Mem.antt =====
-- Memories: src/mem.
pub mod Ram
pub mod Host
pub mod Blocks
pub mod BootRom
