-- ===== src/Platform.antt =====
-- The platform: src/platform.
pub mod Interrupts
pub mod Wired
pub mod MemoryMap
pub mod Boot
pub mod Loaded
pub mod Machine
pub mod Masters
pub mod Whole
pub mod Routed
pub mod Ticks
pub mod Fetched
