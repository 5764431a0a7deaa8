-- ===== src/Cpu/Trap.antt =====
-- Interrupts, trap entry and the instructions that return from a trap: src/cpu/trap.cpp and the
-- cases MRET and SRET of src/cpu/execute.cpp.
pub mod Entry
pub mod Returns
pub mod Flags
pub mod Pending
pub mod Restore
pub mod Delegated
