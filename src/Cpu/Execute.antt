-- ===== src/Cpu/Execute.antt =====
-- The executor: src/cpu/execute.cpp.
pub mod Memory
pub mod Loads
pub mod System
pub mod Dispatch
pub mod Frame
pub mod Isolation
pub mod Legal
