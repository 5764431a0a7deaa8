-- ===== src/Cpu/Iss.antt =====
-- The simulator's loop and its ports: src/cpu/iss.h and src/cpu/iss.cpp.
pub mod Port
pub mod Access
pub mod Loop
pub mod Direct
pub mod Kept
pub mod Plain
pub mod Held
