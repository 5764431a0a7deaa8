-- ===== src/Cpu/Arith.antt =====
-- Multiplication and division: src/cpu/rv32m.cpp; the atomic operations: src/cpu/rv32a.h.
pub mod Signed
pub mod Muldiv
pub mod Product
pub mod Quotient
pub mod Amo
