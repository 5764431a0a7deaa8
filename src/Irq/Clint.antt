-- ===== src/Irq/Clint.antt =====
-- The core-local interrupt controller: src/irq/clint.h and src/irq/clint.cpp.
pub mod Device
pub mod Lines
pub mod Registers
