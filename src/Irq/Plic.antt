-- ===== src/Irq/Plic.antt =====
-- The platform-level interrupt controller: src/irq/plic.h and src/irq/plic.cpp.
pub mod Device
pub mod Arbitration
pub mod Service
pub mod Lines
