-- ===== src/Irq.antt =====
-- The interrupt controllers: src/irq.
pub mod Plic
pub mod Clint
