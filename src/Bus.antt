-- ===== src/Bus.antt =====
-- The system bus: src/bus/tlm_bus.h and src/bus/tlm_bus.cpp.
pub mod Map
pub mod Router
pub mod Routes
pub mod Delivery
