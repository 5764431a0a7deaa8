-- ===== src/Cpu/Csr.antt =====
-- The control and status registers: src/cpu/csr.h and src/cpu/csr.cpp. The callback
-- `on_satp_write` is the flag `satp_written` of a write's result.
pub mod File
pub mod Access
pub mod Isolation
pub mod Cases
pub mod Status
pub mod Lines
