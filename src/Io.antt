-- ===== src/Io.antt =====
-- The simple devices: src/io.
pub mod Timer
pub mod Gpio
pub mod Uart
pub mod Spi
