-- ===== src/Tests.antt =====
-- Concrete runs, and the theorems at concrete inputs.
mod Cpu
mod Irq
mod Devices
mod Arith
mod Mem
mod Mmu
mod Bus
mod Iss
mod Uart
mod Debug
mod Platform
mod Elf
mod Dma
mod Small
mod Sd
