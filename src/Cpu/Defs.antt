-- ===== src/Cpu/Defs.antt =====
-- The constants of src/cpu/rv32_defs.h.
mod Opcodes
mod Addresses
mod Fields
pub use Opcodes.*
pub use Addresses.*
pub use Fields.*
