-- ===== src/Cpu/Decode.antt =====
-- The decoder: src/cpu/decode.cpp and the field extraction of src/cpu/rv32_defs.h.
pub mod Instr
pub mod Fields
pub mod Decode32
pub mod Quadrants
pub mod Quadrant1
pub mod Decoder
pub mod Offsets
pub mod Ranges
