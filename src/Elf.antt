-- ===== src/Elf.antt =====
-- The ELF loader: src/util/elf_loader.cpp, and the copies that the platform makes of what it loads.
pub mod Format
pub mod Loader
pub mod Encode
pub mod Writes
pub mod RoundTrip
pub mod Safety
