-- ===== src/Elf/Format.antt =====
-- The headers of a 32-bit ELF file, as src/util/elf_loader.cpp copies them out of the file's bytes
-- into `Elf32_Ehdr` and `Elf32_Phdr`, on a little-endian host.
use virtual_so_c.Prelude.{ℕ, ◌+◌, List, Option, none, some, ltb, if◌then◌else◌, take, drop, length}
use virtual_so_c.Tlm.{load_le}
use virtual_so_c.Mem.Ram.{fetch}

abbrev pub ei_nident : ℕ
ei_nident = 16

-- `sizeof(Elf32_Ehdr)` and `sizeof(Elf32_Phdr)`.
abbrev pub ehdr_size : ℕ
ehdr_size = 52

abbrev pub phdr_size : ℕ
phdr_size = 32

pub record Elf32Ehdr : Type 0 where
  pub e_ident : List ℕ
  pub e_type : ℕ
  pub e_machine : ℕ
  pub e_version : ℕ
  pub e_entry : ℕ
  pub e_phoff : ℕ
  pub e_shoff : ℕ
  pub e_flags : ℕ
  pub e_ehsize : ℕ
  pub e_phentsize : ℕ
  pub e_phnum : ℕ
  pub e_shentsize : ℕ
  pub e_shnum : ℕ
  pub e_shstrndx : ℕ

pub record Elf32Phdr : Type 0 where
  pub p_type : ℕ
  pub p_offset : ℕ
  pub p_vaddr : ℕ
  pub p_paddr : ℕ
  pub p_filesz : ℕ
  pub p_memsz : ℕ
  pub p_flags : ℕ
  pub p_align : ℕ

abbrev pub pt_load : ℕ
pt_load = 1

abbrev pub em_riscv : ℕ
em_riscv = 0xF3

abbrev pub et_exec : ℕ
et_exec = 2

abbrev pub half_at : List ℕ → ℕ → ℕ
half_at bs at = load_le 2 (drop at bs)

abbrev pub word_at : List ℕ → ℕ → ℕ
word_at bs at = load_le 4 (drop at bs)

unfoldable pub ehdr_of : List ℕ → Elf32Ehdr
ehdr_of bs = record {
  e_ident = take ei_nident bs;
  e_type = half_at bs 16;
  e_machine = half_at bs 18;
  e_version = word_at bs 20;
  e_entry = word_at bs 24;
  e_phoff = word_at bs 28;
  e_shoff = word_at bs 32;
  e_flags = word_at bs 36;
  e_ehsize = half_at bs 40;
  e_phentsize = half_at bs 42;
  e_phnum = half_at bs 44;
  e_shentsize = half_at bs 46;
  e_shnum = half_at bs 48;
  e_shstrndx = half_at bs 50;
}

unfoldable pub phdr_of : List ℕ → Elf32Phdr
phdr_of bs = record {
  p_type = word_at bs 0;
  p_offset = word_at bs 4;
  p_vaddr = word_at bs 8;
  p_paddr = word_at bs 12;
  p_filesz = word_at bs 16;
  p_memsz = word_at bs 20;
  p_flags = word_at bs 24;
  p_align = word_at bs 28;
}

-- `n` bytes of the file from `at` on; none where the source would read past its end.
unfoldable pub file_bytes : List ℕ → ℕ → ℕ → Option (List ℕ)
file_bytes file at n = if ltb (length file) (at + n) then none else some (fetch file at n)
