-- ===== src/Elf/Loader.antt =====
-- `validate_header` and `do_load` of src/util/elf_loader.cpp, which `load_elf` and
-- `load_elf_from_memory` call with the bytes of a file. The calls of the `write` callback are
-- listed in order; an exception leaves those made before it. A sum of `size_t` is a number here,
-- since 64 bits hold it.
use virtual_so_c.Prelude.{
  ℕ, zero, suc, ◌+◌, ◌-◌, ◌*◌, List, [], ◌∷◌, ◌++◌, Option, none, some, not, ◌==◌, ◌||◌, ltb,
  if◌then◌else◌, u32, length, get_or, replicate, leb, ◌^◌,
}
use virtual_so_c.Elf.Format.{
  Elf32Ehdr, Elf32Phdr, ehdr_size, phdr_size, pt_load, em_riscv, et_exec, ehdr_of, phdr_of,
  file_bytes,
}

-- The exceptions, by their messages.
pub data ElfError : Type 0 where
  cannot_open file_too_small bad_magic not_32_bit not_little_endian : ElfError
  not_risc_v : ℕ → ElfError
  not_executable program_headers_exceed_file segment_data_exceeds_file : ElfError

pub record ElfLoadResult : Type 0 where
  pub entry_point : ℕ
  pub load_min : ℕ
  pub load_max : ℕ
  pub segments_loaded : ℕ

-- The result where `do_load` starts.
abbrev pub fresh_result : ℕ → ElfLoadResult
fresh_result entry = record {
  entry_point = entry;
  load_min = 0xFFFFFFFF;
  load_max = 0;
  segments_loaded = 0;
}

-- A call `write(paddr, data, len)`.
pub record Write : Type 0 where
  pub paddr : ℕ
  pub bytes : List ℕ

-- How a load ends: it returns, throws, or reads past the end of the file's bytes.
pub data Ending : Type 0 where
  returned : ElfLoadResult → Ending
  threw : ElfError → Ending
  overran : Ending

pub record Load : Type 0 where
  pub writes : List Write
  pub ending : Ending

unfoldable pub validate_header : Elf32Ehdr → Option ElfError
validate_header eh =
    let id : ℕ → ℕ = λ i. get_or eh.e_ident i 0 in
    if not (id 0 == 0x7F) || not (id 1 == 69) || not (id 2 == 76) || not (id 3 == 70)
    then some bad_magic
    else if not (id 4 == 1)
    then some not_32_bit
    else if not (id 5 == 1)
    then some not_little_endian
    else if not (eh.e_machine == em_riscv)
    then some (not_risc_v eh.e_machine)
    else if not (eh.e_type == et_exec)
    then some not_executable
    else none

-- The state of the loop over the program headers.
pub record Loading : Type 0 where
  pub result : ElfLoadResult
  pub written : List Write

-- What a pass of the loop leads to: the next, or the end of the load.
pub data Pass : Type 0 where
  next : Loading → Pass
  stop : Ending → Pass

-- The copy of the segment's bytes in the file.
unfoldable pub write_data : List ℕ → Elf32Phdr → List Write → Option (List Write)
write_data file ph ws =
    if ltb 0 ph.p_filesz
    then elim (file_bytes file ph.p_offset ph.p_filesz) [
      | none ↦ none
      | some bs ↦ some (ws ++ record { paddr = ph.p_paddr; bytes = bs } ∷ [])
    ]
    else some ws

-- The zeros after them.
unfoldable pub write_bss : Elf32Phdr → List Write → List Write
write_bss ph ws =
    if ltb ph.p_filesz ph.p_memsz
    then ws
      ++ record {
        paddr = u32 (ph.p_paddr + ph.p_filesz);
        bytes = replicate (ph.p_memsz - ph.p_filesz) 0;
      }
        ∷ []
    else ws

unfoldable pub extend : Elf32Phdr → ElfLoadResult → ElfLoadResult
extend ph r =
    let end = u32 (ph.p_paddr + ph.p_memsz) in
    record r {
      load_min = if ltb ph.p_paddr r.load_min then ph.p_paddr else r.load_min;
      load_max = if ltb r.load_max end then end else r.load_max;
      segments_loaded = r.segments_loaded + 1;
    }

unfoldable pub load_segment : List ℕ → Elf32Phdr → Loading → Pass
load_segment file ph l =
    if not (ph.p_type == pt_load)
    then next l
    else if ltb (length file) (u32 (ph.p_offset + ph.p_filesz))
    then stop (threw segment_data_exceeds_file)
    else elim (write_data file ph l.written) [
      | none ↦ stop overran
      | some ws ↦ next (record { result = extend ph l.result; written = write_bss ph ws })
    ]

-- The body of the loop at index `i`. The product `i * e_phentsize` is an `int`: from 2 ^ 31 on it
-- overflows, which is undefined as a read past the file's end is.
unfoldable pub pass : List ℕ → Elf32Ehdr → ℕ → Loading → Pass
pass file eh i l =
    if leb (2 ^ 31) (i * eh.e_phentsize)
    then stop overran
    else elim (file_bytes file (eh.e_phoff + i * eh.e_phentsize) phdr_size) [
      | none ↦ stop overran
      | some raw ↦ load_segment file (phdr_of raw) l
    ]

-- The last `n` passes, from index `i` on.
unfoldable pub load_segments : List ℕ → Elf32Ehdr → ℕ → ℕ → Loading → Load
load_segments file eh zero i l = record { writes = l.written; ending = returned l.result }
load_segments file eh (suc n) i l = elim (pass file eh i l) [
  | next l' ↦ load_segments file eh n (i + 1) l'
  | stop e ↦ record { writes = l.written; ending = e }
]

abbrev pub fails : ElfError → Load
fails e = record { writes = []; ending = threw e }

unfoldable pub do_load : List ℕ → Load
do_load file =
    let eh = ehdr_of file in
    if ltb (length file) ehdr_size then fails file_too_small else elim (validate_header eh) [
      | some e ↦ fails e
      | none ↦
          if ltb (length file) (eh.e_phoff + eh.e_phnum * eh.e_phentsize)
          then fails program_headers_exceed_file
          else load_segments file eh eh.e_phnum 0
              (record { result = fresh_result eh.e_entry; written = [] })
    ]

-- The file at a path, none where it does not open.
unfoldable pub load_elf : Option (List ℕ) → Load
load_elf none = fails cannot_open
load_elf (some file) = do_load file
