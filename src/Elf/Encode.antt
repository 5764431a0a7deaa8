-- ===== src/Elf/Encode.antt =====
-- A reference writer of 32-bit RISC-V executables, against which the loader of
-- src/util/elf_loader.cpp is read: the header, the table of program headers, then the segments'
-- bytes one after another.
use virtual_so_c.Prelude.{
  none, ℕ, ◌+◌, ◌*◌, ◌^◌, ◌≤◌, ◌<◌, List, [], ◌∷◌, ◌++◌, length, ◌≡◌, refl, arith, replicate,
  length-append,
}
use virtual_so_c.Tlm.{store_le, load_le, load_le-store_le}
use virtual_so_c.Elf.Loader.{validate_header}
use virtual_so_c.Elf.Format.{Elf32Ehdr, Elf32Phdr, phdr_of, ehdr_of}

pub record Segment : Type 0 where
  pub kind : ℕ
  pub vaddr : ℕ
  pub paddr : ℕ
  pub memsz : ℕ
  pub flags : ℕ
  pub align : ℕ
  pub contents : List ℕ

-- The fields fit in their words, the segment in the address space, and the bytes in the segment.
pub record IsSegment (s : Segment) : Type 0 where
  pub kind_lt : s.kind < 2 ^ 32
  pub vaddr_lt : s.vaddr < 2 ^ 32
  pub flags_lt : s.flags < 2 ^ 32
  pub align_lt : s.align < 2 ^ 32
  pub end_lt : s.paddr + s.memsz < 2 ^ 32
  pub contents-le : length s.contents ≤ s.memsz

unfoldable pub put_phdr : ℕ → Segment → List ℕ
put_phdr off s =
    store_le 4 s.kind
    ++ (store_le 4 off
        ++ (store_le 4 s.vaddr
            ++ (store_le 4 s.paddr
                ++ (store_le 4 (length s.contents)
                    ++ (store_le 4 s.memsz ++ (store_le 4 s.flags ++ store_le 4 s.align))))))

-- The table, for segments whose bytes start at `off`.
unfoldable pub put_phdrs : ℕ → List Segment → List ℕ
put_phdrs off [] = []
put_phdrs off (s ∷ ss) = put_phdr off s ++ put_phdrs (off + length s.contents) ss

unfoldable pub put_contents : List Segment → List ℕ
put_contents [] = []
put_contents (s ∷ ss) = s.contents ++ put_contents ss

abbrev pub ident : List ℕ
ident = 0x7F ∷ 69 ∷ 76 ∷ 70 ∷ 1 ∷ 1 ∷ 1 ∷ 0 ∷ replicate 8 0

unfoldable pub put_ehdr : ℕ → ℕ → List ℕ
put_ehdr entry count =
    ident
    ++ (store_le 2 2
        ++ (store_le 2 0xF3
            ++ (store_le 4 1
                ++ (store_le 4 entry
                    ++ (store_le 4 52
                        ++ (store_le 4 0
                            ++ (store_le 4 0
                                ++ (store_le 2 52
                                    ++ (store_le 2 32
                                        ++ (store_le 2 count
                                            ++ (store_le 2 0
                                                ++ (store_le 2 0 ++ store_le 2 0))))))))))))

unfoldable pub encode : ℕ → List Segment → List ℕ
encode entry ss =
    put_ehdr entry (length ss) ++ (put_phdrs (52 + 32 * length ss) ss ++ put_contents ss)

-- The header that a written segment is read as.
abbrev pub phdr_for : ℕ → Segment → Elf32Phdr
phdr_for off s = record {
  p_type = s.kind;
  p_offset = off;
  p_vaddr = s.vaddr;
  p_paddr = s.paddr;
  p_filesz = length s.contents;
  p_memsz = s.memsz;
  p_flags = s.flags;
  p_align = s.align;
}

pub length-put_phdr : (off : ℕ) (s : Segment) → length (put_phdr off s) ≡ 32
unfolding put_phdr store_le
length-put_phdr off s = refl

pub length-put_ehdr : (entry count : ℕ) → length (put_ehdr entry count) ≡ 52
unfolding put_ehdr store_le
length-put_ehdr entry count = refl

pub length-put_phdrs : (off : ℕ) (ss : List Segment) → length (put_phdrs off ss) ≡ 32 * length ss
unfolding put_phdrs
length-put_phdrs off [] = omega arith
length-put_phdrs off (s ∷ ss) = omega (
  arith,
  length-append (put_phdr off s) (put_phdrs (off + length s.contents) ss),
  length-put_phdr off s,
  length-put_phdrs (off + length s.contents) ss,
)

pub phdr_of-put_phdr :
    (off : ℕ) (s : Segment) → off < 2 ^ 32 → IsSegment s → phdr_of (put_phdr off s) ≡ phdr_for off s
unfolding phdr_of put_phdr store_le load_le
phdr_of-put_phdr off s o k =
    let size_lt : length s.contents < 2 ^ 32 = omega (arith, k.contents-le, k.end_lt) in
    let paddr_lt : s.paddr < 2 ^ 32 = omega (arith, k.end_lt) in
    let memsz_lt : s.memsz < 2 ^ 32 = omega (arith, k.end_lt) in
    λ i. record {
      p_type = load_le-store_le s.kind [] k.kind_lt i;
      p_offset = load_le-store_le off [] o i;
      p_vaddr = load_le-store_le s.vaddr [] k.vaddr_lt i;
      p_paddr = load_le-store_le s.paddr [] paddr_lt i;
      p_filesz = load_le-store_le (length s.contents) [] size_lt i;
      p_memsz = load_le-store_le s.memsz [] memsz_lt i;
      p_flags = load_le-store_le s.flags [] k.flags_lt i;
      p_align = load_le-store_le s.align [] k.align_lt i;
    }

-- The header passes the checks, and its fields are those that the loader needs.
pub record IsHeader (entry count : ℕ) (eh : Elf32Ehdr) : Type 0 where
  pub valid : validate_header eh ≡ none
  pub phoff : eh.e_phoff ≡ 52
  pub phentsize : eh.e_phentsize ≡ 32
  pub phnum : eh.e_phnum ≡ count
  pub entry_point : eh.e_entry ≡ entry

pub put_ehdr-IsHeader :
    (entry count : ℕ) (rest : List ℕ)
    → entry < 2 ^ 32
    → count < 2 ^ 16
    → IsHeader entry count (ehdr_of (put_ehdr entry count ++ rest))
unfolding ehdr_of put_ehdr store_le load_le validate_header
put_ehdr-IsHeader entry count rest e c = record {
  valid = refl;
  phoff = refl;
  phentsize = refl;
  phnum = omega arith;
  entry_point = load_le-store_le entry [] e;
}
