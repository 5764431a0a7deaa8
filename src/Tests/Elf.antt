-- ===== src/Tests/Elf.antt =====
-- The ELF loader on concrete files: src/util/elf_loader.cpp.
use virtual_so_c.Prelude.{
  none, Option, inr, ℕ, ◌+◌, ◌^◌, ◌<◌, ◌≤◌, take, set, List, [], ◌∷◌, ◌++◌, some, true, false,
  replicate, length, ◌≡◌, refl, arith, inl,
}
use virtual_so_c.Platform.Loaded.{image}
use virtual_so_c.Tlm.{store_le, load_le}
use virtual_so_c.Tlm.{Command, Response}
use virtual_so_c.Platform.Machine.{Machine, switched_on, transact}
use virtual_so_c.Platform.Fetched.{Among, board_of, transact-boot}
use virtual_so_c.Mem.Ram.{transfer, fetch}
use virtual_so_c.Elf.Format.{ehdr_of, phdr_of, file_bytes}
use virtual_so_c.Elf.Loader.{
  returned, threw, segment_data_exceeds_file, do_load, load_segments, pass, load_segment,
  validate_header,
}
use virtual_so_c.Elf.Encode.{
  Segment, IsSegment, encode, put_ehdr, put_phdrs, put_phdr, put_contents,
}
use virtual_so_c.Elf.Writes.{
  data_writes, bss_writes, segment_writes, loadable, all_writes, lowest, highest, AllSegments,
}
use virtual_so_c.Elf.RoundTrip.{IsProgram, do_load-encode}
use virtual_so_c.Elf.Safety.{IsPlain, is_overran, do_load-inside}
use virtual_so_c.Platform.Boot.{Board, boot}
use virtual_so_c.Platform.Loaded.{AllInRam, AllApart, AllHeld, OutsideAll, boot-encode}

-- Four bytes of code, a note that is not loaded, and two bytes of data before three zeros.
abbrev code : Segment
code = record {
  kind = 1;
  vaddr = 0x80000000;
  paddr = 0x80000000;
  memsz = 4;
  flags = 5;
  align = 4;
  contents = 0x73 ∷ 0 ∷ 0x10 ∷ 0 ∷ [];
}

abbrev comment : Segment
comment = record {
  kind = 4;
  vaddr = 0;
  paddr = 0;
  memsz = 1;
  flags = 4;
  align = 1;
  contents = 9 ∷ [];
}

abbrev globals : Segment
globals = record {
  kind = 1;
  vaddr = 0x80000008;
  paddr = 0x80000008;
  memsz = 5;
  flags = 6;
  align = 4;
  contents = 7 ∷ 8 ∷ [];
}

abbrev program : List Segment
program = code ∷ comment ∷ globals ∷ []

segment :
    (s : Segment)
    → s.kind < 2 ^ 32
    → s.vaddr < 2 ^ 32
    → s.flags < 2 ^ 32
    → s.align < 2 ^ 32
    → s.paddr + s.memsz < 2 ^ 32
    → length s.contents ≤ s.memsz
    → IsSegment s
segment s k v f a e c = record {
  kind_lt = k;
  vaddr_lt = v;
  flags_lt = f;
  align_lt = a;
  end_lt = e;
  contents-le = c;
}

segments : AllSegments program
unfolding AllSegments
segments = (
  segment code (omega arith) (omega arith) (omega arith) (omega arith) (omega arith) (omega arith),
  (
    segment comment (omega arith) (omega arith) (omega arith) (omega arith) (omega arith)
        (omega arith),
    (
      segment globals (omega arith) (omega arith) (omega arith) (omega arith) (omega arith)
          (omega arith),
      tt,
    ),
  ),
)

is_program : IsProgram 0x80000000 program
unfolding encode put_ehdr put_phdrs put_phdr put_contents store_le
is_program = (omega arith, omega arith, omega arith, segments)

do_load-encode_example : do_load (encode 0x80000000 program) ≡ record {
  writes =
      record { paddr = 0x80000000; bytes = 0x73 ∷ 0 ∷ 0x10 ∷ 0 ∷ [] }
      ∷ record { paddr = 0x80000008; bytes = 7 ∷ 8 ∷ [] }
      ∷ record { paddr = 0x8000000A; bytes = 0 ∷ 0 ∷ 0 ∷ [] }
      ∷ [];
  ending = returned (record {
    entry_point = 0x80000000;
    load_min = 0x80000000;
    load_max = 0x8000000D;
    segments_loaded = 2;
  });
}
unfolding loadable all_writes segment_writes data_writes bss_writes lowest highest
do_load-encode_example = do_load-encode 0x80000000 program is_program

abbrev board : Board
board = record { ram = replicate 16 1; bootrom = 5 ∷ [] }

in_ram : AllInRam 16 (loadable program)
unfolding AllInRam loadable
in_ram = (
  record { first = omega arith; last = omega arith },
  (record { first = omega arith; last = omega arith }, tt),
)

apart : AllApart (loadable program)
unfolding AllApart OutsideAll loadable
apart = ((inl (omega arith), tt), (tt, tt))

boot-encode_example :
    (mem : List ℕ) × (boot (some (encode 0x80000000 program)) board
      ≡ some (record { board = record board { ram = mem }; pc = 0x80000000 }))
    × (length mem ≡ length board.ram)
    × AllHeld (loadable program) mem
    × ((a n : ℕ) → OutsideAll a n (loadable program) → fetch mem a n ≡ fetch board.ram a n)
boot-encode_example = boot-encode 0x80000000 program board is_program in_ram apart (omega arith)

abbrev no_peripheral : Option (ℕ → ℕ → ℕ × ℕ)
no_peripheral = none

abbrev machine : Machine ℕ
machine = switched_on 0 (5 ∷ []) (replicate 16 1)

globals-Among : Among globals (loadable program)
unfolding Among loadable
globals-Among = inr (inl refl)

transact-boot_example :
    (mem : List ℕ) × (boot (some (encode 0x80000000 program)) (board_of machine)
      ≡ some (record { board = record (board_of machine) { ram = mem }; pc = 0x80000000 }))
    × (let r =
          transact no_peripheral
            (record machine { ram = mem })
            (transfer Command.read_command 0x80000008 5 (replicate 6 9)) in
        (r.1.status ≡ Response.ok_response) × (r.1.bytes ≡ 7 ∷ 8 ∷ 0 ∷ 0 ∷ 0 ∷ 9 ∷ []))
unfolding image
transact-boot_example =
    transact-boot no_peripheral 0x80000000 program machine globals (replicate 6 9) is_program in_ram
      apart (omega arith) globals-Among (omega arith)

-- The file of one segment without its last two bytes: the load throws before it writes.
abbrev cut_short : List ℕ
cut_short = take 86 (encode 0x80000000 (code ∷ []))

cut_short-IsPlain : IsPlain cut_short (ehdr_of cut_short)
unfolding encode put_ehdr put_phdrs put_phdr put_contents store_le load_le ehdr_of phdr_of
cut_short-IsPlain = record {
  wide = omega arith;
  no_wrap = λ i l. let first : i ≡ 0 = omega arith in rw first (omega arith);
}

do_load-inside_example : is_overran (do_load cut_short).ending ≡ false
unfolding encode put_ehdr store_le put_phdrs put_phdr put_contents
do_load-inside_example = do_load-inside cut_short (omega arith) cut_short-IsPlain

cut_short_throws :
    do_load cut_short ≡ record { writes = []; ending = threw segment_data_exceeds_file }
unfolding encode put_ehdr put_phdrs put_phdr put_contents store_le load_le ehdr_of phdr_of do_load
    validate_header load_segments pass load_segment file_bytes
cut_short_throws = refl

-- An entry of the table that is not as wide as a header, at the end of the file, is read past it.
abbrev narrow : List ℕ
narrow = narrow_header ++ replicate 8 0
  where
    narrow_header : List ℕ
    narrow_header = set (take 52 (encode 0x80000000 (code ∷ []))) 42 8

narrow_overruns : is_overran (do_load narrow).ending ≡ true
unfolding encode put_ehdr put_phdrs put_phdr put_contents store_le load_le ehdr_of do_load
    validate_header load_segments pass file_bytes is_overran
narrow_overruns = refl
