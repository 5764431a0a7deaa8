-- ===== src/Elf/RoundTrip.antt =====
-- What the reference writer wrote, the loader of src/util/elf_loader.cpp loads.
use virtual_so_c.Prelude.{
  ℕ, zero, suc, ◌+◌, ◌-◌, ◌*◌, ◌^◌, ◌≤◌, ◌<◌, List, [], ◌∷◌, ◌++◌, true, false, some, ◌==◌, ltb,
  if◌then◌else◌, u32, length, length-append, drop-append, ◌≡◌, refl, sym, ap, ◌∙◌, arith, inl, inr,
  Bool-cases, leb,
}
use mathlib.Core.List.{append-nil, append_assoc}
use virtual_so_c.Mem.Blocks.{take-append}
use virtual_so_c.Elf.Format.{Elf32Ehdr, Elf32Phdr, phdr_of, ehdr_of, file_bytes}
use virtual_so_c.Elf.Loader.{
  fresh_result, Write, returned, Loading, next, write_data, write_bss, extend, load_segment, pass,
  load_segments, do_load,
}
use virtual_so_c.Elf.Writes.{
  data_writes, bss_writes, segment_writes, loadable, all_writes, lowest, highest, spanned,
  AllSegments, spanned-report, loadable-AllSegments,
}
use virtual_so_c.Elf.Encode.{
  Segment, IsSegment, put_phdr, put_phdrs, put_contents, put_ehdr, encode, phdr_for,
  length-put_phdr, length-put_phdrs, length-put_ehdr, phdr_of-put_phdr, IsHeader, put_ehdr-IsHeader,
}

-- A piece of the file, with what stands before and after it.
pub file_bytes-append :
    (file pre mid post : List ℕ) (at n : ℕ)
    → file ≡ pre ++ (mid ++ post)
    → length pre ≡ at
    → length mid ≡ n
    → file_bytes file at n ≡ some mid
unfolding file_bytes
file_bytes-append file pre mid post at n e a m =
    let long : length (pre ++ (mid ++ post)) ≡ at + (n + length post) =
      omega (arith, length-append pre (mid ++ post), length-append mid post, a, m) in
    let fits : ltb (length (pre ++ (mid ++ post))) (at + n) ≡ false = ground (arith, long) in
    rw (e, fits, sym a, drop-append pre (mid ++ post)) (ap some (take-append n mid post m))

-- The two writes of a segment.
write_data-data_writes :
    (file bs : List ℕ) (ph : Elf32Phdr) (ws : List Write)
    → ph.p_filesz ≡ length bs
    → file_bytes file ph.p_offset (length bs) ≡ some bs
    → write_data file ph ws ≡ some (ws ++ data_writes ph.p_paddr bs)
unfolding write_data data_writes
write_data-data_writes file [] ph ws e f =
    let none_left : ltb 0 ph.p_filesz ≡ false = ground (arith, e) in
    rw (none_left, append-nil ws) refl
write_data-data_writes file (b ∷ bs) ph ws e f =
    let some_left : ltb 0 (length (b ∷ bs)) ≡ true = ground arith in rw (e, some_left, f) refl

write_bss-bss_writes :
    (n : ℕ) (ph : Elf32Phdr) (ws : List Write)
    → ph.p_memsz - ph.p_filesz ≡ n
    → ph.p_paddr + ph.p_memsz < 2 ^ 32
    → write_bss ph ws ≡ ws ++ bss_writes (ph.p_paddr + ph.p_filesz) n
unfolding write_bss bss_writes
write_bss-bss_writes zero ph ws e w =
    let none_left : ltb ph.p_filesz ph.p_memsz ≡ false = ground arith in
    rw (none_left, append-nil ws) refl
write_bss-bss_writes (suc n) ph ws e w =
    let some_left : ltb ph.p_filesz ph.p_memsz ≡ true = ground arith in
    let here : u32 (ph.p_paddr + ph.p_filesz) ≡ ph.p_paddr + ph.p_filesz = omega arith in
    rw (some_left, here, e) refl

-- A pass over a segment: the loop's state after it.
unfoldable pub after : Segment → Loading → Loading
after s l =
    if s.kind == 1
    then record { result = extend (phdr_for 0 s) l.result; written = l.written ++ segment_writes s }
    else l

load_segment-after :
    (file pre post : List ℕ) (off : ℕ) (s : Segment) (l : Loading)
    → file ≡ pre ++ (s.contents ++ post)
    → length pre ≡ off
    → length file < 2 ^ 32
    → IsSegment s
    → load_segment file (phdr_for off s) l ≡ next (after s l)
unfolding load_segment after extend segment_writes
load_segment-after file pre post off s l e o f k = elim (Bool-cases (s.kind == 1)) [
  | inr n ↦ rw n refl
  | inl y ↦
      (let ph : Elf32Phdr = phdr_for off s in
        let size : ℕ = length s.contents in
        let long : length file ≡ off + (size + length post) =
          ap length e
          ∙ omega
              (arith, length-append pre (s.contents ++ post), length-append s.contents post, o) in
        let inside : ltb (length file) (u32 (off + size)) ≡ false = ground (arith, long, f) in
        let copied : List Write = l.written ++ data_writes s.paddr s.contents in
        let read : write_data file ph l.written ≡ some copied =
          write_data-data_writes file s.contents ph l.written refl
            (file_bytes-append file pre s.contents post off size e o refl) in
        let zeroed = write_bss-bss_writes (s.memsz - size) ph copied refl k.end_lt in
        rw (y, inside, read, zeroed, append_assoc) refl)
]

unfoldable pub afters : List Segment → Loading → Loading
afters [] l = l
afters (s ∷ ss) l = afters ss (after s l)

load_segments-next :
    (file : List ℕ) (eh : Elf32Ehdr) (n i : ℕ) (l l' : Loading)
    → pass file eh i l ≡ next l'
    → load_segments file eh (suc n) i l ≡ load_segments file eh n (i + 1) l'
unfolding load_segments
load_segments-next file eh n i l l' h = rw (load_segments, h) refl

pass-next :
    (file header : List ℕ) (eh : Elf32Ehdr) (i : ℕ) (l l' : Loading)
    → i * eh.e_phentsize < 2 ^ 31
    → file_bytes file (eh.e_phoff + i * eh.e_phentsize) 32 ≡ some header
    → load_segment file (phdr_of header) l ≡ next l'
    → pass file eh i l ≡ next l'
unfolding pass
pass-next file header eh i l l' small r h =
    let int : leb (2 ^ 31) (i * eh.e_phentsize) ≡ false = ground arith in rw (pass, int, r) h

-- The loop over the rest of the table, whose headers stand after `pre` and whose bytes after
-- `front`.
load_segments-afters :
    (file : List ℕ) (eh : Elf32Ehdr) (ss : List Segment) (i off : ℕ) (pre post front back : List ℕ)
    (l : Loading)
    → eh.e_phoff ≡ 52
    → eh.e_phentsize ≡ 32
    → i + length ss < 2 ^ 16
    → length file < 2 ^ 32
    → AllSegments ss
    → file ≡ pre ++ (put_phdrs off ss ++ post)
    → length pre ≡ 52 + i * 32
    → file ≡ front ++ (put_contents ss ++ back)
    → length front ≡ off
    → let done = afters ss l in
      load_segments file eh (length ss) i l
      ≡ record { writes = done.written; ending = returned done.result }
unfolding load_segments afters put_phdrs put_contents AllSegments
load_segments-afters file eh [] i off pre post front back l a b c f k e m g o = refl
load_segments-afters file eh (s ∷ ss) i off pre post front back l a b c f (k, ks) e m g o =
    let header : List ℕ = put_phdr off s in
    let on : ℕ = off + length s.contents in
    let headers : List ℕ = put_phdrs on ss in
    let contents : List ℕ = put_contents ss in
    let table : file ≡ pre ++ (header ++ (headers ++ post)) =
      e ∙ ap (λ t. pre ++ t) (append_assoc header headers post) in
    let bytes : file ≡ front ++ (s.contents ++ (contents ++ back)) =
      g ∙ ap (λ t. front ++ t) (append_assoc s.contents contents back) in
    let off_lt : off < 2 ^ 32 =
      omega
        (arith, f, ap length bytes, length-append front (s.contents ++ (contents ++ back)), o) in
    let read : file_bytes file (eh.e_phoff + i * eh.e_phentsize) 32 ≡ some header =
      rw (a, b)
        (file_bytes-append file pre header (headers ++ post) (52 + i * 32) 32 table m
          (length-put_phdr off s)) in
    let loaded : load_segment file (phdr_for off s) l ≡ next (after s l) =
      load_segment-after file front (contents ++ back) off s l bytes o f k in
    load_segments-next file eh (length ss) i l (after s l) (
      pass-next file header eh i l (after s l) (rw b (omega (arith, c))) read
        (rw (phdr_of-put_phdr off s off_lt k) loaded))
    ∙ (load_segments-afters file eh ss (i + 1) on (pre ++ header) post (front ++ s.contents) back
        (after s l) a b (omega (arith, c)) f ks
        (table ∙ sym (append_assoc pre header (headers ++ post)))
        (omega (arith, length-append pre header, length-put_phdr off s, m))
        (bytes ∙ sym (append_assoc front s.contents (contents ++ back)))
        (omega (arith, length-append front s.contents, o)))

afters-spanned :
    (ss : List Segment) (l : Loading)
    → afters ss l ≡ record {
      result = spanned (loadable ss) l.result;
      written = l.written ++ all_writes (loadable ss);
    }
unfolding afters after loadable spanned all_writes
afters-spanned [] l = rw (append-nil l.written) refl
afters-spanned (s ∷ ss) l = elim (Bool-cases (s.kind == 1)) [
  | inl y ↦ rw (y, afters-spanned ss, append_assoc) refl
  | inr n ↦ rw (n, afters-spanned ss) refl
]

do_load-load_segments :
    (file : List ℕ) (entry n : ℕ)
    → IsHeader entry n (ehdr_of file)
    → 52 + n * 32 ≤ length file
    → do_load file
      ≡ load_segments file (ehdr_of file) n 0 (record { result = fresh_result entry; written = [] })
unfolding do_load
do_load-load_segments file entry n h l =
    let first : ltb (length file) 52 ≡ false = ground arith in
    let second : ltb (length file) (52 + n * 32) ≡ false = ground arith in
    rw (first, h.valid, h.phoff, h.phentsize, h.phnum, h.entry_point, second) refl

abbrev pub IsProgram : ℕ → List Segment → Type 0
IsProgram entry ss =
    (entry < 2 ^ 32) × (length ss < 2 ^ 16) × (length (encode entry ss) < 2 ^ 32) × AllSegments ss

-- The loader, on the file that the reference writer makes of a program whose fields fit in their
-- words, returns with the program's entry point, asks for exactly the writes of its loadable
-- segments in order (each segment's bytes, then zeros up to its size in memory), and reports how
-- many there are and the range that they span.
pub do_load-encode :
    (entry : ℕ) (ss : List Segment)
    → IsProgram entry ss
    → do_load (encode entry ss) ≡ record {
      writes = all_writes (loadable ss);
      ending = returned (record {
        entry_point = entry;
        load_min = lowest (loadable ss);
        load_max = highest (loadable ss);
        segments_loaded = length (loadable ss);
      });
    }
unfolding encode
do_load-encode entry ss (e, c, f, k) =
    let n : ℕ = length ss in
    let first : List ℕ = put_ehdr entry n in
    let table : List ℕ = put_phdrs (52 + 32 * n) ss in
    let contents : List ℕ = put_contents ss in
    let file : List ℕ = encode entry ss in
    let fresh : Loading = record { result = fresh_result entry; written = [] } in
    let head : IsHeader entry n (ehdr_of file) =
      put_ehdr-IsHeader entry n (table ++ contents) e c in
    let long : length file ≡ 52 + (32 * n + length contents) = omega (
      arith,
      length-append first (table ++ contents),
      length-append table contents,
      length-put_ehdr entry n,
      length-put_phdrs (52 + 32 * n) ss,
    ) in
    do_load-load_segments file entry n head (omega (arith, long))
    ∙ load_segments-afters file (ehdr_of file) ss 0 (52 + 32 * n) first contents (first ++ table) []
        fresh head.phoff head.phentsize (omega (arith, c)) f k refl (length-put_ehdr entry n)
        (rw (append-nil contents, append_assoc) refl)
        (omega (
          arith,
          length-append first table,
          length-put_ehdr entry n,
          length-put_phdrs (52 + 32 * n) ss,
        ))
    ∙ ap (λ d. record { writes = d.written; ending = returned d.result }) (afters-spanned ss fresh)
    ∙ ap (λ r. record { writes = all_writes (loadable ss); ending = returned r })
        (spanned-report (loadable ss) entry (loadable-AllSegments ss k))
