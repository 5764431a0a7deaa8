-- ===== src/Elf/Safety.antt =====
-- The loader of src/util/elf_loader.cpp stays inside the file's bytes.
use virtual_so_c.Prelude.{
  ℕ, zero, suc, ◌+◌, ◌*◌, ◌^◌, ◌≤◌, ◌<◌, List, [], ◌∷◌, ◌++◌, Bool, true, false, some, not, ◌==◌,
  ltb, u32, length, ◌≡◌, ◌⊎◌, refl, sym, ap, ◌∙◌, arith, inl, inr, Bool-cases, Option-cases, leb,
}
use mathlib.Core.Bool.{true≢false}
use native.Mathlib.Nat.{mul-le-mul_right}
use virtual_so_c.Mem.Ram.{fetch}
use virtual_so_c.Elf.Format.{Elf32Ehdr, Elf32Phdr, phdr_of, ehdr_of, file_bytes}
use virtual_so_c.Elf.Loader.{
  Write, Ending, returned, threw, overran, Loading, Pass, next, stop, validate_header, write_data,
  load_segment, pass, load_segments, do_load,
}

-- The header at index `i`, and its segment's end as a 32-bit sum.
abbrev pub header : List ℕ → Elf32Ehdr → ℕ → Elf32Phdr
header file eh i = phdr_of (fetch file (eh.e_phoff + i * eh.e_phentsize) 32)

-- Every entry of the table is as wide as a header, and no segment's end wraps in 32 bits.
pub record IsPlain (file : List ℕ) (eh : Elf32Ehdr) : Type 0 where
  pub wide : 32 ≤ eh.e_phentsize
  pub no_wrap :
      (i : ℕ) → i < eh.e_phnum → (header file eh i).p_offset + (header file eh i).p_filesz < 2 ^ 32

unfoldable pub is_overran : Ending → Bool
is_overran overran = true
is_overran (returned r) = false
is_overran (threw e) = false

unfoldable stops_inside : Pass → Bool
stops_inside (next l) = true
stops_inside (stop e) = not (is_overran e)

file_bytes-inside :
    (file : List ℕ) (at n : ℕ)
    → at + n ≤ length file
    → file_bytes file at n ≡ some (fetch file at n)
unfolding file_bytes
file_bytes-inside file at n h =
    let fits : ltb (length file) (at + n) ≡ false = ground arith in rw fits refl

row_inside : (i n w : ℕ) → i < n → 32 ≤ w → i * w + 32 ≤ n * w
row_inside i n w l h = let rows : suc i * w ≤ n * w = mul-le-mul_right w l in omega (arith, rows)

write_data-some :
    (file : List ℕ) (ph : Elf32Phdr) (ws : List Write)
    → ph.p_offset + ph.p_filesz ≤ length file
    → (vs : List Write) × (write_data file ph ws ≡ some vs)
unfolding write_data
write_data-some file ph ws h = elim (Bool-cases (ltb 0 ph.p_filesz)) [
  | inl y ↦ (
    ws ++ record { paddr = ph.p_paddr; bytes = fetch file ph.p_offset ph.p_filesz } ∷ [],
    rw (write_data, y, file_bytes-inside file ph.p_offset ph.p_filesz h) refl,
  )
  | inr n ↦ (ws, rw (write_data, n) refl)
]

load_segment-inside :
    (file : List ℕ) (ph : Elf32Phdr) (l : Loading)
    → ph.p_offset + ph.p_filesz < 2 ^ 32
    → stops_inside (load_segment file ph l) ≡ true
unfolding load_segment stops_inside is_overran
load_segment-inside file ph l w = elim (Bool-cases (ph.p_type == 1)) [
  | inr n ↦ rw n refl
  | inl y ↦ elim (Bool-cases (ltb (length file) (u32 (ph.p_offset + ph.p_filesz)))) [
    | inl big ↦ rw (y, big) refl
    | inr fits ↦
        (let (vs, e) = write_data-some file ph l.written (ground (arith, fits, w)) in
          rw (y, fits, e) refl)
  ]
]

pass-inside :
    (file : List ℕ) (eh : Elf32Ehdr) (i : ℕ) (l : Loading)
    → length file < 2 ^ 31
    → eh.e_phoff + i * eh.e_phentsize + 32 ≤ length file
    → (header file eh i).p_offset + (header file eh i).p_filesz < 2 ^ 32
    → stops_inside (pass file eh i l) ≡ true
unfolding pass
pass-inside file eh i l small row w =
    let int : leb (2 ^ 31) (i * eh.e_phentsize) ≡ false = ground arith in
    rw (pass, int, file_bytes-inside file (eh.e_phoff + i * eh.e_phentsize) 32 row)
      (load_segment-inside file (header file eh i) l w)

stop-inside : (e : Ending) → stops_inside (stop e) ≡ true → is_overran e ≡ false
unfolding stops_inside is_overran
stop-inside overran h = absurd (true≢false (sym h))
stop-inside (returned r) h = refl
stop-inside (threw e) h = refl

Pass-cases : (p : Pass) → ((l : Loading) × (p ≡ next l)) ⊎ ((e : Ending) × (p ≡ stop e))
Pass-cases (next l) = inl (l, refl)
Pass-cases (stop e) = inr (e, refl)

load_segments-inside :
    (file : List ℕ) (eh : Elf32Ehdr) (n i : ℕ) (l : Loading)
    → length file < 2 ^ 31
    → i + n ≡ eh.e_phnum
    → eh.e_phoff + eh.e_phnum * eh.e_phentsize ≤ length file
    → IsPlain file eh
    → is_overran (load_segments file eh n i l).ending ≡ false
unfolding load_segments is_overran
load_segments-inside file eh zero i l small c t p = refl
load_segments-inside file eh (suc n) i l small c t p =
    let here : i < eh.e_phnum = omega (arith, c) in
    let row : eh.e_phoff + i * eh.e_phentsize + 32 ≤ length file =
      omega (arith, t, row_inside i eh.e_phnum eh.e_phentsize here p.wide) in
    let k : stops_inside (pass file eh i l) ≡ true =
      pass-inside file eh i l small row (p.no_wrap i here) in
    elim (Pass-cases (pass file eh i l)) [
      | inl (l', e) ↦
          rw (load_segments, e)
            (load_segments-inside file eh n (i + 1) l' small (omega (arith, c)) t p)
      | inr (s, e) ↦ rw (load_segments, e) (stop-inside s (sym (ap stops_inside e) ∙ k))
    ]

-- Whatever the bytes of a file below 2 GiB are, if the header that they start with makes the
-- entries of the table at least as wide as a program header and no segment's end wraps in 32
-- bits, then loading never reads past the end of the file and the offset of an entry never
-- overflows: it returns or throws.
pub do_load-inside :
    (file : List ℕ)
    → length file < 2 ^ 31
    → IsPlain file (ehdr_of file)
    → is_overran (do_load file).ending ≡ false
unfolding do_load is_overran
do_load-inside file small p =
    let eh : Elf32Ehdr = ehdr_of file in
    elim (Bool-cases (ltb (length file) 52)) [
      | inl y ↦ rw y refl
      | inr n ↦ rw n (elim (Option-cases (validate_header eh)) [
        | inr (e, h) ↦ rw h refl
        | inl h ↦
            rw h (elim (Bool-cases (ltb (length file) (eh.e_phoff + eh.e_phnum * eh.e_phentsize))) [
              | inl big ↦ rw big refl
              | inr fits ↦ rw fits (
                  load_segments-inside file eh eh.e_phnum 0 _ small (omega arith)
                    (ground (arith, fits)) p)
            ])
      ])
    ]
