-- ===== src/Platform/Loaded.antt =====
-- What the RAM holds after a program has been loaded into the platform.
use virtual_so_c.Prelude.{
  ℕ, zero, suc, ◌+◌, ◌-◌, ◌≤◌, List, [], ◌∷◌, ◌++◌, true, some, leb, ◌&&◌, length, replicate,
  length-append, ◌≡◌, refl, sym, ap, ◌∙◌, arith, ◌⊎◌,
}
use virtual_so_c.Mem.Ram.{put, fetch, length-put, fetch-put}
use virtual_so_c.Mem.Blocks.{put-none, put-append, fetch-put_apart}
use virtual_so_c.Elf.Loader.{ElfLoadResult, Write, returned, do_load, load_elf}
use virtual_so_c.Elf.Encode.{Segment, IsSegment, encode}
use virtual_so_c.Elf.Writes.{
  data_writes, bss_writes, segment_writes, loadable, all_writes, lowest, highest, AllSegments,
  loadable-AllSegments,
}
use virtual_so_c.Elf.RoundTrip.{IsProgram, do_load-encode}
use virtual_so_c.Platform.MemoryMap.{ram_base, ram_size}
use virtual_so_c.Platform.Boot.{Board, place, place_all, booted, boot}

-- A segment's bytes in memory, zeros included, and where they go in the RAM.
unfoldable pub image : Segment → List ℕ
image s = s.contents ++ replicate (s.memsz - length s.contents) 0

abbrev pub offset : Segment → ℕ
offset s = s.paddr - ram_base

-- A segment inside a RAM of `size` bytes.
pub record IsInRam (size : ℕ) (s : Segment) : Type 0 where
  pub first : ram_base ≤ s.paddr
  pub last : s.paddr + s.memsz ≤ ram_base + size

unfoldable pub AllInRam : ℕ → List Segment → Type 0
AllInRam size [] = Unit
AllInRam size (s ∷ ss) = IsInRam size s × AllInRam size ss

unfoldable pub put_images : List Segment → List ℕ → List ℕ
put_images [] mem = mem
put_images (s ∷ ss) mem = put_images ss (put mem (offset s) (image s))

length-replicate : (n : ℕ) → length {A = ℕ} (replicate n 0) ≡ n
length-replicate zero = refl
length-replicate (suc n) = ap suc (length-replicate n)

place_all-append :
    (ws vs : List Write) (b : Board) → place_all (ws ++ vs) b ≡ place_all vs (place_all ws b)
unfolding place_all
place_all-append [] vs b = refl
place_all-append (w ∷ ws) vs b = place_all-append ws vs (place w b)

place-put :
    (at : ℕ) (bs : List ℕ) (b : Board)
    → ram_base ≤ at
    → at + length bs ≤ ram_base + ram_size
    → place (record { paddr = at; bytes = bs }) b ≡ record b { ram = put b.ram (at - ram_base) bs }
unfolding place
place-put at bs b f l =
    let inside : (leb ram_base at && leb (at + length bs) (ram_base + ram_size)) ≡ true =
      ground arith in
    rw inside refl

place_all-data_writes :
    (at : ℕ) (bs : List ℕ) (b : Board)
    → ram_base ≤ at
    → at + length bs ≤ ram_base + ram_size
    → place_all (data_writes at bs) b ≡ record b { ram = put b.ram (at - ram_base) bs }
unfolding place_all data_writes
place_all-data_writes at [] b f l = λ i. record b { ram = sym (put-none b.ram (at - ram_base)) i }
place_all-data_writes at (x ∷ xs) b f l = place-put at (x ∷ xs) b f l

place_all-bss_writes :
    (at n : ℕ) (b : Board)
    → ram_base ≤ at
    → at + n ≤ ram_base + ram_size
    → place_all (bss_writes at n) b ≡ record b { ram = put b.ram (at - ram_base) (replicate n 0) }
unfolding place_all bss_writes
place_all-bss_writes at zero b f l = λ i. record b { ram = sym (put-none b.ram (at - ram_base)) i }
place_all-bss_writes at (suc n) b f l =
    place-put at (replicate (suc n) 0) b f (omega (arith, l, length-replicate (suc n)))

place_all-segment :
    (s : Segment) (b : Board) (size : ℕ)
    → IsSegment s
    → IsInRam size s
    → size ≤ ram_size
    → place_all (segment_writes s) b ≡ record b { ram = put b.ram (offset s) (image s) }
unfolding segment_writes image
place_all-segment s b size k r z =
    let n : ℕ = length s.contents in
    let zeros : List ℕ = replicate (s.memsz - n) 0 in
    let filled : Board = record b { ram = put b.ram (offset s) s.contents } in
    let here : s.paddr + n - ram_base ≡ offset s + n = omega (arith, r.first) in
    place_all-append (data_writes s.paddr s.contents) (bss_writes (s.paddr + n) (s.memsz - n)) b
    ∙ ap (place_all (bss_writes (s.paddr + n) (s.memsz - n))) (
        place_all-data_writes s.paddr s.contents b r.first
          (omega (arith, k.contents-le, r.last, z)))
    ∙ place_all-bss_writes (s.paddr + n) (s.memsz - n) filled (omega (arith, r.first))
        (omega (arith, k.contents-le, r.last, z))
    ∙ ap (λ m. record b { ram = m })
        (ap (λ at. put (put b.ram (offset s) s.contents) at zeros) here
          ∙ put-append b.ram (offset s) s.contents zeros)

place_all-put_images :
    (ss : List Segment) (b : Board) (size : ℕ)
    → AllSegments ss
    → AllInRam size ss
    → size ≤ ram_size
    → place_all (all_writes ss) b ≡ record b { ram = put_images ss b.ram }
unfolding all_writes put_images AllSegments AllInRam place_all
place_all-put_images [] b size k r z = refl
place_all-put_images (s ∷ ss) b size (k, ks) (r, rs) z =
    place_all-append (segment_writes s) (all_writes ss) b
    ∙ ap (place_all (all_writes ss)) (place_all-segment s b size k r z)
    ∙ place_all-put_images ss (record b { ram = put b.ram (offset s) (image s) }) size ks rs z

-- Ranges of the RAM that do not meet.
abbrev pub Outside : ℕ → ℕ → Segment → Type 0
Outside a n s = (a + n ≤ offset s) ⊎ (offset s + s.memsz ≤ a)

unfoldable pub OutsideAll : ℕ → ℕ → List Segment → Type 0
OutsideAll a n [] = Unit
OutsideAll a n (s ∷ ss) = Outside a n s × OutsideAll a n ss

unfoldable pub AllApart : List Segment → Type 0
AllApart [] = Unit
AllApart (s ∷ ss) = OutsideAll (offset s) s.memsz ss × AllApart ss

-- The RAM holds each segment.
unfoldable pub AllHeld : List Segment → List ℕ → Type 0
AllHeld [] mem = Unit
AllHeld (s ∷ ss) mem = (fetch mem (offset s) s.memsz ≡ image s) × AllHeld ss mem

length-image : (s : Segment) → IsSegment s → length (image s) ≡ s.memsz
unfolding image
length-image s k = omega (
  arith,
  length-append s.contents (replicate (s.memsz - length s.contents) 0),
  length-replicate (s.memsz - length s.contents),
  k.contents-le,
)

length-put_images : (ss : List Segment) (mem : List ℕ) → length (put_images ss mem) ≡ length mem
unfolding put_images
length-put_images [] mem = refl
length-put_images (s ∷ ss) mem =
    length-put_images ss (put mem (offset s) (image s)) ∙ length-put mem (offset s) (image s)

put_images-kept :
    (ss : List Segment) (mem : List ℕ) (a n : ℕ)
    → AllSegments ss
    → OutsideAll a n ss
    → fetch (put_images ss mem) a n ≡ fetch mem a n
unfolding put_images OutsideAll AllSegments
put_images-kept [] mem a n k o = refl
put_images-kept (s ∷ ss) mem a n (k, ks) (o, os) =
    put_images-kept ss (put mem (offset s) (image s)) a n ks os
    ∙ fetch-put_apart mem (offset s) a n (image s) (rw (length-image s k) o)

put_images-AllHeld :
    (ss : List Segment) (mem : List ℕ)
    → AllSegments ss
    → AllInRam (length mem) ss
    → AllApart ss
    → AllHeld ss (put_images ss mem)
unfolding put_images AllHeld AllSegments AllInRam AllApart
put_images-AllHeld [] mem k r a = tt
put_images-AllHeld (s ∷ ss) mem (k, ks) (r, rs) (a, apart) =
    let placed : List ℕ = put mem (offset s) (image s) in
    let size : length (image s) ≡ s.memsz = length-image s k in
    let held : fetch placed (offset s) s.memsz ≡ image s =
      ap (fetch placed (offset s)) (sym size)
      ∙ fetch-put mem (offset s) (image s) (omega (arith, size, r.first, r.last)) in
    (
      put_images-kept ss placed (offset s) s.memsz ks a ∙ held,
      put_images-AllHeld ss placed ks (rw (length-put mem (offset s) (image s)) rs) apart,
    )

boot-returned :
    (file : List ℕ) (ws : List Write) (r : ElfLoadResult) (b : Board)
    → do_load file ≡ record { writes = ws; ending = returned r }
    → boot (some file) b ≡ some (record { board = place_all ws b; pc = r.entry_point })
unfolding booted load_elf
boot-returned file ws r b h = ap (λ l. booted l b) h

-- Loading the file that the reference writer makes of a program whose loadable segments lie in
-- the RAM and do not meet always succeeds: the core's pc is set to the entry point, the RAM holds
-- each loadable segment's bytes with zeros up to its size, any range that meets none of them is
-- as before, and so are the size of the RAM and the boot ROM.
pub boot-encode :
    (entry : ℕ) (ss : List Segment) (b : Board)
    → IsProgram entry ss
    → AllInRam (length b.ram) (loadable ss)
    → AllApart (loadable ss)
    → length b.ram ≤ ram_size
    → (mem : List ℕ) × (boot (some (encode entry ss)) b
        ≡ some (record { board = record b { ram = mem }; pc = entry }))
      × (length mem ≡ length b.ram)
      × AllHeld (loadable ss) mem
      × ((a n : ℕ) → OutsideAll a n (loadable ss) → fetch mem a n ≡ fetch b.ram a n)
boot-encode entry ss b p r a z =
    let parts : List Segment = loadable ss in
    let loaded : List Segment → ElfLoadResult = λ segs. record {
      entry_point = entry;
      load_min = lowest segs;
      load_max = highest segs;
      segments_loaded = length segs;
    } in
    let k : AllSegments parts = loadable-AllSegments ss p.3 in
    (
      put_images parts b.ram,
      boot-returned (encode entry ss) (all_writes parts) (loaded parts) b
            (do_load-encode entry ss p)
          ∙ ap (λ c. some (record { board = c; pc = entry }))
              (place_all-put_images parts b (length b.ram) k r z),
      length-put_images parts b.ram,
      put_images-AllHeld parts b.ram k r a,
      λ at n o. put_images-kept parts b.ram at n k o,
    )
