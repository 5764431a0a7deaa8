-- ===== src/Elf/Writes.antt =====
-- What loading a program of the reference writer asks for, and the range that it spans.
use virtual_so_c.Prelude.{
  ℕ, zero, suc, ◌+◌, ◌-◌, ◌^◌, ◌<◌, List, [], ◌∷◌, ◌++◌, ◌==◌, ltb, if◌then◌else◌, u32, length,
  replicate, ◌≡◌, arith, ◌∙◌, inl, inr, Bool-cases,
}
use Prim.Native.Nat.{min, max}
use virtual_so_c.Elf.Loader.{ElfLoadResult, fresh_result, Write, extend}
use virtual_so_c.Elf.Encode.{Segment, IsSegment, phdr_for}

-- The writes that a loaded segment asks for.
unfoldable pub data_writes : ℕ → List ℕ → List Write
data_writes at [] = []
data_writes at (b ∷ bs) = record { paddr = at; bytes = b ∷ bs } ∷ []

unfoldable pub bss_writes : ℕ → ℕ → List Write
bss_writes at zero = []
bss_writes at (suc n) = record { paddr = at; bytes = replicate (suc n) 0 } ∷ []

unfoldable pub segment_writes : Segment → List Write
segment_writes s =
    data_writes s.paddr s.contents
    ++ bss_writes (s.paddr + length s.contents) (s.memsz - length s.contents)

-- The segments of kind PT_LOAD.
unfoldable pub loadable : List Segment → List Segment
loadable [] = []
loadable (s ∷ ss) = let rest = loadable ss in if s.kind == 1 then s ∷ rest else rest

unfoldable pub all_writes : List Segment → List Write
all_writes [] = []
all_writes (s ∷ ss) = segment_writes s ++ all_writes ss

-- The lowest address and the highest end; of no segments, the limits of the address space.
unfoldable pub lowest : List Segment → ℕ
lowest [] = 2 ^ 32 - 1
lowest (s ∷ ss) = min s.paddr (lowest ss)

unfoldable pub highest : List Segment → ℕ
highest [] = 0
highest (s ∷ ss) = max (s.paddr + s.memsz) (highest ss)

-- The range that they take up, from what it is before them.
unfoldable pub spanned : List Segment → ElfLoadResult → ElfLoadResult
spanned [] r = r
spanned (s ∷ ss) r = spanned ss (extend (phdr_for 0 s) r)

unfoldable pub AllSegments : List Segment → Type 0
AllSegments [] = Unit
AllSegments (s ∷ ss) = IsSegment s × AllSegments ss

pub loadable-AllSegments : (ss : List Segment) → AllSegments ss → AllSegments (loadable ss)
unfolding loadable AllSegments
loadable-AllSegments [] k = tt
loadable-AllSegments (s ∷ ss) (k, ks) = elim (Bool-cases (s.kind == 1)) [
  | inl y ↦ rw y (k, loadable-AllSegments ss ks)
  | inr n ↦ rw n (loadable-AllSegments ss ks)
]

spanned-extends :
    (ss : List Segment) (r : ElfLoadResult)
    → r.load_min < 2 ^ 32
    → AllSegments ss
    → spanned ss r ≡ record {
      entry_point = r.entry_point;
      load_min = min (lowest ss) r.load_min;
      load_max = max (highest ss) r.load_max;
      segments_loaded = r.segments_loaded + length ss;
    }
unfolding spanned extend AllSegments lowest highest
spanned-extends [] r m k = λ i. record {
  entry_point = r.entry_point;
  load_min = bound i;
  load_max = least i;
  segments_loaded = sum i;
}
  where
    least : r.load_max ≡ max 0 r.load_max
    least = ground arith

    bound : r.load_min ≡ min (2 ^ 32 - 1) r.load_min
    bound = ground (arith, m)

    sum : r.segments_loaded ≡ r.segments_loaded + 0
    sum = omega arith
spanned-extends (s ∷ ss) r m (k, ks) =
    let end : ℕ = s.paddr + s.memsz in
    let wraps : u32 end ≡ end = omega (arith, k.end_lt) in
    let low : ℕ = if ltb s.paddr r.load_min then s.paddr else r.load_min in
    let high : ℕ = if ltb r.load_max (u32 end) then u32 end else r.load_max in
    let least : min (lowest ss) low ≡ min (min s.paddr (lowest ss)) r.load_min = ground arith in
    let most : max (highest ss) high ≡ max (max end (highest ss)) r.load_max =
      rw wraps (ground arith) in
    let count : r.segments_loaded + 1 + length ss ≡ r.segments_loaded + suc (length ss) =
      omega arith in
    spanned-extends ss (extend (phdr_for 0 s) r) (ground (arith, m)) ks ∙ (λ i. record {
      entry_point = r.entry_point;
      load_min = least i;
      load_max = most i;
      segments_loaded = count i;
    })

lowest-lt : (ss : List Segment) → lowest ss < 2 ^ 32
unfolding lowest
lowest-lt [] = omega arith
lowest-lt (s ∷ ss) = ground (arith, lowest-lt ss)

pub spanned-report :
    (ss : List Segment) (entry : ℕ)
    → AllSegments ss
    → spanned ss (fresh_result entry) ≡ record {
      entry_point = entry;
      load_min = lowest ss;
      load_max = highest ss;
      segments_loaded = length ss;
    }
spanned-report ss entry k =
    let low : min (lowest ss) (2 ^ 32 - 1) ≡ lowest ss = ground (arith, lowest-lt ss) in
    let high : max (highest ss) 0 ≡ highest ss = ground arith in
    let count : 0 + length ss ≡ length ss = omega arith in
    spanned-extends ss (fresh_result entry) (omega arith) k ∙ (λ i. record {
      entry_point = entry;
      load_min = low i;
      load_max = high i;
      segments_loaded = count i;
    })
