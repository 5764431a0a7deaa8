-- ===== src/Bus/Routes.antt =====
-- Where the bus sends an address, against the sequence of calls of `map` that set it up.
use virtual_so_c.Prelude.{
  ℕ, ◌+◌, List, [], ◌∷◌, ◌++◌, Bool, true, false, Option, none, some, ltb, if◌then◌else◌, u32, ◌≡◌,
  refl, arith, ap, ◌∙◌, sym, inl, inr, Bool-cases, Option-cases,
}
use mathlib.Core.Bool.{true≢false}
use mathlib.Core.Option.{some-injective, some-ne-none}
use virtual_so_c.Bus.Map.{
  MappedRange, TlmBus, overlaps, any_overlap, insert, sort, map_range, map_all, covers, decode,
}

-- A range that holds no address of the others.
abbrev Clear : MappedRange → List MappedRange → Type 0
Clear r rs = (addr : ℕ) → covers r addr ≡ true → decode rs addr ≡ none

-- The ranges are disjoint.
abbrev pub Apart : List MappedRange → Type 0
Apart [] = Unit {0}
Apart (r ∷ rs) = Clear r rs × Apart rs

covers-overlaps :
    (r x : MappedRange) (addr : ℕ)
    → covers r addr ≡ true
    → covers x addr ≡ true
    → overlaps r.base (u32 (r.base + r.size)) x ≡ true
covers-overlaps r x addr h k = ground arith

decode-here :
    (x : MappedRange) (xs : List MappedRange) (addr : ℕ)
    → covers x addr ≡ true
    → decode (x ∷ xs) addr ≡ some x
unfolding decode
decode-here x xs addr y = rw y refl

decode-there :
    (x : MappedRange) (xs : List MappedRange) (addr : ℕ)
    → covers x addr ≡ false
    → decode (x ∷ xs) addr ≡ decode xs addr
unfolding decode
decode-there x xs addr n = rw n refl

decode-miss :
    (x : MappedRange) (xs : List MappedRange) (addr : ℕ)
    → decode (x ∷ xs) addr ≡ none
    → (covers x addr ≡ false) × (decode xs addr ≡ none)
decode-miss x xs addr h = elim (Bool-cases (covers x addr)) [
  | inl y ↦ absurd (some-ne-none x (sym (decode-here x xs addr y) ∙ h))
  | inr n ↦ (n, sym (decode-there x xs addr n) ∙ h)
]

Clear-tail : (r x : MappedRange) (xs : List MappedRange) → Clear r (x ∷ xs) → Clear r xs
Clear-tail r x xs h addr c = (decode-miss x xs addr (h addr c)).1

any_overlap-Clear :
    (r : MappedRange) (rs : List MappedRange)
    → any_overlap r.base (u32 (r.base + r.size)) rs ≡ false
    → Clear r rs
unfolding any_overlap decode
any_overlap-Clear r [] h addr c = refl
any_overlap-Clear r (x ∷ xs) h addr c =
    let here : overlaps r.base (u32 (r.base + r.size)) x ≡ false = ground (arith, h) in
    let rest : any_overlap r.base (u32 (r.base + r.size)) xs ≡ false = ground (arith, h) in
    elim (Bool-cases (covers x addr)) [
      | inl y ↦ absurd (true≢false (sym (covers-overlaps r x addr c y) ∙ here))
      | inr n ↦ decode-there x xs addr n ∙ any_overlap-Clear r xs rest addr c
    ]

decode-insert :
    (r : MappedRange) (rs : List MappedRange) (addr : ℕ)
    → Clear r rs
    → decode (insert r rs) addr ≡ (if covers r addr then some r else decode rs addr)
unfolding insert decode
decode-insert r [] addr h = refl
decode-insert r (x ∷ xs) addr h =
    let rest : decode (insert r xs) addr ≡ (if covers r addr then some r else decode xs addr) =
      decode-insert r xs addr (Clear-tail r x xs h) in
    elim (Bool-cases (ltb r.base x.base)) [
      | inl y ↦ rw y refl
      | inr n ↦ rw n (elim (Bool-cases (covers r addr)) [
        | inl y ↦
            decode-there x (insert r xs) addr (decode-miss x xs addr (h addr y)).0
            ∙ rest
            ∙ rw y refl
        | inr m ↦ rw (rest, m) refl
      ])
    ]

insert-Apart :
    (r : MappedRange) (rs : List MappedRange) → Clear r rs → Apart rs → Apart (insert r rs)
unfolding insert
insert-Apart r [] h a = (h, tt)
insert-Apart r (x ∷ xs) h a = elim (Bool-cases (ltb r.base x.base)) [
  | inl y ↦ rw y (h, a)
  | inr n ↦ rw n (
    λ addr c. elim (Bool-cases (covers r addr)) [
      | inl y ↦ absurd (true≢false (sym c ∙ (decode-miss x xs addr (h addr y)).0))
      | inr m ↦ decode-insert r xs addr (Clear-tail r x xs h) ∙ rw m (a.0 addr c)
    ],
    insert-Apart r xs (Clear-tail r x xs h) a.1,
  )
]

-- Sorting disjoint ranges does not move an address.
decode-sort :
    (rs : List MappedRange) → Apart rs → (addr : ℕ) → decode (sort rs) addr ≡ decode rs addr
unfolding sort decode
decode-sort [] a addr = refl
decode-sort (r ∷ rs) a addr =
    let rest : (x : ℕ) → decode (sort rs) x ≡ decode rs x = decode-sort rs a.1 in
    decode-insert r (sort rs) addr (λ x c. rest x ∙ a.0 x c)
    ∙ ap (λ d. if covers r addr then some r else d) (rest addr)

sort-Apart : (rs : List MappedRange) → Apart rs → Apart (sort rs)
unfolding sort
sort-Apart [] a = tt
sort-Apart (r ∷ rs) a =
    insert-Apart r (sort rs) (λ x c. decode-sort rs a.1 x ∙ a.0 x c) (sort-Apart rs a.1)

-- What is looked up in two lists of ranges in turn.
abbrev or_else : Option MappedRange → Option MappedRange → Option MappedRange
or_else none d = d
or_else (some r) d = some r

or_none : (x : Option MappedRange) → x ≡ or_else x none
or_none none = refl
or_none (some r) = refl

decode-append :
    (rs qs : List MappedRange) (addr : ℕ)
    → decode (rs ++ qs) addr ≡ or_else (decode rs addr) (decode qs addr)
unfolding decode
decode-append [] qs addr = refl
decode-append (r ∷ rs) qs addr = elim (Bool-cases (covers r addr)) [
  | inl y ↦ rw y refl
  | inr n ↦ rw n (decode-append rs qs addr)
]

append-Apart :
    (rs : List MappedRange) (r : MappedRange) → Apart rs → Clear r rs → Apart (rs ++ r ∷ [])
unfolding decode
append-Apart [] r a h = (λ addr c. refl, tt)
append-Apart (x ∷ xs) r a h = (
  λ addr c. elim (Bool-cases (covers r addr)) [
    | inl y ↦ absurd (true≢false (sym c ∙ (decode-miss x xs addr (h addr y)).0))
    | inr m ↦ decode-append xs (r ∷ []) addr ∙ rw (a.0 addr c, m) refl
  ],
  append-Apart xs r a.1 (Clear-tail r x xs h),
)

-- A call of `map` that succeeds adds its range and leaves the others where they were.
new_range : ℕ → ℕ → TlmBus → MappedRange
new_range base size b = record { base = base; size = size; target_idx = b.next_target_idx }

mapped-cases :
    (base size : ℕ) (b c : TlmBus)
    → map_range base size b ≡ some c
    → (any_overlap base (u32 (base + size)) b.ranges ≡ false)
      × (record {
        ranges = sort (b.ranges ++ new_range base size b ∷ []);
        next_target_idx = u32 (b.next_target_idx + 1);
      }
          ≡ c)
unfolding map_range new_range
mapped-cases base size b c h = elim (Bool-cases (any_overlap base (u32 (base + size)) b.ranges)) [
  | inl y ↦ absurd (some-ne-none c (sym h ∙ rw y refl))
  | inr n ↦ (n, some-injective _ c (rw n at h))
]

mapped-Apart :
    (base size : ℕ) (b c : TlmBus)
    → Apart b.ranges
    → map_range base size b ≡ some c
    → Apart c.ranges
      × (c.next_target_idx ≡ u32 (b.next_target_idx + 1))
      × ((addr : ℕ)
          → decode c.ranges addr
            ≡ or_else (decode b.ranges addr) (decode (new_range base size b ∷ []) addr))
unfolding new_range
mapped-Apart base size b c a h =
    let r : MappedRange = new_range base size b in
    let (clear, same) = mapped-cases base size b c h in
    let free : Clear r b.ranges = any_overlap-Clear r b.ranges clear in
    let all : Apart (b.ranges ++ r ∷ []) = append-Apart b.ranges r a free in
    rw (← same) (
      sort-Apart (b.ranges ++ r ∷ []) all,
      refl,
      λ addr. decode-sort (b.ranges ++ r ∷ []) all addr ∙ decode-append b.ranges (r ∷ []) addr,
    )

-- The range for an address in a sequence of calls, the first call for target `i`.
unfoldable pub assigned : List (ℕ × ℕ) → ℕ → ℕ → Option MappedRange
assigned [] i addr = none
assigned ((base, size) ∷ es) i addr =
    let r : MappedRange = record { base = base; size = size; target_idx = i } in
    let rest = assigned es (u32 (i + 1)) addr in if covers r addr then some r else rest

or_else_assoc :
    (x : Option MappedRange) (c : Bool) (r : MappedRange) (y : Option MappedRange)
    → or_else (or_else x (if c then some r else none)) y ≡ or_else x (if c then some r else y)
or_else_assoc none true r y = refl
or_else_assoc none false r y = refl
or_else_assoc (some q) c r y = refl

pub decode-map_all :
    (es : List (ℕ × ℕ)) (b c : TlmBus)
    → Apart b.ranges
    → map_all es b ≡ some c
    → Apart c.ranges
      × ((addr : ℕ)
          → decode c.ranges addr
            ≡ or_else (decode b.ranges addr) (assigned es b.next_target_idx addr))
unfolding map_all assigned decode new_range
decode-map_all [] b c a h = rw (← some-injective b c h) (a, λ addr. or_none (decode b.ranges addr))
decode-map_all ((base, size) ∷ es) b c a h = elim (Option-cases (map_range base size b)) [
  | inl e ↦ absurd (some-ne-none c (sym h ∙ rw (map_all, e) refl))
  | inr (d, e) ↦
      (let (apart, next, found) = mapped-Apart base size b d a e in
        let (all, each) = decode-map_all es d c apart (rw (map_all, e) at h) in
        (
          all,
          λ addr.
              each addr
              ∙ rw (found addr, next)
                  (or_else_assoc (decode b.ranges addr) (covers (new_range base size b) addr)
                    (new_range base size b) (assigned es (u32 (b.next_target_idx + 1)) addr)),
        ))
]
