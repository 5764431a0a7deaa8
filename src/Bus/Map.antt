-- ===== src/Bus/Map.antt =====
-- The address map: `MappedRange`, `map` and `decode` of src/bus/tlm_bus.cpp. `SC_REPORT_FATAL`,
-- which ends the simulation, is `none`.
use virtual_so_c.Prelude.{
  ℕ, ◌+◌, List, [], ◌∷◌, ◌++◌, Bool, false, Option, none, some, ltb, leb, ◌&&◌, ◌||◌, if◌then◌else◌,
  u32,
}

pub record MappedRange : Type 0 where
  pub base : ℕ
  pub size : ℕ
  pub target_idx : ℕ

pub record TlmBus : Type 0 where
  pub ranges : List MappedRange
  pub next_target_idx : ℕ

abbrev pub unmapped : TlmBus
unmapped = record { ranges = []; next_target_idx = 0 }

-- The test of the loop in `map`, and the loop.
abbrev pub overlaps : ℕ → ℕ → MappedRange → Bool
overlaps base end r = ltb base (u32 (r.base + r.size)) && ltb r.base end

unfoldable pub any_overlap : ℕ → ℕ → List MappedRange → Bool
any_overlap base end [] = false
any_overlap base end (r ∷ rs) = overlaps base end r || any_overlap base end rs

-- `std::sort` by `base`.
unfoldable pub insert : MappedRange → List MappedRange → List MappedRange
insert r [] = r ∷ []
insert r (x ∷ xs) = let rest = insert r xs in if ltb r.base x.base then r ∷ x ∷ xs else x ∷ rest

unfoldable pub sort : List MappedRange → List MappedRange
sort [] = []
sort (r ∷ rs) = insert r (sort rs)

unfoldable pub map_range : ℕ → ℕ → TlmBus → Option TlmBus
map_range base size b =
    let r : MappedRange = record { base = base; size = size; target_idx = b.next_target_idx } in
    if any_overlap base (u32 (base + size)) b.ranges
    then none
    else some (record {
      ranges = sort (b.ranges ++ r ∷ []);
      next_target_idx = u32 (b.next_target_idx + 1);
    })

abbrev pub covers : MappedRange → ℕ → Bool
covers r addr = leb r.base addr && ltb addr (u32 (r.base + r.size))

-- The range of the index that `decode` returns, and -1 as `none`.
unfoldable pub decode : List MappedRange → ℕ → Option MappedRange
decode [] addr = none
decode (r ∷ rs) addr = let rest = decode rs addr in if covers r addr then some r else rest

-- A sequence of calls of `map`, with the base and the size of each.
unfoldable pub map_all : List (ℕ × ℕ) → TlmBus → Option TlmBus
map_all [] b = some b
map_all ((base, size) ∷ es) b = elim (map_range base size b) [ none ↦ none | some c ↦ map_all es c ]
