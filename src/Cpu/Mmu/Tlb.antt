-- ===== src/Cpu/Mmu/Tlb.antt =====
-- The translation look-aside buffer: `TLBEntry` and the uses of `tlb_`. A map is a list of keys with
-- their entries. Which entry `tlb_.begin()` is, the standard library leaves open: `victim`.
use virtual_so_c.Prelude.{
  ℕ, List, [], ◌∷◌, Bool, Option, none, some, ◌==◌, leb, length, if◌then◌else◌,
}

pub record TlbEntry : Type 0 where
  pub ppn : ℕ
  pub pte_flags : ℕ
  pub is_superpage : Bool

abbrev pub Tlb : Type 0
Tlb = List (ℕ × TlbEntry)

abbrev pub tlb_size : ℕ
tlb_size = 64

unfoldable pub find : ℕ → Tlb → Option TlbEntry
find k [] = none
find k ((j, e) ∷ t) = if j == k then some e else find k t

unfoldable pub erase : ℕ → Tlb → Tlb
erase k [] = []
erase k ((j, e) ∷ t) = let rest = erase k t in if j == k then rest else (j, e) ∷ rest

-- `tlb_[k] = e`.
unfoldable pub assign : ℕ → TlbEntry → Tlb → Tlb
unfolding erase
assign k e t = (k, e) ∷ erase k t

-- The eviction and the assignment at the end of `walk`.
unfoldable pub remember : (Tlb → ℕ) → ℕ → TlbEntry → Tlb → Tlb
remember victim k e t = assign k e (if leb tlb_size (length t) then erase (victim t) t else t)
