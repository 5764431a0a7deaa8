-- ===== src/Video/Palette.antt =====
-- Palettes and colour maps: src/video/palette.h and src/video/palette.cpp, for indices that are not
-- negative. The bytes behind a pointer are a function of the offset.
use virtual_so_c.Prelude.{
  ℕ, zero, suc, ◌+◌, ◌*◌, ◌<◌, List, [], ◌∷◌, some, get_elem?, ◌≡◌, arith, ap, ◌∙◌,
}

pub record Rgb : Type 0 where
  pub r : ℕ
  pub g : ℕ
  pub b : ℕ

-- An entry of the table.
abbrev pub entry : (ℕ → ℕ) → ℕ → ℕ → Rgb
entry mem palette_index i = record {
  r = mem (palette_index * 768 + (i * 3 + 0));
  g = mem (palette_index * 768 + (i * 3 + 1));
  b = mem (palette_index * 768 + (i * 3 + 2));
}

-- The loop, from `i` on, with `left` entries to go.
unfoldable pub entries : (ℕ → ℕ) → ℕ → ℕ → ℕ → List Rgb
entries mem palette_index i zero = []
entries mem palette_index i (suc left) =
    entry mem palette_index i ∷ entries mem palette_index (i + 1) left

unfoldable pub load_playpal : (ℕ → ℕ) → ℕ → List Rgb
load_playpal mem palette_index = entries mem palette_index 0 256

unfoldable pub apply_colormap : (ℕ → ℕ) → ℕ → ℕ → ℕ
apply_colormap colormap_data map_index pixel = colormap_data (map_index * 256 + pixel)

entries-get_elem? :
    (mem : ℕ → ℕ) (palette_index i left k : ℕ)
    → k < left
    → get_elem? (entries mem palette_index i left) k ≡ some (entry mem palette_index (i + k))
unfolding entries
entries-get_elem? mem p i zero k h = absurd (omega arith)
entries-get_elem? mem p i (suc left) zero h = ap (λ n. some (entry mem p n)) (omega arith)
entries-get_elem? mem p i (suc left) (suc k) h =
    entries-get_elem? mem p (i + 1) left k (omega arith)
    ∙ ap (λ n. some (entry mem p n)) (omega arith)

-- The entry of each of the 256 colours.
pub load_playpal-entry :
    (mem : ℕ → ℕ) (palette_index k : ℕ)
    → k < 256
    → get_elem? (load_playpal mem palette_index) k ≡ some (entry mem palette_index k)
unfolding load_playpal
load_playpal-entry mem p k h =
    entries-get_elem? mem p 0 256 k h ∙ ap (λ n. some (entry mem p n)) (omega arith)
