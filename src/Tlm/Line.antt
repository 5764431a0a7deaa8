-- ===== src/Tlm/Line.antt =====
-- The interrupt line of a device: the argument of the last call of its callback `on_irq`.
use virtual_so_c.Prelude.{List, [], ◌∷◌, Bool, ◌≡◌, refl, ◌⊎◌, inl, inr}

unfoldable pub latest : Bool → List Bool → Bool
latest v [] = v
latest v (e ∷ es) = latest e es

module _ {S R : Type 0} (level : S → Bool) (step : R → S → S × List Bool) where
  -- From `s` to `t` with the calls `es`: either the line's level is the same, or the new one is
  -- reported.
  abbrev pub Follows : S → S → List Bool → Type 0
  Follows s t es = ((es ≡ []) × (level t ≡ level s)) ⊎ (es ≡ level t ∷ [])

  -- The device and its line after a sequence of requests.
  unfoldable pub watch : List R → S → Bool → S × Bool
  watch [] s line = (s, line)
  watch (r ∷ rs) s line = watch rs (step r s).0 (latest line (step r s).1)

  latest-Follows : (s t : S) (es : List Bool) → Follows s t es → latest (level s) es ≡ level t
  unfolding latest
  latest-Follows s t es (inl (e, k)) = rw (e, k) refl
  latest-Follows s t es (inr e) = rw e refl

  -- A line that follows every step is at the device's level after any sequence of them.
  pub watch-level :
      ((r : R) (s : S) → Follows s (step r s).0 (step r s).1)
      → (rs : List R) (s : S) (line : Bool) → line ≡ level s
      → (watch rs s line).1 ≡ level (watch rs s line).0
  unfolding watch
  watch-level every [] s line e = e
  watch-level every (r ∷ rs) s line e =
      watch-level every rs (step r s).0 (latest line (step r s).1)
        (rw e (latest-Follows s (step r s).0 (step r s).1 (every r s)))
