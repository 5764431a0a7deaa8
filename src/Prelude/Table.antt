-- ===== src/Prelude/Table.antt =====
-- Finitely many cases by evaluation: two functions agree below `n` if their tables are equal.
use Prim.Native.Nat.{ℕ, zero, suc, ◌<◌}
use mathlib.Core.Path.{◌≡◌, ap}
use mathlib.Core.Logic.{◌⊎◌, inl, inr}
use mathlib.Core.List.{List, [], ◌∷◌}
use native.Mathlib.Omega.{arith}
use virtual_so_c.Prelude.Lists.{get_or, drop}

module _ {ℓ} {A : Type ℓ} where
  unfoldable pub tabulate : (ℕ → A) → ℕ → List A
  tabulate f zero = []
  tabulate f (suc n) = f n ∷ tabulate f n

  pub tabulate_agree : (f g : ℕ → A) (n i : ℕ) → tabulate f n ≡ tabulate g n → i < n → f i ≡ g i
  unfolding tabulate
  tabulate_agree f g zero i h l = absurd (omega arith)
  tabulate_agree f g (suc n) i h l = elim (last_or i n l) [
    | inl e ↦ rw e (ap (λ xs. get_or xs 0 (f n)) h)
    | inr l' ↦ tabulate_agree f g n i (ap (drop 1) h) l'
  ]
    where
      last_or : (j m : ℕ) → j < suc m → (j ≡ m) ⊎ (j < m)
      last_or j m l = grind arith
