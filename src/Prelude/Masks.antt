-- ===== src/Prelude/Masks.antt =====
-- A field of a word that is written under a mask: `(old & ~mask) | (val & mask)`.
use Prim.Native.Nat.{ℕ, ◌-◌, ◌^◌, ◌<◌, min, max}
use mathlib.Core.Path.{◌≡◌, ap, ◌∙◌}
use mathlib.Core.Logic.{inl, inr, ◌≢◌}
use virtual_so_c.Prelude.Tests.{◌==◌, Bool-cases}
use native.Mathlib.Nat.{pow-le-pow_right}
use native.Mathlib.Omega.{arith}
use virtual_so_c.Prelude.Word.{not32, ◌&&&◌, ◌|||◌, ◌<<<◌}
use virtual_so_c.Prelude.Bits.{
  bit, bit-le-one, bit-bit_and, bit-bit_or, bit-complement, bit_and-le, bit_or-lt, eq_of_bits,
  bit-pow_self, bit-pow_ne,
}

module _ (old val mask : ℕ) where
  abbrev pub merge : ℕ
  merge = (old &&& not32 mask) ||| (val &&& mask)

  pub bit-merge :
      (i : ℕ)
      → i < 32
      → mask < 2 ^ 32
      → bit i merge ≡ max (min (bit i old) (1 - bit i mask)) (min (bit i val) (bit i mask))
  bit-merge i l m = omega (
    arith,
    bit-bit_or i (old &&& not32 mask) (val &&& mask),
    bit-bit_and i old (not32 mask),
    bit-bit_and i val mask,
    bit-complement 32 i mask l m,
  )

  -- The bits outside the mask are the old ones.
  pub merge_outside : (i : ℕ) → i < 32 → mask < 2 ^ 32 → bit i mask ≡ 0 → bit i merge ≡ bit i old
  merge_outside i l m z = omega (arith, bit-merge i l m, bit-le-one i old)

  -- The bits under the mask are the new ones.
  pub merge_inside : mask < 2 ^ 32 → merge &&& mask ≡ val &&& mask
  merge_inside m =
      eq_of_bits 32 (merge &&& mask) (val &&& mask) (omega (arith, bit_and-le merge mask))
        (omega (arith, bit_and-le val mask))
        λ i l. omega (
          arith,
          bit-bit_and i merge mask,
          bit-bit_and i val mask,
          bit-merge i l m,
          bit-le-one i mask,
          bit-le-one i val,
          bit-le-one i merge,
        )

  pub merge-lt : old < 2 ^ 32 → mask < 2 ^ 32 → merge < 2 ^ 32
  merge-lt o m =
      bit_or-lt 32 (old &&& not32 mask) (val &&& mask) (omega (arith, bit_and-le old (not32 mask)))
        (omega (arith, bit_and-le val mask))

-- Words with the same bits outside a mask agree there.
pub outside_of_bits :
    (a b mask : ℕ)
    → mask < 2 ^ 32
    → ((i : ℕ) → i < 32 → bit i mask ≡ 0 → bit i a ≡ bit i b)
    → (a &&& not32 mask) ≡ (b &&& not32 mask)
outside_of_bits a b mask m h =
    eq_of_bits 32 (a &&& not32 mask) (b &&& not32 mask) (omega (arith, bit_and-le a (not32 mask)))
      (omega (arith, bit_and-le b (not32 mask)))
      λ i l. elim (Bool-cases (bit i mask == 0)) [
        | inl out ↦ omega (
          arith,
          bit-bit_and i a (not32 mask),
          bit-bit_and i b (not32 mask),
          h i l (ground arith),
        )
        | inr in_mask ↦ ground (
          arith,
          bit-bit_and i a (not32 mask),
          bit-bit_and i b (not32 mask),
          bit-complement 32 i mask l m,
          bit-le-one i mask,
        )
      ]

-- One bit, shifted into place.
pub shift-lt : (b : ℕ) → b < 32 → 1 <<< b < 2 ^ 32
shift-lt b l = omega (arith, pow-le-pow_right {n = 2} (omega arith) {i = b} {j = 31} (omega arith))

pub bit-shift_self : (b : ℕ) → bit b (1 <<< b) ≡ 1
bit-shift_self b = ap (bit b) (omega arith) ∙ bit-pow_self b

pub bit-shift_ne : (i b : ℕ) → i ≢ b → bit i (1 <<< b) ≡ 0
bit-shift_ne i b n = ap (bit i) (omega arith) ∙ bit-pow_ne i b n
