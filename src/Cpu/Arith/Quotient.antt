-- ===== src/Cpu/Arith/Quotient.antt =====
-- What the division instructions compute together.
use virtual_so_c.Prelude.{
  ℕ, zero, suc, ◌+◌, ◌-◌, ◌*◌, ◌/◌, ◌%◌, ◌^◌, ◌<◌, ◌≤◌, Bool, true, false, not, leb, ◌==◌, ◌&&◌,
  if◌then◌else◌, ◌≡◌, ◌≢◌, ◌⊎◌, refl, arith, inl, inr, Bool-cases,
}
use native.Mathlib.Nat.{div-add-mod', div-le_self, mod-lt, div-lt_iff_lt-mul}
use virtual_so_c.Cpu.Arith.Signed.{pos, signed32, word32, neg, quot, remainder}
use virtual_so_c.Cpu.Arith.Muldiv.{div, rem}
use virtual_so_c.Cpu.Arith.Product.{signed32-negative, signed32-positive}

-- The sign and the magnitude of the integer that a word stands for in two's complement.
abbrev pub is_negative : ℕ → Bool
is_negative w = leb (2 ^ 31) w

abbrev pub magnitude : ℕ → ℕ
magnitude w = if is_negative w then 2 ^ 32 - w else w

-- The words `q` and `r` are the quotient, rounded towards 0, and the remainder of `a` by `b`.
pub record IsDivision (a b q r : ℕ) : Type 0 where
  pub whole : magnitude q * magnitude b + magnitude r ≡ magnitude a
  pub small : magnitude r < magnitude b
  pub quotient_sign :
      (q ≡ 0)
      ⊎ (is_negative q ≡ (if is_negative b then not (is_negative a) else is_negative a))
      ⊎ ((a ≡ 2 ^ 31) × (b ≡ 2 ^ 32 - 1))
  pub remainder_sign : (r ≡ 0) ⊎ (is_negative r ≡ is_negative a)

-- A word with a magnitude and, unless it is 0, a sign.
abbrev Stands : ℕ → ℕ → Bool → Type 0
Stands w k sign = (magnitude w ≡ k) × ((w ≡ 0) ⊎ (is_negative w ≡ sign))

Stands-neg : (k : ℕ) → k ≤ 2 ^ 31 → Stands (word32 (neg k)) k true
unfolding word32 neg
Stands-neg zero h = (refl, inl refl)
Stands-neg (suc k) h =
    let w : ℕ = 2 ^ 32 - 1 - k % 2 ^ 32 in
    let high : leb (2 ^ 31) w ≡ true = ground (arith, h) in rw high (omega (arith, h), inr refl)

Stands-pos : (k : ℕ) → k < 2 ^ 31 → Stands (word32 (pos k)) k false
unfolding word32
Stands-pos k h =
    let low : leb (2 ^ 31) (k % 2 ^ 32) ≡ false = ground (arith, h) in
    rw low (omega (arith, h), inr refl)

-- Words with the magnitudes of the quotient and the remainder, and the right signs.
IsDivision-of_words :
    (a b q r : ℕ)
    → magnitude b ≢ 0
    → Stands q
        (magnitude a / magnitude b)
        (if is_negative b then not (is_negative a) else is_negative a)
    → Stands r (magnitude a % magnitude b) (is_negative a)
    → IsDivision a b q r
IsDivision-of_words a b q r n s t = record {
  whole = rw (s.0, t.0) (div-add-mod' (magnitude a) (magnitude b));
  small = rw t.0 (mod-lt (magnitude a) (omega (arith, n)));
  quotient_sign = elim (s.1) [ inl z ↦ inl z | inr e ↦ inr (inl e) ];
  remainder_sign = t.1;
}

-- Outside the overflow the quotient of two negative words is a positive one.
quotient-lt :
    (a b : ℕ)
    → leb (2 ^ 31) a ≡ true
    → a < 2 ^ 32
    → b < 2 ^ 32
    → (a == 0x80000000 && b == 0xFFFFFFFF) ≡ false
    → (2 ^ 32 - a) / (2 ^ 32 - b) < 2 ^ 31
quotient-lt a b g l k n = (div-lt_iff_lt-mul (omega (arith, k))).1 (ground (arith, g, l, k, n))

-- The words of the signed quotient and remainder.
words-IsDivision :
    (a b : ℕ)
    → a < 2 ^ 32
    → b < 2 ^ 32
    → b ≢ 0
    → (a == 0x80000000 && b == 0xFFFFFFFF) ≡ false
    → IsDivision a b
        (word32 (quot (signed32 a) (signed32 b)))
        (word32 (remainder (signed32 a) (signed32 b)))
unfolding quot remainder
words-IsDivision a b l k n o =
    let up_a : suc (2 ^ 32 - 1 - a) ≡ 2 ^ 32 - a = omega arith in
    let up_b : suc (2 ^ 32 - 1 - b) ≡ 2 ^ 32 - b = omega arith in
    let x : ℕ = 2 ^ 32 - a in
    let y : ℕ = 2 ^ 32 - b in
    let nonzero : magnitude b ≢ 0 = ground arith in
    let high : leb (2 ^ 31) a ≡ true → x ≤ 2 ^ 31 = λ h. ground (arith, h) in
    let low : leb (2 ^ 31) a ≡ false → a < 2 ^ 31 = λ h. ground (arith, h) in
    elim (Bool-cases (leb (2 ^ 31) a)) [
      | inl na ↦ elim (Bool-cases (leb (2 ^ 31) b)) [
        | inl nb ↦
            rw (signed32-negative a na, signed32-negative b nb, up_a, up_b)
              (IsDivision-of_words a b _ _ nonzero
                (rw (na, nb) (Stands-pos (x / y) (quotient-lt a b na l k o)))
                (rw (na, nb) (Stands-neg (x % y) (omega (arith, div-add-mod' x y, high na)))))
        | inr pb ↦
            rw (signed32-negative a na, signed32-positive b pb, up_a)
              (IsDivision-of_words a b _ _ nonzero
                (rw (na, pb) (Stands-neg (x / b) (omega (arith, div-le_self x b, high na))))
                (rw (na, pb) (Stands-neg (x % b) (omega (arith, div-add-mod' x b, high na)))))
      ]
      | inr pa ↦ elim (Bool-cases (leb (2 ^ 31) b)) [
        | inl nb ↦
            rw (signed32-positive a pa, signed32-negative b nb, up_b)
              (IsDivision-of_words a b _ _ nonzero
                (rw (pa, nb) (Stands-neg (a / y) (omega (arith, div-le_self a y, low pa))))
                (rw (pa, nb) (Stands-pos (a % y) (omega (arith, div-add-mod' a y, low pa)))))
        | inr pb ↦
            rw (signed32-positive a pa, signed32-positive b pb)
              (IsDivision-of_words a b _ _ nonzero
                (rw (pa, pb) (Stands-pos (a / b) (omega (arith, div-le_self a b, low pa))))
                (rw (pa, pb) (Stands-pos (a % b) (omega (arith, div-add-mod' a b, low pa)))))
      ]
    ]

-- For words and a divisor that is not 0, DIV and REM return the quotient, rounded towards 0, and
-- the remainder of the signed integers: the magnitudes of quotient times divisor and of the
-- remainder sum to that of the dividend, the remainder is smaller than the divisor in magnitude
-- and 0 or of the dividend's sign, and the quotient is 0 or negative exactly when one of the
-- operands is, except at the overflow of -2 ^ 31 by -1.
pub div-rem : (a b : ℕ) → a < 2 ^ 32 → b < 2 ^ 32 → b ≢ 0 → IsDivision a b (div a b) (rem a b)
unfolding div rem
div-rem a b l k n =
    let nonzero : (b == 0) ≡ false = ground arith in
    rw nonzero (elim (Bool-cases (a == 0x80000000 && b == 0xFFFFFFFF)) [
      | inl over ↦
          (let first : a ≡ 0x80000000 = ground (arith, over) in
            let second : b ≡ 0xFFFFFFFF = ground (arith, over) in
            rw over (record {
              whole = rw (first, second) refl;
              small = rw second (omega arith);
              quotient_sign = inr (inr (first, second));
              remainder_sign = inl refl;
            }))
      | inr usual ↦ rw usual (words-IsDivision a b l k n usual)
    ])
