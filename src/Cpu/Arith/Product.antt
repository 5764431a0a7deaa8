-- ===== src/Cpu/Arith/Product.antt =====
-- What the multiplication instructions compute together.
use virtual_so_c.Prelude.{
  ℕ, zero, suc, ◌+◌, ◌-◌, ◌*◌, ◌/◌, ◌%◌, ◌^◌, ◌<◌, ◌≤◌, leb, true, false, ◌≡◌, refl, arith, ap, ◌∙◌,
  inl, inr, Bool-cases,
}
use native.Mathlib.Nat.{mul-le-mul}
use virtual_so_c.Cpu.Arith.Signed.{pos, negsuc, signed32, word32, neg, ◌*ℤ◌}
use virtual_so_c.Cpu.Arith.Muldiv.{mul, mulhu}

-- The word of a negative number.
pub word32-neg : (n : ℕ) → ((n + word32 (neg n)) % 2 ^ 32 ≡ 0) × (word32 (neg n) < 2 ^ 32)
unfolding word32 neg
word32-neg zero = omega arith
word32-neg (suc n) = omega arith

-- Modulo 2 ^ 32, a word's complement is its negation.
pub one_negative :
    (a b w : ℕ)
    → b ≤ 2 ^ 32
    → (a * (2 ^ 32 - b) + w) % 2 ^ 32 ≡ 0
    → w < 2 ^ 32
    → w ≡ (a * b) % 2 ^ 32
one_negative a b w l h k =
    let y : ℕ = 2 ^ 32 - b in
    let whole : a * (y + b) ≡ a * 2 ^ 32 = ap (λ (t : ℕ). a * t) (omega arith) in
    omega (arith, whole, h, k)

pub two_negative :
    (a b : ℕ) → a ≤ 2 ^ 32 → b ≤ 2 ^ 32 → ((2 ^ 32 - a) * (2 ^ 32 - b)) % 2 ^ 32 ≡ (a * b) % 2 ^ 32
two_negative a b l k =
    let x : ℕ = 2 ^ 32 - a in
    let y : ℕ = 2 ^ 32 - b in
    let first : x * (y + b) ≡ x * 2 ^ 32 = ap (λ (t : ℕ). x * t) (omega arith) in
    let second : (x + a) * b ≡ 2 ^ 32 * b = ap (λ (t : ℕ). t * b) (omega arith) in
    omega (arith, first, second)

pub signed32-negative : (a : ℕ) → leb (2 ^ 31) a ≡ true → signed32 a ≡ negsuc (2 ^ 32 - 1 - a)
unfolding signed32
signed32-negative a h = rw h refl

pub signed32-positive : (a : ℕ) → leb (2 ^ 31) a ≡ false → signed32 a ≡ pos a
unfolding signed32
signed32-positive a h = rw h refl

-- The low word of the signed product is that of the unsigned one.
mul_lem : (a b : ℕ) → a < 2 ^ 32 → b < 2 ^ 32 → mul a b ≡ (a * b) % 2 ^ 32
unfolding mul ◌*ℤ◌ word32
mul_lem a b l k =
    let up_a : suc (2 ^ 32 - 1 - a) ≡ 2 ^ 32 - a = omega arith in
    let up_b : suc (2 ^ 32 - 1 - b) ≡ 2 ^ 32 - b = omega arith in
    elim (Bool-cases (leb (2 ^ 31) a)) [
      | inl na ↦ elim (Bool-cases (leb (2 ^ 31) b)) [
        | inl nb ↦
            rw (signed32-negative a na, signed32-negative b nb, up_a, up_b)
              (two_negative a b (omega arith) (omega arith))
        | inr pb ↦
            rw (signed32-negative a na, signed32-positive b pb, up_a)
              (let w = word32-neg ((2 ^ 32 - a) * b) in
                one_negative b a (word32 (neg ((2 ^ 32 - a) * b))) (omega arith)
                  (omega (arith, w.0)) w.1
                ∙ omega arith)
      ]
      | inr pa ↦ elim (Bool-cases (leb (2 ^ 31) b)) [
        | inl nb ↦
            rw (signed32-positive a pa, signed32-negative b nb, up_b)
              (let w = word32-neg (a * (2 ^ 32 - b)) in
                one_negative a b (word32 (neg (a * (2 ^ 32 - b)))) (omega arith) w.0 w.1)
        | inr pb ↦ rw (signed32-positive a pa, signed32-positive b pb) refl
      ]
    ]

-- For words, what MULHU and MUL return are the high and the low word of the unsigned product.
pub mulhu-mul : (a b : ℕ) → a < 2 ^ 32 → b < 2 ^ 32 → mulhu a b * 2 ^ 32 + mul a b ≡ a * b
unfolding mulhu
mulhu-mul a b l k =
    let p : ℕ = a * b in
    let top : ℕ = 2 ^ 32 - 1 in
    let bound : p ≤ top * top =
      mul-le-mul {n₁ = a} {m₁ = b} {n₂ = top} {m₂ = top} (omega arith) (omega arith) in
    let high : mulhu a b ≡ p / 2 ^ 32 % 2 ^ 32 = refl in
    let low : mul a b ≡ p % 2 ^ 32 = mul_lem a b l k in omega (arith, low, high, bound)
