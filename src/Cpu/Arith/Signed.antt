-- ===== src/Cpu/Arith/Signed.antt =====
-- `int32_t` and `int64_t` values: a word's signed reading and the arithmetic that the source does
-- on it. Division truncates and a right shift rounds down, as in C++.
use virtual_so_c.Prelude.{
  ℕ, zero, suc, ◌-◌, ◌*◌, ◌/◌, ◌%◌, ◌^◌, Bool, true, false, ltb, leb, if◌then◌else◌, u32,
}

-- `negsuc n` is -(n + 1).
pub data ℤ : Type 0 where
  pos : ℕ → ℤ
  negsuc : ℕ → ℤ

unfoldable pub signed32 : ℕ → ℤ
signed32 w = if leb (2 ^ 31) w then negsuc (2 ^ 32 - 1 - w) else pos w

-- `static_cast<uint32_t>`.
unfoldable pub word32 : ℤ → ℕ
word32 (pos n) = u32 n
word32 (negsuc n) = 2 ^ 32 - 1 - u32 n

-- - n.
unfoldable pub neg : ℕ → ℤ
neg zero = pos zero
neg (suc n) = negsuc n

infixl 70 ◌*ℤ◌
unfoldable pub ◌*ℤ◌ : ℤ → ℤ → ℤ
unfolding neg
pos m *ℤ pos n = pos (m * n)
pos m *ℤ negsuc n = neg (m * suc n)
negsuc m *ℤ pos n = neg (suc m * n)
negsuc m *ℤ negsuc n = pos (suc m * suc n)

unfoldable pub shift_right : ℤ → ℕ → ℤ
shift_right (pos n) k = pos (n / 2 ^ k)
shift_right (negsuc n) k = negsuc (n / 2 ^ k)

-- `a / b` and `a % b`, at a divisor that is not 0.
unfoldable pub quot : ℤ → ℤ → ℤ
unfolding neg
quot (pos m) (pos n) = pos (m / n)
quot (pos m) (negsuc n) = neg (m / suc n)
quot (negsuc m) (pos n) = neg (suc m / n)
quot (negsuc m) (negsuc n) = pos (suc m / suc n)

unfoldable pub remainder : ℤ → ℤ → ℤ
unfolding neg
remainder (pos m) (pos n) = pos (m % n)
remainder (pos m) (negsuc n) = pos (m % suc n)
remainder (negsuc m) (pos n) = neg (suc m % n)
remainder (negsuc m) (negsuc n) = neg (suc m % suc n)

unfoldable pub ltb_ℤ : ℤ → ℤ → Bool
ltb_ℤ (pos m) (pos n) = ltb m n
ltb_ℤ (pos m) (negsuc n) = false
ltb_ℤ (negsuc m) (pos n) = true
ltb_ℤ (negsuc m) (negsuc n) = ltb n m

-- `a < b` of two `int32_t` values given by their words.
unfoldable pub slt32 : ℕ → ℕ → Bool
unfolding signed32 ltb_ℤ
slt32 a b = ltb_ℤ (signed32 a) (signed32 b)
