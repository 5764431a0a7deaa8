-- ===== src/Prelude/Halves.antt =====
-- The two 32-bit halves of a 64-bit register: `(x & 0xFFFFFFFF00000000) | v` and
-- `(x & 0xFFFFFFFF) | (uint64_t(v) << 32)`.
use Prim.Native.Nat.{ℕ, zero, suc, ◌+◌, ◌-◌, ◌*◌, ◌/◌, ◌%◌, ◌^◌, ◌<◌, bit_and, bit_or}
use mathlib.Core.Path.{◌≡◌, ap, ◌∙◌}
use native.Mathlib.Nat.{pow-suc, div-div-eq-div-mul}
use native.Mathlib.Omega.{arith}
use virtual_so_c.Prelude.Word.{◌&&&◌, ◌|||◌, ◌<<<◌}
use virtual_so_c.Prelude.Bits.{
  bit_and_step, bit_or_step, bit_and_mask, bit_or-zero, bit_or-lt, eq_of_bits, bit-bit_or,
}

unfoldable pub set_low : ℕ → ℕ → ℕ
set_low x v = (x &&& 0xFFFFFFFF00000000) ||| v

unfoldable pub set_high : ℕ → ℕ → ℕ
set_high x v = (x &&& 0x00000000FFFFFFFF) ||| v <<< 32

-- A multiple of 2 ^ (k + 1) is even.
even : (a k : ℕ) → a * 2 ^ suc k ≡ 2 * (a * 2 ^ k)
even a k = ap (λ (t : ℕ). a * t) (pow-suc 2 k) ∙ omega arith

-- A multiple of 2 ^ k, as an operand of `&`, leaves out the low `k` bits.
pub bit_and-multiple : (k x m : ℕ) → bit_and x (m * 2 ^ k) ≡ bit_and (x / 2 ^ k) m * 2 ^ k
bit_and-multiple zero x m =
    let whole : m * 2 ^ 0 ≡ m = omega arith in
    let same : x / 2 ^ 0 ≡ x = omega arith in rw (whole, same) (omega arith)
bit_and-multiple (suc k) x m =
    let quotient : x / 2 ^ suc k ≡ x / 2 / 2 ^ k =
      rw (div-div-eq-div-mul, pow-suc 2 k) (ap (λ (t : ℕ). x / t) (omega arith)) in
    rw (even m k, quotient)
      (omega (
        arith,
        bit_and_step x (2 * (m * 2 ^ k)),
        half,
        even (bit_and (x / 2 / 2 ^ k) m) k,
        bit_and-multiple k (x / 2) m,
      ))
  where
    half : bit_and (x / 2) (2 * (m * 2 ^ k) / 2) ≡ bit_and (x / 2) (m * 2 ^ k)
    half = ap (λ (t : ℕ). bit_and (x / 2) t) (omega arith)

pub bit_or-disjoint : (k a v : ℕ) → v < 2 ^ k → bit_or (a * 2 ^ k) v ≡ a * 2 ^ k + v
bit_or-disjoint zero a v l =
    let none : v ≡ 0 = omega arith in rw none (omega (arith, bit_or-zero (a * 2 ^ 0)))
bit_or-disjoint (suc k) a v l = rw (even a k) (
    omega (
      arith,
      bit_or_step (2 * (a * 2 ^ k)) v,
      half,
      bit_or-disjoint k a (v / 2) (omega (arith, pow-suc 2 k)),
    ))
  where
    half : bit_or (2 * (a * 2 ^ k) / 2) (v / 2) ≡ bit_or (a * 2 ^ k) (v / 2)
    half = ap (λ (t : ℕ). bit_or t (v / 2)) (omega arith)

pub bit_or_comm : (a b : ℕ) → a < 2 ^ 64 → b < 2 ^ 64 → bit_or a b ≡ bit_or b a
bit_or_comm a b p q =
    eq_of_bits 64 (bit_or a b) (bit_or b a) (bit_or-lt 64 a b p q) (bit_or-lt 64 b a q p)
      λ i l. omega (arith, bit-bit_or i a b, bit-bit_or i b a)

-- What the two writes do to the value.
pub set_low_lem : (x v : ℕ) → x < 2 ^ 64 → v < 2 ^ 32 → set_low x v ≡ x / 2 ^ 32 * 2 ^ 32 + v
unfolding set_low
set_low_lem x v l h =
    let top : ℕ = x / 2 ^ 32 in
    let kept : (x &&& 0xFFFFFFFF00000000) ≡ top * 2 ^ 32 =
      omega (arith, bit_and-multiple 32 x (2 ^ 32 - 1), bit_and_mask 32 top) in
    rw kept (bit_or-disjoint 32 top v h)

pub set_high_lem : (x v : ℕ) → v < 2 ^ 32 → set_high x v ≡ v * 2 ^ 32 + x % 2 ^ 32
unfolding set_high
set_high_lem x v h =
    let low : ℕ = x % 2 ^ 32 in
    let kept : (x &&& 0x00000000FFFFFFFF) ≡ low = bit_and_mask 32 x in
    rw kept (
      omega (
        arith,
        bit_or_comm low (v <<< 32) (omega arith) (omega arith),
        bit_or-disjoint 32 v low (omega arith),
      ))

-- The two writes together.
pub set_high-set_low :
    (x lo hi : ℕ)
    → x < 2 ^ 64
    → lo < 2 ^ 32
    → hi < 2 ^ 32
    → set_high (set_low x lo) hi ≡ hi * 2 ^ 32 + lo
set_high-set_low x lo hi l p q =
    omega (arith, set_high_lem (set_low x lo) hi q, set_low_lem x lo l p)

pub set_low-lt : (x v : ℕ) → x < 2 ^ 64 → v < 2 ^ 32 → set_low x v < 2 ^ 64
set_low-lt x v l h = omega (arith, set_low_lem x v l h)

pub set_high-lt : (x v : ℕ) → v < 2 ^ 32 → set_high x v < 2 ^ 64
set_high-lt x v h = omega (arith, set_high_lem x v h)

-- A word below the bits of another.
pub bit_or_above :
    (k x y : ℕ) → x < 2 ^ k → x < 2 ^ 64 → y * 2 ^ k < 2 ^ 64 → bit_or x (y * 2 ^ k) ≡ x + y * 2 ^ k
bit_or_above k x y l a b = bit_or_comm x (y * 2 ^ k) a b ∙ bit_or-disjoint k y x l ∙ omega arith
