-- ===== src/Prelude/Bits.antt =====
-- The bits of a number, and what `&`, `|`, `^` and `~` do to each of them.
use Prim.Native.Nat.{ℕ, zero, suc, ◌+◌, ◌-◌, ◌*◌, ◌/◌, ◌%◌, ◌^◌, ◌≤◌, ◌<◌, min, max}
use Prim.Native.Nat.{bit_and, bit_or, bit_xor, differ, digits, bitwise}
use Prim.Native.Nat.{bit_and-bitwise, bit_or-bitwise, bit_xor-bitwise}
use mathlib.Core.Path.{◌≡◌, refl, ap, ◌∙◌}
use native.Mathlib.Nat.{
  pow-suc, le_refl, div-div-eq-div-mul, one-le-pow, div-add-mod, mod-lt, mod-eq_of_lt,
  add-mul-mod_self_left, mul_comm,
}
use mathlib.Core.Logic.{◌⊎◌, ◌≢◌, inl, inr}
use native.Mathlib.Omega.{arith}
use virtual_so_c.Prelude.Tests.{◌==◌}
use virtual_so_c.Prelude.Word.{has_bits}

-- The bit of weight 2 ^ i.
unfoldable pub bit : ℕ → ℕ → ℕ
bit zero x = x % 2
bit (suc i) x = bit i (x / 2)

-- The native operations work with fuel, which is their first argument. Fuel that is left over
-- changes nothing.
module _ (on_zero : ℕ → ℕ) (f : ℕ → ℕ → ℕ) where
  digits-zero : (fuel y : ℕ) → digits on_zero f fuel 0 y ≡ on_zero y
  digits-zero zero y = refl
  digits-zero (suc fuel) y = refl

  spare_fuel :
      (spare fuel x y : ℕ)
      → x ≤ fuel
      → digits on_zero f (fuel + spare) x y ≡ digits on_zero f fuel x y
  spare_fuel spare fuel zero y h = rw (digits-zero (fuel + spare) y, digits-zero fuel y) refl
  spare_fuel spare zero (suc x) y h = absurd (omega arith)
  spare_fuel spare (suc fuel) (suc x) y h =
      let shift : suc fuel + spare ≡ suc (fuel + spare) = omega arith in
      rw shift (
        ap (λ (t : ℕ). t * 2 + f (suc x % 2) (y % 2))
          (spare_fuel spare fuel (suc x / 2) (y / 2) (omega arith)))

  first_digit :
      (x y : ℕ)
      → bitwise on_zero f (suc x) y
        ≡ f (suc x % 2) (y % 2) + 2 * bitwise on_zero f (suc x / 2) (y / 2)
  first_digit x y =
      let half : ℕ = suc x / 2 in
      let left : half + (x - half) ≡ x = omega arith in
      let enough : digits on_zero f x half (y / 2) ≡ digits on_zero f half half (y / 2) =
        rw left at (spare_fuel (x - half) half half (y / 2) (omega arith)) in
      omega (arith, enough)

pub bit_and_step : (x y : ℕ) → bit_and x y ≡ min (x % 2) (y % 2) + 2 * bit_and (x / 2) (y / 2)
bit_and_step zero y = simp bit_and-bitwise (omega arith)
bit_and_step (suc x) y = simp bit_and-bitwise (first_digit (λ t. 0) min x y)

pub bit_or_step : (x y : ℕ) → bit_or x y ≡ max (x % 2) (y % 2) + 2 * bit_or (x / 2) (y / 2)
bit_or_step zero y = simp bit_or-bitwise (omega arith)
bit_or_step (suc x) y = simp bit_or-bitwise (first_digit (λ t. t) max x y)

differ-digits : (p q : ℕ) → p < 2 → q < 2 → differ p q ≡ (p + q) % 2
differ-digits zero q l k = omega arith
differ-digits (suc p) zero l k = omega arith
differ-digits (suc zero) (suc q) l k = omega arith
differ-digits (suc (suc p)) (suc q) l k = absurd (omega arith)

bit_xor_step : (x y : ℕ) → bit_xor x y ≡ (x + y) % 2 + 2 * bit_xor (x / 2) (y / 2)
bit_xor_step zero y = simp bit_xor-bitwise (omega arith)
bit_xor_step (suc x) y = simp bit_xor-bitwise (
    omega (
      arith,
      first_digit (λ t. t) differ x y,
      differ-digits (suc x % 2) (y % 2) (omega arith) (omega arith),
    ))

pub bit-le-one : (i x : ℕ) → bit i x ≤ 1
unfolding bit
bit-le-one zero x = omega arith
bit-le-one (suc i) x = bit-le-one i (x / 2)

pub bit-bit_and : (i a b : ℕ) → bit i (bit_and a b) ≡ min (bit i a) (bit i b)
unfolding bit
bit-bit_and zero a b = omega (arith, bit_and_step a b)
bit-bit_and (suc i) a b =
    let halves : bit_and a b / 2 ≡ bit_and (a / 2) (b / 2) = omega (arith, bit_and_step a b) in
    rw halves (bit-bit_and i (a / 2) (b / 2))

pub bit-bit_or : (i a b : ℕ) → bit i (bit_or a b) ≡ max (bit i a) (bit i b)
unfolding bit
bit-bit_or zero a b = omega (arith, bit_or_step a b)
bit-bit_or (suc i) a b =
    let halves : bit_or a b / 2 ≡ bit_or (a / 2) (b / 2) = omega (arith, bit_or_step a b) in
    rw halves (bit-bit_or i (a / 2) (b / 2))

pub bit-bit_xor : (i a b : ℕ) → bit i (bit_xor a b) ≡ (bit i a + bit i b) % 2
unfolding bit
bit-bit_xor zero a b = omega (arith, bit_xor_step a b)
bit-bit_xor (suc i) a b =
    let halves : bit_xor a b / 2 ≡ bit_xor (a / 2) (b / 2) = omega (arith, bit_xor_step a b) in
    rw halves (bit-bit_xor i (a / 2) (b / 2))

pub bit-zero : (i : ℕ) → bit i 0 ≡ 0
unfolding bit
bit-zero zero = refl
bit-zero (suc i) = bit-zero i

pub bit-div : (i x : ℕ) → bit i x ≡ x / 2 ^ i % 2
unfolding bit
bit-div zero x = omega arith
bit-div (suc i) x =
    rw (bit-div i (x / 2), div-div-eq-div-mul, pow-suc 2 i)
      (ap (λ (t : ℕ). x / t % 2) (omega arith))

bit_and-le_fuel : (n a b : ℕ) → a ≤ n → (bit_and a b ≤ a) × (bit_and a b ≤ b)
bit_and-le_fuel n zero b h = omega (arith, bit_and-bitwise 0 b)
bit_and-le_fuel zero (suc a) b h = absurd (omega arith)
bit_and-le_fuel (suc n) (suc a) b h =
    omega (arith, bit_and_step (suc a) b, bit_and-le_fuel n (suc a / 2) (b / 2) (omega arith))

pub bit_and-le : (a b : ℕ) → (bit_and a b ≤ a) × (bit_and a b ≤ b)
bit_and-le a b = bit_and-le_fuel a a b (le_refl a)

pub bit_and-zero : (a : ℕ) → bit_and a 0 ≡ 0
bit_and-zero a = omega (arith, bit_and-le a 0)

bit_or-zero_fuel : (n a : ℕ) → a ≤ n → bit_or a 0 ≡ a
bit_or-zero_fuel n zero h = refl
bit_or-zero_fuel zero (suc a) h = absurd (omega arith)
bit_or-zero_fuel (suc n) (suc a) h =
    omega (arith, bit_or_step (suc a) 0, bit_or-zero_fuel n (suc a / 2) (omega arith))

pub bit_or-zero : (a : ℕ) → bit_or a 0 ≡ a
bit_or-zero a = bit_or-zero_fuel a a (le_refl a)

-- A mask of one bit.
pub bit_and-pow : (k x : ℕ) → bit_and x (2 ^ k) ≡ bit k x * 2 ^ k
unfolding bit
bit_and-pow zero x = omega (arith, bit_and_step x 1, bit_and-zero (x / 2))
bit_and-pow (suc k) x = grind (
  arith,
  bit_and_step x (2 ^ suc k),
  pow-suc 2 k,
  bit_and-pow k (x / 2),
  mul_double (bit k (x / 2)) (2 ^ k),
)
  where
    mul_double : (b p : ℕ) → b * (2 * p) ≡ b * p * 2
    mul_double b p = omega arith

pub bit_or-lt : (k a b : ℕ) → a < 2 ^ k → b < 2 ^ k → bit_or a b < 2 ^ k
bit_or-lt zero a b p q = ground (arith, bit_or-zero 0)
bit_or-lt (suc k) a b p q = omega (
  arith,
  bit_or_step a b,
  pow-suc 2 k,
  bit_or-lt k (a / 2) (b / 2) (omega (arith, pow-suc 2 k)) (omega (arith, pow-suc 2 k)),
)

mod_double : (a p : ℕ) → 0 < p → a % (2 * p) ≡ a / 2 % p * 2 + a % 2
mod_double a p pos =
    let q : ℕ = a / 2 / p in
    let r : ℕ = a / 2 % p * 2 + a % 2 in
    let split : p * q + a / 2 % p ≡ a / 2 = div-add-mod (a / 2) p in
    let small : r < 2 * p = omega (arith, mod-lt (a / 2) pos) in
    let whole : a ≡ r + 2 * p * q = omega (arith, split) in
    ap (λ (t : ℕ). t % (2 * p)) whole ∙ add-mul-mod_self_left r (2 * p) q ∙ mod-eq_of_lt small

-- A mask of the `k` low bits.
pub bit_and_mask : (k a : ℕ) → bit_and a (2 ^ k - 1) ≡ a % 2 ^ k
bit_and_mask zero a = omega (arith, bit_and-zero a)
bit_and_mask (suc k) a = omega (
  arith,
  bit_and_step a (2 ^ suc k - 1),
  halves,
  pow-suc 2 k,
  one-le-pow k 2,
  bit_and_mask k (a / 2),
  ap (λ (t : ℕ). a % t) (pow-suc 2 k),
  ap (λ (t : ℕ). bit_and (a / 2) t) halves,
  mod_double a (2 ^ k) (one-le-pow k 2 (omega arith)),
  ap (λ (t : ℕ). a % t) (mul_comm (2 ^ k) 2),
)
  where
    halves : (2 ^ suc k - 1) / 2 ≡ 2 ^ k - 1
    halves = omega (arith, pow-suc 2 k, one-le-pow k 2)

-- The complement flips each of the `k` low bits.
pub bit-complement : (k i x : ℕ) → i < k → x < 2 ^ k → bit i (2 ^ k - 1 - x) ≡ 1 - bit i x
unfolding bit
bit-complement zero i x h l = absurd (omega arith)
bit-complement (suc k) zero x h l = omega (arith, pow-suc 2 k)
bit-complement (suc k) (suc i) x h l =
    let halves : (2 ^ suc k - 1 - x) / 2 ≡ 2 ^ k - 1 - x / 2 = omega (arith, pow-suc 2 k) in
    rw halves (bit-complement k i (x / 2) (omega arith) (omega (arith, pow-suc 2 k)))

-- A number below 2 ^ k is its `k` low bits.
pub eq_of_bits : (k a b : ℕ) → a < 2 ^ k → b < 2 ^ k → ((i : ℕ) → i < k → bit i a ≡ bit i b) → a ≡ b
unfolding bit
eq_of_bits zero a b p q h = omega arith
eq_of_bits (suc k) a b p q h =
    let halves : a / 2 ≡ b / 2 =
      eq_of_bits k (a / 2) (b / 2) (omega (arith, pow-suc 2 k)) (omega (arith, pow-suc 2 k))
        (λ i l. h (suc i) (omega arith)) in
    omega (arith, halves, h 0 (omega arith))

-- A bit that a mask keeps, and one that it clears.
pub bit_and-keep : (i x mask : ℕ) → bit i mask ≡ 1 → bit i (bit_and x mask) ≡ bit i x
bit_and-keep i x mask h = omega (arith, bit-bit_and i x mask, bit-le-one i x)

pub bit_and-clear : (i x mask : ℕ) → bit i mask ≡ 0 → bit i (bit_and x mask) ≡ 0
bit_and-clear i x mask h = omega (arith, bit-bit_and i x mask)

-- The test of one bit.
pub has_bits-pow : (k x : ℕ) → has_bits x (2 ^ k) ≡ (bit k x == 1)
has_bits-pow k x = elim (bit-cases k x) [
  | inl z ↦ rw (bit_and-pow k x, z) (ground arith)
  | inr o ↦ ground (arith, bit_and-pow k x, ap (λ (t : ℕ). t * 2 ^ k) o, one-le-pow k 2)
]
  where
    bit-cases : (i y : ℕ) → (bit i y ≡ 0) ⊎ (bit i y ≡ 1)
    bit-cases i y = ground (arith, bit-le-one i y)

-- The bits of a power of two.
pub bit-pow_self : (k : ℕ) → bit k (2 ^ k) ≡ 1
unfolding bit
bit-pow_self zero = refl
bit-pow_self (suc k) =
    let half : 2 ^ suc k / 2 ≡ 2 ^ k = omega (arith, pow-suc 2 k) in rw half (bit-pow_self k)

pub bit-pow_ne : (i k : ℕ) → i ≢ k → bit i (2 ^ k) ≡ 0
unfolding bit
bit-pow_ne zero zero n = absurd (n refl)
bit-pow_ne zero (suc k) n = omega (arith, pow-suc 2 k)
bit-pow_ne (suc i) zero n = bit-zero i
bit-pow_ne (suc i) (suc k) n =
    let half : 2 ^ suc k / 2 ≡ 2 ^ k = omega (arith, pow-suc 2 k) in
    rw half (bit-pow_ne i k (omega arith))
