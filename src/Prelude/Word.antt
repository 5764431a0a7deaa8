-- ===== src/Prelude/Word.antt =====
-- Casts to the fixed widths, shifts and complements of C++ unsigned integers.
use Prim.Native.Nat.{ℕ, ◌+◌, ◌-◌, ◌*◌, ◌/◌, ◌%◌, ◌^◌, bit_and, bit_or}
use mathlib.Core.Bool.{Bool, not}
use virtual_so_c.Prelude.Tests.{◌==◌, ltb, if◌then◌else◌}

abbrev pub u8 : ℕ → ℕ
u8 n = n % 2 ^ 8

abbrev pub u16 : ℕ → ℕ
u16 n = n % 2 ^ 16

abbrev pub u32 : ℕ → ℕ
u32 n = n % 2 ^ 32

abbrev pub u64 : ℕ → ℕ
u64 n = n % 2 ^ 64

-- `x << k` before the cast to a width, and `x >> k`.
infixl 72 ◌<<<◌ ◌>>>◌
abbrev pub ◌<<<◌ : ℕ → ℕ → ℕ
x <<< k = x * 2 ^ k

abbrev pub ◌>>>◌ : ℕ → ℕ → ℕ
x >>> k = x / 2 ^ k

-- `~x` at 32 bits, for `x` below 2 ^ 32.
abbrev pub not32 : ℕ → ℕ
not32 x = 2 ^ 32 - 1 - x

-- `(x & mask) != 0`.
abbrev pub has_bits : ℕ → ℕ → Bool
has_bits x mask = not (bit_and x mask == 0)

infixl 60 ◌&&&◌
abbrev pub ◌&&&◌ : ℕ → ℕ → ℕ
x &&& y = bit_and x y

infixl 55 ◌|||◌
abbrev pub ◌|||◌ : ℕ → ℕ → ℕ
x ||| y = bit_or x y

-- `x << k` at 32 bits, and `x >> k` of an `int32_t`, which repeats the sign bit.
abbrev pub shl32 : ℕ → ℕ → ℕ
shl32 x k = u32 (x <<< k)

abbrev pub sra32 : ℕ → ℕ → ℕ
sra32 x k = if ltb x (2 ^ 31) then x >>> k else x >>> k + (2 ^ 32 - 2 ^ (32 - k))
