-- ===== src/Debug/Hex.antt =====
-- Numbers in hexadecimal: `to_hex32_le` and `from_hex32_le` of src/debug/gdb_server.cpp, with what
-- they use of the C++ library: a stream that prints in base 16 with `setw(2)` and `setfill('0')`,
-- and `std::stoul` in base 16. A call that throws is none.
use virtual_so_c.Prelude.{
  ℕ, ◌+◌, ◌-◌, ◌*◌, ◌/◌, ◌%◌, ◌^◌, List, [], ◌∷◌, ◌++◌, Bool, true, false, Option, none, some, ltb,
  leb, ◌==◌, ◌&&◌, ◌||◌, if◌then◌else◌, u32, ◌>>>◌, ◌<<<◌, ◌&&&◌, ◌|||◌, ◌>>=◌, take, drop,
}

-- The stream.
unfoldable pub hex_digit : ℕ → ℕ
hex_digit n = if ltb n 10 then 48 + n else 87 + n

-- A byte in two digits.
unfoldable pub hex_byte : ℕ → List ℕ
hex_byte b = hex_digit (b / 16) ∷ hex_digit (b % 16) ∷ []

-- `std::stoul`: white space, a sign and a prefix `0x` are passed over, then the digits are read up
-- to the first other character. It throws where there is no digit, and where 64 bits do not hold
-- the number.
unfoldable pub digit_value : ℕ → Option ℕ
digit_value c =
    if leb 48 c && leb c 57
    then some (c - 48)
    else if leb 97 c && leb c 102
    then some (c - 87)
    else if leb 65 c && leb c 70
    then some (c - 55)
    else none

-- The digits at the front of `cs`, after the number `acc`.
unfoldable pub read_digits : List ℕ → ℕ → ℕ
read_digits [] acc = acc
read_digits (c ∷ cs) acc = elim (digit_value c) [
  | none ↦ acc
  | some d ↦ read_digits cs (acc * 16 + d)
]

unfoldable pub is_digit : List ℕ → Bool
is_digit [] = false
is_digit (c ∷ cs) = elim (digit_value c) [ none ↦ false | some d ↦ true ]

unfoldable pub skip_space : List ℕ → List ℕ
skip_space [] = []
skip_space (c ∷ cs) =
    let rest = skip_space cs in if c == 32 || (leb 9 c && leb c 13) then rest else c ∷ cs

-- A prefix counts only before a digit.
unfoldable pub skip_prefix : List ℕ → List ℕ
skip_prefix [] = []
skip_prefix (c ∷ []) = c ∷ []
skip_prefix (c ∷ d ∷ cs) =
    if c == 48 && (d == 120 || d == 88) && is_digit cs then cs else c ∷ d ∷ cs

unfoldable pub magnitude : List ℕ → Option ℕ
magnitude cs =
    let digits = skip_prefix cs in
    let n = read_digits digits 0 in if is_digit digits && ltb n (2 ^ 64) then some n else none

-- The number of a string without white space in front.
unfoldable pub signed : List ℕ → Option ℕ
signed [] = none
signed (c ∷ cs) =
    if c == 43
    then magnitude cs
    else if c == 45
    then elim (magnitude cs) [ none ↦ none | some n ↦ some ((2 ^ 64 - n) % 2 ^ 64) ]
    else magnitude (c ∷ cs)

abbrev pub stoul : List ℕ → Option ℕ
stoul cs = signed (skip_space cs)

-- The source's two functions.
unfoldable pub to_hex32_le : ℕ → List ℕ
to_hex32_le val =
    hex_byte ((val >>> 0) &&& 0xFF)
    ++ (hex_byte ((val >>> 8) &&& 0xFF)
        ++ (hex_byte ((val >>> 16) &&& 0xFF) ++ hex_byte ((val >>> 24) &&& 0xFF)))

-- `byte(i)` and its truncation to 32 bits.
unfoldable pub byte_at : List ℕ → ℕ → Option ℕ
byte_at hex at = elim (stoul (take 2 (drop at hex))) [ none ↦ none | some n ↦ some (u32 n) ]

unfoldable pub from_hex32_le : List ℕ → ℕ → Option ℕ
from_hex32_le hex offset = do
  b0 ← byte_at hex offset
  b1 ← byte_at hex (offset + 2)
  b2 ← byte_at hex (offset + 4)
  b3 ← byte_at hex (offset + 6)
  some (b0 ||| u32 (b1 <<< 8) ||| u32 (b2 <<< 16) ||| u32 (b3 <<< 24))
