-- ===== src/Debug/Digits.antt =====
-- Numbers printed in hexadecimal are read back: `to_hex32_le` and `from_hex32_le` of
-- src/debug/gdb_server.cpp.
use virtual_so_c.Prelude.{
  ℕ, ◌+◌, ◌*◌, ◌/◌, ◌%◌, ◌^◌, ◌<◌, List, ◌++◌, some, u32, ◌>>>◌, ◌<<<◌, ◌&&&◌, ◌|||◌, take, drop,
  length, drop-append, length-append, ◌≡◌, refl, sym, ap, ◌∙◌, arith,
}
use mathlib.Core.List.{append_assoc}
use virtual_so_c.Prelude.Bits.{bit_and_mask}
use virtual_so_c.Prelude.Halves.{bit_or_above}
use virtual_so_c.Prelude.Table.{tabulate, tabulate_agree}
use virtual_so_c.Debug.Hex.{
  hex_digit, hex_byte, digit_value, read_digits, is_digit, skip_space, skip_prefix, magnitude,
  signed, stoul, to_hex32_le, byte_at, from_hex32_le,
}

-- A printed byte is read back.
all_bytes : tabulate (λ b. stoul (hex_byte b)) 256 ≡ tabulate (λ b. some b) 256
unfolding tabulate signed skip_space skip_prefix magnitude read_digits is_digit digit_value hex_byte
    hex_digit
all_bytes = refl

pub stoul-hex_byte : (b : ℕ) → b < 256 → stoul (hex_byte b) ≡ some b
stoul-hex_byte b l = tabulate_agree (λ c. stoul (hex_byte c)) some 256 b all_bytes l

take-hex_byte : (b : ℕ) (post : List ℕ) → take 2 (hex_byte b ++ post) ≡ hex_byte b
unfolding hex_byte
take-hex_byte b post = refl

pub length-hex_byte : (b : ℕ) → length (hex_byte b) ≡ 2
unfolding hex_byte
length-hex_byte b = refl

byte_at-hex_byte :
    (pre post : List ℕ) (b at : ℕ)
    → b < 256
    → length pre ≡ at
    → byte_at (pre ++ (hex_byte b ++ post)) at ≡ some b
unfolding byte_at
byte_at-hex_byte pre post b at l e =
    let front : take 2 (drop at (pre ++ (hex_byte b ++ post))) ≡ hex_byte b =
      ap (λ n. take 2 (drop n (pre ++ (hex_byte b ++ post)))) (sym e)
      ∙ ap (take 2) (drop-append pre (hex_byte b ++ post))
      ∙ take-hex_byte b post in
    let same : u32 b ≡ b = omega arith in rw (byte_at, front, stoul-hex_byte b l, same) refl

four_bytes :
    (b0 b1 b2 b3 : ℕ)
    → b0 < 256
    → b1 < 256
    → b2 < 256
    → b3 < 256
    → (b0 ||| u32 (b1 <<< 8) ||| u32 (b2 <<< 16) ||| u32 (b3 <<< 24))
      ≡ b0 + b1 * 2 ^ 8 + b2 * 2 ^ 16 + b3 * 2 ^ 24
four_bytes b0 b1 b2 b3 p q r t =
    let one : u32 (b1 <<< 8) ≡ b1 * 2 ^ 8 = omega arith in
    let two : u32 (b2 <<< 16) ≡ b2 * 2 ^ 16 = omega arith in
    let three : u32 (b3 <<< 24) ≡ b3 * 2 ^ 24 = omega arith in
    rw
      (
        one,
        two,
        three,
        bit_or_above 8 b0 b1 (omega arith) (omega arith) (omega arith),
        bit_or_above 16 (b0 + b1 * 2 ^ 8) b2 (omega arith) (omega arith) (omega arith),
        bit_or_above 24 (b0 + b1 * 2 ^ 8 + b2 * 2 ^ 16) b3 (omega arith) (omega arith)
            (omega arith),
      )
      refl

-- The digits of four bytes in a row are read at their places.
bytes_in_row :
    (pre post : List ℕ) (b0 b1 b2 b3 at : ℕ)
    → b0 < 256
    → b1 < 256
    → b2 < 256
    → b3 < 256
    → length pre ≡ at
    → from_hex32_le
        (pre ++ (hex_byte b0 ++ (hex_byte b1 ++ (hex_byte b2 ++ (hex_byte b3 ++ post)))))
        at
      ≡ some (b0 ||| u32 (b1 <<< 8) ||| u32 (b2 <<< 16) ||| u32 (b3 <<< 24))
unfolding from_hex32_le
bytes_in_row pre post b0 b1 b2 b3 at p q r t e =
    let after0 : List ℕ = pre ++ hex_byte b0 in
    let after1 : List ℕ = after0 ++ hex_byte b1 in
    let after2 : List ℕ = after1 ++ hex_byte b2 in
    let rest3 : List ℕ = hex_byte b3 ++ post in
    let rest2 : List ℕ = hex_byte b2 ++ rest3 in
    let rest1 : List ℕ = hex_byte b1 ++ rest2 in
    let whole : List ℕ = pre ++ (hex_byte b0 ++ rest1) in
    let w1 : after0 ++ rest1 ≡ whole = append_assoc pre (hex_byte b0) rest1 in
    let w2 : after1 ++ rest2 ≡ whole = append_assoc after0 (hex_byte b1) rest2 ∙ w1 in
    let w3 : after2 ++ rest3 ≡ whole = append_assoc after1 (hex_byte b2) rest3 ∙ w2 in
    let l1 : length after0 ≡ at + 2 =
      omega (arith, length-append pre (hex_byte b0), length-hex_byte b0, e) in
    let l2 : length after1 ≡ at + 4 =
      omega (arith, length-append after0 (hex_byte b1), length-hex_byte b1, l1) in
    let l3 : length after2 ≡ at + 6 =
      omega (arith, length-append after1 (hex_byte b2), length-hex_byte b2, l2) in
    let e0 : byte_at whole at ≡ some b0 = byte_at-hex_byte pre rest1 b0 at p e in
    let e1 : byte_at whole (at + 2) ≡ some b1 =
      ap (λ w. byte_at w (at + 2)) (sym w1) ∙ byte_at-hex_byte after0 rest2 b1 (at + 2) q l1 in
    let e2 : byte_at whole (at + 4) ≡ some b2 =
      ap (λ w. byte_at w (at + 4)) (sym w2) ∙ byte_at-hex_byte after1 rest3 b2 (at + 4) r l2 in
    let e3 : byte_at whole (at + 6) ≡ some b3 =
      ap (λ w. byte_at w (at + 6)) (sym w3) ∙ byte_at-hex_byte after2 post b3 (at + 6) t l3 in
    rw (e0, e1, e2, e3) refl

pub length-to_hex32_le : (v : ℕ) → length (to_hex32_le v) ≡ 8
unfolding to_hex32_le hex_byte
length-to_hex32_le v = refl

to_hex32_le_bytes :
    (v : ℕ) (post : List ℕ)
    → to_hex32_le v ++ post
      ≡ hex_byte (v % 256)
        ++ (hex_byte (v / 2 ^ 8 % 256)
            ++ (hex_byte (v / 2 ^ 16 % 256) ++ (hex_byte (v / 2 ^ 24 % 256) ++ post)))
unfolding to_hex32_le
to_hex32_le_bytes v post =
    let low : ((v >>> 0) &&& 0xFF) ≡ v % 256 = bit_and_mask 8 (v >>> 0) ∙ omega arith in
    rw
      (
        to_hex32_le,
        low,
        bit_and_mask 8 (v >>> 8),
        bit_and_mask 8 (v >>> 16),
        bit_and_mask 8 (v >>> 24),
      )
      (simp append_assoc)

-- A printed word is read back, whatever stands around it.
pub from_hex32_le-to_hex32_le :
    (pre post : List ℕ) (v at : ℕ)
    → v < 2 ^ 32
    → length pre ≡ at
    → from_hex32_le (pre ++ (to_hex32_le v ++ post)) at ≡ some v
from_hex32_le-to_hex32_le pre post v at l e =
    let bytes : v % 256
          + v / 2 ^ 8 % 256 * 2 ^ 8
          + v / 2 ^ 16 % 256 * 2 ^ 16
          + v / 2 ^ 24 % 256 * 2 ^ 24
        ≡ v =
      omega arith in
    ap (λ h. from_hex32_le (pre ++ h) at) (to_hex32_le_bytes v post)
    ∙ bytes_in_row pre post (v % 256) (v / 2 ^ 8 % 256) (v / 2 ^ 16 % 256) (v / 2 ^ 24 % 256) at
        (omega arith) (omega arith) (omega arith) (omega arith) e
    ∙ ap some (
        four_bytes (v % 256) (v / 2 ^ 8 % 256) (v / 2 ^ 16 % 256) (v / 2 ^ 24 % 256) (omega arith)
          (omega arith) (omega arith) (omega arith)
        ∙ bytes)
