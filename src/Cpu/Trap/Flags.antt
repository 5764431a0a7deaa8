-- ===== src/Cpu/Trap/Flags.antt =====
-- The bits of a word in which one flag is written.
use virtual_so_c.Prelude.{ℕ, ◌^◌, ◌<◌, Bool, if◌then◌else◌, not32, ◌&&&◌, ◌≡◌, arith}
use virtual_so_c.Prelude.Bits.{bit, bit-le-one, bit-bit_and, bit-bit_or, bit-complement, bit-zero}
use virtual_so_c.Cpu.Trap.Entry.{put_flag}

pub bit-put_flag :
    (i m flag : ℕ) (b : Bool)
    → i < 32
    → flag < 2 ^ 32
    → bit i flag ≡ 1
    → bit i (put_flag m flag b) ≡ (if b then 1 else 0)
bit-put_flag i m flag b l f o = ground (
  arith,
  bit-bit_or i (m &&& not32 flag) (if b then flag else 0),
  bit-bit_and i m (not32 flag),
  bit-complement 32 i flag l f,
  bit-zero i,
)

pub bit-put_flag_ne :
    (i m flag : ℕ) (b : Bool)
    → i < 32
    → flag < 2 ^ 32
    → bit i flag ≡ 0
    → bit i (put_flag m flag b) ≡ bit i m
bit-put_flag_ne i m flag b l f o = ground (
  arith,
  bit-bit_or i (m &&& not32 flag) (if b then flag else 0),
  bit-bit_and i m (not32 flag),
  bit-complement 32 i flag l f,
  bit-zero i,
  bit-le-one i m,
)
