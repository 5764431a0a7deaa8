-- ===== src/Cpu/Csr/Lines.antt =====
-- The bits of `mip` that the interrupt controllers drive.
use virtual_so_c.Prelude.{
  ℕ, ◌^◌, ◌<◌, Bool, true, false, ◌==◌, ◌≡◌, ◌≢◌, refl, arith, not32, ◌<<<◌, ◌&&&◌,
}
use virtual_so_c.Prelude.Bits.{
  bit, bit-bit_and, bit-bit_or, bit-complement, bit-le-one, bit_or-lt, bit_and-le,
}
use virtual_so_c.Prelude.Masks.{shift-lt, bit-shift_self, bit-shift_ne}
use virtual_so_c.Cpu.Csr.File.{Csr, CsrName, mstatus, set_hw_bit, mip, sip, get_mip}
use virtual_so_c.Cpu.Csr.Access.{write, write_case, write_mstatus}
use virtual_so_c.Cpu.Csr.Cases.{write_ind}

-- The hardware's line to bit `b` of `mip` is at `v`, and software has not set the bit.
pub record IsDriven (b : ℕ) (v : Bool) (c : Csr) : Type 0 where
  pub level : (bit b c.hw_mip == 1) ≡ v
  pub lines_lt : c.hw_mip < 2 ^ 32
  pub software : bit b c.sw_mip ≡ 0

-- So the bit that the core sees is the line.
pub bit-get_mip : (b : ℕ) (v : Bool) (c : Csr) → IsDriven b v c → (bit b (get_mip c) == 1) ≡ v
unfolding get_mip
bit-get_mip b v c h =
    ground (arith, bit-bit_or b c.sw_mip c.hw_mip, bit-le-one b c.hw_mip, h.software, h.level)

set_hw_bit-lt :
    (b : ℕ) (v : Bool) (c : Csr) → b < 32 → c.hw_mip < 2 ^ 32 → (set_hw_bit b v c).hw_mip < 2 ^ 32
unfolding set_hw_bit
set_hw_bit-lt b true c l h = bit_or-lt 32 c.hw_mip (1 <<< b) h (shift-lt b l)
set_hw_bit-lt b false c l h = omega (arith, bit_and-le c.hw_mip (not32 (1 <<< b)))

-- A callback sets its own line, and leaves the others.
pub set_hw_bit-IsDriven :
    (b : ℕ) (v w : Bool) (c : Csr) → b < 32 → IsDriven b w c → IsDriven b v (set_hw_bit b v c)
unfolding set_hw_bit
set_hw_bit-IsDriven b true w c l h = record {
  level = ground (arith, bit-bit_or b c.hw_mip (1 <<< b), bit-shift_self b, bit-le-one b c.hw_mip);
  lines_lt = set_hw_bit-lt b true c l h.lines_lt;
  software = h.software;
}
set_hw_bit-IsDriven b false w c l h = record {
  level = ground (
    arith,
    bit-bit_and b c.hw_mip (not32 (1 <<< b)),
    bit-complement 32 b (1 <<< b) l (shift-lt b l),
    bit-shift_self b,
    bit-le-one b c.hw_mip,
  );
  lines_lt = set_hw_bit-lt b false c l h.lines_lt;
  software = h.software;
}

pub set_hw_bit-other :
    (i b : ℕ) (v w : Bool) (c : Csr)
    → i < 32
    → b < 32
    → i ≢ b
    → IsDriven i w c
    → IsDriven i w (set_hw_bit b v c)
unfolding set_hw_bit
set_hw_bit-other i b true w c k l n h = record {
  level =
      ground (
        arith,
        bit-bit_or i c.hw_mip (1 <<< b),
        bit-shift_ne i b n,
        bit-le-one i c.hw_mip,
        h.level,
      );
  lines_lt = set_hw_bit-lt b true c l h.lines_lt;
  software = h.software;
}
set_hw_bit-other i b false w c k l n h = record {
  level = ground (
    arith,
    bit-bit_and i c.hw_mip (not32 (1 <<< b)),
    bit-complement 32 i (1 <<< b) k (shift-lt b l),
    bit-shift_ne i b n,
    bit-le-one i c.hw_mip,
    h.level,
  );
  lines_lt = set_hw_bit-lt b false c l h.lines_lt;
  software = h.software;
}

write_mstatus-hw_mip : (val : ℕ) (c : Csr) → (write_mstatus val c).hw_mip ≡ c.hw_mip
unfolding write_mstatus
write_mstatus-hw_mip val c = ground arith

write_case-hw_mip : (n : CsrName) (val : ℕ) (c : Csr) → (write_case n val c).file.hw_mip ≡ c.hw_mip
unfolding write_case
write_case-hw_mip mstatus val c = write_mstatus-hw_mip val c
write_case-hw_mip _ val c = refl

-- Software writes SSIP alone.
bit-ssip : (b val : ℕ) → b ≢ 1 → bit b (val &&& 1 <<< 1) ≡ 0
bit-ssip b val n = omega (arith, bit-bit_and b val (1 <<< 1), bit-shift_ne b 1 n)

write_mstatus-sw_mip : (val : ℕ) (c : Csr) → (write_mstatus val c).sw_mip ≡ c.sw_mip
unfolding write_mstatus
write_mstatus-sw_mip val c = ground arith

write_case-sw_mip :
    (n : CsrName) (val b : ℕ) (c : Csr)
    → b ≢ 1
    → bit b c.sw_mip ≡ 0
    → bit b (write_case n val c).file.sw_mip ≡ 0
unfolding write_case
write_case-sw_mip mip val b c n h = bit-ssip b val n
write_case-sw_mip sip val b c n h = bit-ssip b val n
write_case-sw_mip mstatus val b c n h = rw (write_mstatus-sw_mip val c) h
write_case-sw_mip _ val b c n h = h

-- Software cannot write them.
pub write-IsDriven :
    (b : ℕ) (v : Bool) (addr priv val : ℕ) (c : Csr)
    → b ≢ 1
    → IsDriven b v c
    → IsDriven b v (write addr priv val c).file
write-IsDriven b v addr priv val c n h =
    let same : (write addr priv val c).file.hw_mip ≡ c.hw_mip =
      write_ind (λ w. w.file.hw_mip ≡ c.hw_mip) addr priv val c refl
        λ n granted writable. write_case-hw_mip n val c in
    record {
      level = rw same h.level;
      lines_lt = rw same h.lines_lt;
      software =
          write_ind (λ w. bit b w.file.sw_mip ≡ 0) addr priv val c h.software
            λ name granted writable. write_case-sw_mip name val b c n h.software;
    }
