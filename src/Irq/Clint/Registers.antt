-- ===== src/Irq/Clint/Registers.antt =====
-- The 64-bit registers of the CLINT, which software reaches in two halves.
use virtual_so_c.Prelude.{ℕ, ◌+◌, ◌*◌, ◌^◌, ◌≤◌, ◌<◌, Bool, true, false, ◌≡◌, refl, arith}
use virtual_so_c.Prelude.Bits.{bit_and-le}
use virtual_so_c.Prelude.Halves.{set_low, set_high, set_high-set_low, set_low-lt, set_high-lt}
use virtual_so_c.Irq.Clint.Device.{Clint, tick, access}

-- The registers have their widths.
pub record IsSized (s : Clint) : Type 0 where
  pub mtime_lt : s.mtime < 2 ^ 64
  pub mtimecmp_lt : s.mtimecmp < 2 ^ 64
  pub msip_le : s.msip ≤ 1

-- The 64-bit registers and the software interrupt bit of the CLINT keep their widths when time
-- passes and in every access with a 32-bit word.
pub access-IsSized :
    (write : Bool) (addr val : ℕ) (s : Clint)
    → val < 2 ^ 32
    → IsSized s
    → IsSized (tick s).state × IsSized (access write addr val s).state
unfolding tick access
access-IsSized write addr val s l h = (
  record { mtime_lt = omega arith; mtimecmp_lt = h.mtimecmp_lt; msip_le = h.msip_le },
  record {
    mtime_lt =
        ground (arith, h.mtime_lt, set_low-lt s.mtime val h.mtime_lt l, set_high-lt s.mtime val l);
    mtimecmp_lt = ground (
      arith,
      h.mtimecmp_lt,
      set_low-lt s.mtimecmp val h.mtimecmp_lt l,
      set_high-lt s.mtimecmp val l,
    );
    msip_le = ground (arith, h.msip_le, bit_and-le val 1);
  },
)

-- The state after the two writes of a 64-bit register, and the words that reads of it return.
abbrev pub write_halves : ℕ → ℕ → ℕ → Clint → Clint
write_halves at lo hi s = (access true (at + 4) hi (access true at lo s).state).state

-- With the registers at their widths and 32-bit words, a value that software writes to `mtimecmp`
-- or to `mtime`, low half first, is the value of the register whatever it was, reads return its
-- halves, and the other register is untouched.
pub write_halves_lem :
    (lo hi any : ℕ) (s : Clint)
    → lo < 2 ^ 32
    → hi < 2 ^ 32
    → IsSized s
    → let t = write_halves 0x4000 lo hi s in
      let u = write_halves 0xBFF8 lo hi s in
      (t.mtimecmp ≡ hi * 2 ^ 32 + lo)
      × (t.mtime ≡ s.mtime)
      × ((access false 0x4000 any t).val ≡ lo)
      × ((access false 0x4004 any t).val ≡ hi)
      × (u.mtime ≡ hi * 2 ^ 32 + lo)
      × (u.mtimecmp ≡ s.mtimecmp)
      × ((access false 0xBFF8 any u).val ≡ lo)
      × ((access false 0xBFFC any u).val ≡ hi)
unfolding access
write_halves_lem lo hi any s p q h =
    let compare : set_high (set_low s.mtimecmp lo) hi ≡ hi * 2 ^ 32 + lo =
      set_high-set_low s.mtimecmp lo hi h.mtimecmp_lt p q in
    let time : set_high (set_low s.mtime lo) hi ≡ hi * 2 ^ 32 + lo =
      set_high-set_low s.mtime lo hi h.mtime_lt p q in
    (
      compare,
      refl,
      omega (arith, compare),
      omega (arith, compare),
      time,
      refl,
      omega (arith, time),
      omega (arith, time),
    )
