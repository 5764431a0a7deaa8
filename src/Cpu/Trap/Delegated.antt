-- ===== src/Cpu/Trap/Delegated.antt =====
-- A supervisor's handler that returns at once resumes the interrupted program as it was.
use virtual_so_c.Prelude.{
  ℕ, ◌≤◌, ◌<◌, true, false, ◌==◌, not32, has_bits, ◌&&&◌, ◌|||◌, ◌≡◌, refl, ◌∙◌, arith,
  if◌then◌else◌,
}
use Prim.Native.Nat.{max}
use virtual_so_c.Prelude.Bits.{
  bit, bit-le-one, bit-bit_and, bit-bit_or, bit-complement, has_bits-pow,
}
use virtual_so_c.Prelude.Masks.{outside_of_bits}
use virtual_so_c.Cpu.Defs
use virtual_so_c.Cpu.State.{CpuState}
use virtual_so_c.Cpu.Trap.Entry.{take_trap, delegated, enter_s, s_entry_status, put_flag}
use virtual_so_c.Cpu.Trap.Flags.{bit-put_flag, bit-put_flag_ne}
use virtual_so_c.Cpu.Trap.Returns.{sret, sret_state, sret_status}
use virtual_so_c.Cpu.Trap.Restore.{at_handler}

-- The bits of `mstatus` that a trap into supervisor mode and back uses: SIE, SPIE and SPP.
abbrev pub s_trap_mask : ℕ
s_trap_mask = Defs.mstatus_sie ||| Defs.mstatus_spie ||| Defs.mstatus_spp

bit-s_trap_mask :
    (i : ℕ)
    → bit i s_trap_mask
      ≡ max (max (bit i Defs.mstatus_sie) (bit i Defs.mstatus_spie)) (bit i Defs.mstatus_spp)
bit-s_trap_mask i = omega (
  arith,
  bit-bit_or i (Defs.mstatus_sie ||| Defs.mstatus_spie) Defs.mstatus_spp,
  bit-bit_or i Defs.mstatus_sie Defs.mstatus_spie,
)

s_entry-other : (i m p : ℕ) → i < 32 → bit i s_trap_mask ≡ 0 → bit i (s_entry_status m p) ≡ bit i m
unfolding s_entry_status
s_entry-other i m p l z =
    let m1 : ℕ = put_flag m Defs.mstatus_spie (has_bits m Defs.mstatus_sie) in
    let m2 : ℕ = m1 &&& not32 Defs.mstatus_sie in
    ground (
      arith,
      bit-s_trap_mask i,
      bit-put_flag_ne i m2 Defs.mstatus_spp (p == 1) l (omega arith),
      bit-bit_and i m1 (not32 Defs.mstatus_sie),
      bit-complement 32 i Defs.mstatus_sie l (omega arith),
      bit-put_flag_ne i m Defs.mstatus_spie (has_bits m Defs.mstatus_sie) l (omega arith),
      bit-le-one i m,
    )

sret-other : (i m : ℕ) → i < 32 → bit i s_trap_mask ≡ 0 → bit i (sret_status m) ≡ bit i m
unfolding sret_status
sret-other i m l z =
    let m1 : ℕ = put_flag m Defs.mstatus_sie (has_bits m Defs.mstatus_spie) in
    ground (
      arith,
      bit-s_trap_mask i,
      bit-bit_and i (m1 ||| Defs.mstatus_spie) (not32 Defs.mstatus_spp),
      bit-bit_or i m1 Defs.mstatus_spie,
      bit-complement 32 i Defs.mstatus_spp l (omega arith),
      bit-put_flag_ne i m Defs.mstatus_sie (has_bits m Defs.mstatus_spie) l (omega arith),
      bit-le-one i m,
    )

-- SPP on entry tells the privilege that was left, and SPIE is SIE.
s_entry-spp : (m p : ℕ) → bit 8 (s_entry_status m p) ≡ (if p == 1 then 1 else 0)
unfolding s_entry_status
s_entry-spp m p =
    let m1 : ℕ = put_flag m Defs.mstatus_spie (has_bits m Defs.mstatus_sie) in
    bit-put_flag 8 (m1 &&& not32 Defs.mstatus_sie) Defs.mstatus_spp (p == 1) (omega arith)
      (omega arith) (unfold bit in refl)

s_entry-spie : (m p : ℕ) → bit 5 (s_entry_status m p) ≡ bit 1 m
unfolding s_entry_status
s_entry-spie m p =
    let m1 : ℕ = put_flag m Defs.mstatus_spie (has_bits m Defs.mstatus_sie) in
    ground (
      arith,
      bit-put_flag_ne 5 (m1 &&& not32 Defs.mstatus_sie) Defs.mstatus_spp (p == 1) (omega arith)
          (omega arith) (unfold bit in refl),
      bit-bit_and 5 m1 (not32 Defs.mstatus_sie),
      kept,
      bit-put_flag 5 m Defs.mstatus_spie (has_bits m Defs.mstatus_sie) (omega arith) (omega arith)
          (unfold bit in refl),
      has_bits-pow 1 m,
      bit-le-one 1 m,
    )
  where
    kept : bit 5 (not32 Defs.mstatus_sie) ≡ 1
    kept = unfold bit in refl

sret-sie : (m : ℕ) → bit 1 (sret_status m) ≡ bit 5 m
unfolding sret_status
sret-sie m =
    let m1 : ℕ = put_flag m Defs.mstatus_sie (has_bits m Defs.mstatus_spie) in
    ground (
      arith,
      bit-bit_and 1 (m1 ||| Defs.mstatus_spie) (not32 Defs.mstatus_spp),
      bit-bit_or 1 m1 Defs.mstatus_spie,
      kept,
      clear,
      bit-put_flag 1 m Defs.mstatus_sie (has_bits m Defs.mstatus_spie) (omega arith) (omega arith)
          (unfold bit in refl),
      has_bits-pow 5 m,
      bit-le-one 5 m,
    )
  where
    kept : bit 1 (not32 Defs.mstatus_spp) ≡ 1
    kept = unfold bit in refl

    clear : bit 1 Defs.mstatus_spie ≡ 0
    clear = unfold bit in refl

s_round_trip-outside :
    (m p : ℕ) → (sret_status (s_entry_status m p) &&& not32 s_trap_mask) ≡ (m &&& not32 s_trap_mask)
s_round_trip-outside m p =
    outside_of_bits (sret_status (s_entry_status m p)) m s_trap_mask (omega arith)
      λ i l z. omega (arith, sret-other i (s_entry_status m p) l z, s_entry-other i m p l z)

-- The privilege that SRET returns to.
back_to : (m p : ℕ) → p ≤ 1 → (if has_bits (s_entry_status m p) Defs.mstatus_spp then 1 else 0) ≡ p
back_to m p u = ground (arith, has_bits-pow 8 (s_entry_status m p), s_entry-spp m p)

s_entry-tsr :
    (m p : ℕ) → has_bits (s_entry_status m p) Defs.mstatus_tsr ≡ has_bits m Defs.mstatus_tsr
s_entry-tsr m p = ground (
  arith,
  has_bits-pow 22 m,
  has_bits-pow 22 (s_entry_status m p),
  s_entry-other 22 m p (omega arith) (unfold bit in refl),
)

-- A delegated trap taken from U or S while TSR is clear, followed by SRET at the handler, resumes
-- at the trapped instruction in the trapped privilege, with SIE as it was, `mstatus` unchanged
-- outside SIE, SPIE and SPP, and the registers untouched.
pub sret-take_trap :
    (s : CpuState) (cause tval raw : ℕ)
    → s.priv ≤ 1
    → delegated s cause ≡ true
    → has_bits s.csr.mstatus Defs.mstatus_tsr ≡ false
    → let back = (sret raw (at_handler (take_trap s cause tval))).0 in
      (back.next_pc ≡ (s.pc &&& not32 1))
      × (back.priv ≡ s.priv)
      × (back.regs ≡ s.regs)
      × (bit 1 back.csr.mstatus ≡ bit 1 s.csr.mstatus)
      × ((back.csr.mstatus &&& not32 s_trap_mask) ≡ (s.csr.mstatus &&& not32 s_trap_mask))
unfolding sret sret_state take_trap enter_s
sret-take_trap s cause tval raw u d t =
    let m : ℕ = s.csr.mstatus in
    let n : ℕ = s_entry_status m s.priv in
    let allowed : has_bits n Defs.mstatus_tsr ≡ false = s_entry-tsr m s.priv ∙ t in
    rw (d, allowed)
      (
        refl,
        back_to m s.priv u,
        refl,
        sret-sie n ∙ s_entry-spie m s.priv,
        s_round_trip-outside m s.priv,
      )
