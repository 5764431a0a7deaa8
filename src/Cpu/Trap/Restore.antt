-- ===== src/Cpu/Trap/Restore.antt =====
-- A handler that returns at once resumes the interrupted program as it was.
use virtual_so_c.Prelude.{
  ℕ, ◌+◌, ◌-◌, ◌*◌, ◌≤◌, ◌<◌, false, not32, has_bits, ◌<<<◌, ◌&&&◌, ◌|||◌, ◌≡◌, refl, arith, inl,
  inr, ◌⊎◌,
}
use Prim.Native.Nat.{min, max}
use virtual_so_c.Prelude.Bits.{
  bit, bit-le-one, bit-bit_and, bit-bit_or, bit-complement, bit-zero, has_bits-pow,
}
use virtual_so_c.Prelude.Masks.{outside_of_bits}
use virtual_so_c.Cpu.Defs
use virtual_so_c.Cpu.Csr.Status.{mpp, mpp-bits}
use virtual_so_c.Cpu.State.{CpuState}
use virtual_so_c.Cpu.Trap.Entry.{take_trap, delegated, enter_m, m_entry_status, put_flag}
use virtual_so_c.Cpu.Trap.Flags.{bit-put_flag, bit-put_flag_ne}
use virtual_so_c.Cpu.Trap.Returns.{mret, mret_status}

-- The privilege levels U, S and M.
abbrev pub IsPriv : ℕ → Type 0
IsPriv p = (p ≡ 0) ⊎ (p ≡ 1) ⊎ (p ≡ 3)

-- The bits of `mstatus` that a trap into machine mode and back uses: MIE, MPIE and MPP.
abbrev pub m_trap_mask : ℕ
m_trap_mask = Defs.mstatus_mie ||| Defs.mstatus_mpie ||| Defs.mstatus_mpp_mask

-- A privilege, shifted into place, has its bits in the field MPP.
priv_field : (i p : ℕ) → IsPriv p → bit i (p <<< 11) ≤ bit i Defs.mstatus_mpp_mask
priv_field i p (inl e) = rw e (omega (arith, bit-zero i))
priv_field i p (inr (inl e)) = rw e (omega (arith, bit-bit_and i 2048 6144))
priv_field i p (inr (inr e)) = rw e (omega arith)

bit-m_entry :
    (i m p : ℕ)
    → i < 32
    → bit i (m_entry_status m p)
      ≡ max
          (min
            (min
              (bit i (put_flag m Defs.mstatus_mpie (has_bits m Defs.mstatus_mie)))
              (1 - bit i Defs.mstatus_mie))
            (1 - bit i Defs.mstatus_mpp_mask))
          (bit i (p <<< 11))
unfolding m_entry_status
bit-m_entry i m p l =
    let m1 : ℕ = put_flag m Defs.mstatus_mpie (has_bits m Defs.mstatus_mie) in
    omega (
      arith,
      bit-bit_or i (m1 &&& not32 Defs.mstatus_mie &&& not32 Defs.mstatus_mpp_mask) (p <<< 11),
      bit-bit_and i (m1 &&& not32 Defs.mstatus_mie) (not32 Defs.mstatus_mpp_mask),
      bit-bit_and i m1 (not32 Defs.mstatus_mie),
      bit-complement 32 i Defs.mstatus_mie l (omega arith),
      bit-complement 32 i Defs.mstatus_mpp_mask l (omega arith),
    )

bit-mret :
    (i m : ℕ)
    → i < 32
    → bit i (mret_status m)
      ≡ min
          (max
            (bit i (put_flag m Defs.mstatus_mie (has_bits m Defs.mstatus_mpie)))
            (bit i Defs.mstatus_mpie))
          (1 - bit i Defs.mstatus_mpp_mask)
unfolding mret_status
bit-mret i m l =
    let m1 : ℕ = put_flag m Defs.mstatus_mie (has_bits m Defs.mstatus_mpie) in
    omega (
      arith,
      bit-bit_and i (m1 ||| Defs.mstatus_mpie) (not32 Defs.mstatus_mpp_mask),
      bit-bit_or i m1 Defs.mstatus_mpie,
      bit-complement 32 i Defs.mstatus_mpp_mask l (omega arith),
    )

-- MPP on entry is the privilege that was left, and MPIE is MIE.
pub m_entry-mpp : (m p : ℕ) → IsPriv p → mpp (m_entry_status m p) ≡ p
m_entry-mpp m p h = ground (
  arith,
  mpp-bits (m_entry_status m p),
  bit-m_entry 11 m p (omega arith),
  bit-m_entry 12 m p (omega arith),
  field_11,
  field_12,
  top p h,
)
  where
    field_11 : bit 11 Defs.mstatus_mpp_mask ≡ 1
    field_11 = unfold bit in refl

    field_12 : bit 12 Defs.mstatus_mpp_mask ≡ 1
    field_12 = unfold bit in refl

    top : (q : ℕ) → IsPriv q → bit 11 (q <<< 11) + 2 * bit 12 (q <<< 11) ≡ q
    top q (inl e) = rw e (unfold bit in refl)
    top q (inr (inl e)) = rw e (unfold bit in refl)
    top q (inr (inr e)) = rw e (unfold bit in refl)

m_entry-mpie : (m p : ℕ) → IsPriv p → bit 7 (m_entry_status m p) ≡ bit 3 m
m_entry-mpie m p h = ground (
  arith,
  bit-m_entry 7 m p (omega arith),
  priv_field 7 p h,
  has_bits-pow 3 m,
  bit-le-one 3 m,
  bit-put_flag 7 m Defs.mstatus_mpie (has_bits m Defs.mstatus_mie) (omega arith) (omega arith)
      (unfold bit in refl),
  clear_3,
  clear_mpp,
)
  where
    clear_3 : bit 7 Defs.mstatus_mie ≡ 0
    clear_3 = unfold bit in refl

    clear_mpp : bit 7 Defs.mstatus_mpp_mask ≡ 0
    clear_mpp = unfold bit in refl

bit-m_trap_mask :
    (i : ℕ)
    → bit i m_trap_mask
      ≡ max (max (bit i Defs.mstatus_mie) (bit i Defs.mstatus_mpie)) (bit i Defs.mstatus_mpp_mask)
bit-m_trap_mask i = omega (
  arith,
  bit-bit_or i (Defs.mstatus_mie ||| Defs.mstatus_mpie) Defs.mstatus_mpp_mask,
  bit-bit_or i Defs.mstatus_mie Defs.mstatus_mpie,
)

m_round_trip-bit :
    (i m p : ℕ)
    → i < 32
    → IsPriv p
    → bit i m_trap_mask ≡ 0
    → bit i (mret_status (m_entry_status m p)) ≡ bit i m
m_round_trip-bit i m p l h out =
    let n : ℕ = m_entry_status m p in
    ground (
      arith,
      bit-m_trap_mask i,
      bit-mret i n l,
      bit-m_entry i m p l,
      priv_field i p h,
      bit-put_flag_ne i n Defs.mstatus_mie (has_bits n Defs.mstatus_mpie) l (omega arith),
      bit-put_flag_ne i m Defs.mstatus_mpie (has_bits m Defs.mstatus_mie) l (omega arith),
      bit-le-one i m,
    )

m_round_trip-mie : (m p : ℕ) → IsPriv p → bit 3 (mret_status (m_entry_status m p)) ≡ bit 3 m
m_round_trip-mie m p h =
    let n : ℕ = m_entry_status m p in
    ground (
      arith,
      bit-mret 3 n (omega arith),
      m_entry-mpie m p h,
      has_bits-pow 7 n,
      bit-le-one 3 m,
      bit-put_flag 3 n Defs.mstatus_mie (has_bits n Defs.mstatus_mpie) (omega arith) (omega arith)
          (unfold bit in refl),
      clear_7,
      clear_mpp,
    )
  where
    clear_7 : bit 3 Defs.mstatus_mpie ≡ 0
    clear_7 = unfold bit in refl

    clear_mpp : bit 3 Defs.mstatus_mpp_mask ≡ 0
    clear_mpp = unfold bit in refl

m_round_trip-outside :
    (m p : ℕ)
    → IsPriv p
    → (mret_status (m_entry_status m p) &&& not32 m_trap_mask) ≡ (m &&& not32 m_trap_mask)
m_round_trip-outside m p h =
    outside_of_bits (mret_status (m_entry_status m p)) m m_trap_mask (omega arith)
      λ i l out. m_round_trip-bit i m p l h out

-- The state of the core when the instruction at the handler's address is fetched.
abbrev pub at_handler : CpuState → CpuState
at_handler s = record s { pc = s.next_pc }

-- A trap taken into machine mode from U, S or M, followed by MRET at the handler, resumes at the
-- trapped instruction in the trapped privilege, with MIE as it was, `mstatus` unchanged outside
-- MIE, MPIE and MPP, and the registers untouched.
pub mret-take_trap :
    (s : CpuState) (cause tval raw : ℕ)
    → IsPriv s.priv
    → delegated s cause ≡ false
    → let back = (mret raw (at_handler (take_trap s cause tval))).0 in
      (back.next_pc ≡ (s.pc &&& not32 1))
      × (back.priv ≡ s.priv)
      × (back.regs ≡ s.regs)
      × (bit 3 back.csr.mstatus ≡ bit 3 s.csr.mstatus)
      × ((back.csr.mstatus &&& not32 m_trap_mask) ≡ (s.csr.mstatus &&& not32 m_trap_mask))
unfolding mret take_trap enter_m
mret-take_trap s cause tval raw h d = rw d (
  refl,
  m_entry-mpp s.csr.mstatus s.priv h,
  refl,
  m_round_trip-mie s.csr.mstatus s.priv h,
  m_round_trip-outside s.csr.mstatus s.priv h,
)
