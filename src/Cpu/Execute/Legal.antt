-- ===== src/Cpu/Execute/Legal.antt =====
-- The invariant of the core: a legal privilege, now and in the field MPP.
use virtual_so_c.Prelude.{
  ℕ, ◌<◌, ◌+◌, ◌≡◌, ◌≢◌, refl, arith, ◌&&&◌, ◌|||◌, not32, has_bits, ◌&&◌, u32, Bool-cases, inl,
  inr, ltb, ◌==◌, ◌>>>◌,
}
use virtual_so_c.Prelude.Bits.{bit, bit-bit_and, bit-complement, bit-le-one, bit_and-le}
use virtual_so_c.Cpu.Defs
use virtual_so_c.Cpu.Csr.File.{sstatus_mask}
use virtual_so_c.Cpu.Csr.Access as Csr
use virtual_so_c.Cpu.Csr.Status.{mpp, mpp-bits, mpp-cleared, write-mpp}
use virtual_so_c.Cpu.Decode.Instr.{DecodedInstr, instr_len}
use virtual_so_c.Cpu.State.{CpuState, initial}
use virtual_so_c.Cpu.Trap.Entry.{put_flag, take_trap, enter_s, enter_m, delegated, s_entry_status}
use virtual_so_c.Cpu.Trap.Flags.{bit-put_flag_ne}
use virtual_so_c.Cpu.Trap.Returns.{mret, mret_state, mret_status, sret, sret_status, sret_state}
use virtual_so_c.Cpu.Trap.Restore.{IsPriv, m_entry-mpp}
use virtual_so_c.Cpu.Execute.Memory.{MemIf}
use virtual_so_c.Cpu.Execute.System.{csr_write}
use virtual_so_c.Cpu.Execute.Dispatch.{execute}
use virtual_so_c.Cpu.Execute.Frame.{SameRights, run-rel}
use virtual_so_c.Cpu.Execute.Isolation.{bit-sstatus_mask, sret_status-outside}

-- The core runs at U, S or M, and MRET cannot return to the reserved privilege 2.
pub record IsLegal (s : CpuState) : Type 0 where
  pub level : IsPriv s.priv
  pub previous : mpp s.csr.mstatus ≢ 2

pub initial-IsLegal : IsLegal initial
initial-IsLegal = record { level = inr (inr refl); previous = ground arith }

IsPriv-of_lt : (p : ℕ) → p < 4 → p ≢ 2 → IsPriv p
IsPriv-of_lt p l n = grind arith

mret_state-IsLegal : (s : CpuState) → IsLegal s → IsLegal (mret_state s)
unfolding mret_state mret_status
mret_state-IsLegal s h =
    let m1 : ℕ =
      put_flag s.csr.mstatus Defs.mstatus_mie (has_bits s.csr.mstatus Defs.mstatus_mpie)
      ||| Defs.mstatus_mpie in
    record {
      level =
          IsPriv-of_lt (mpp s.csr.mstatus) (omega (arith, bit_and-le (s.csr.mstatus >>> 11) 3))
            h.previous;
      previous = ground (arith, mpp-cleared m1);
    }

sret_status-mpp : (m : ℕ) → mpp (sret_status m) ≡ mpp m
sret_status-mpp m = omega (
  arith,
  mpp-bits m,
  mpp-bits (sret_status m),
  sret_status-outside 11 m (omega arith) (unfold bit in refl),
  sret_status-outside 12 m (omega arith) (unfold bit in refl),
)

sret_state-IsLegal : (s : CpuState) → IsLegal s → IsLegal (sret_state s)
unfolding sret_state
sret_state-IsLegal s h = record {
  level = ground arith;
  previous = ground (arith, sret_status-mpp s.csr.mstatus, h.previous);
}

mret-IsLegal : (raw : ℕ) (s : CpuState) → IsLegal s → IsLegal (mret raw s).0
unfolding mret
mret-IsLegal raw s h = elim (Bool-cases (ltb s.priv 3)) [
  | inl low ↦ rw low h
  | inr top ↦ rw top (mret_state-IsLegal s h)
]

sret-IsLegal : (raw : ℕ) (s : CpuState) → IsLegal s → IsLegal (sret raw s).0
unfolding sret
sret-IsLegal raw s h = elim (Bool-cases (ltb s.priv 1)) [
  | inl low ↦ rw low h
  | inr reached ↦
      rw reached (elim (Bool-cases (has_bits s.csr.mstatus Defs.mstatus_tsr && s.priv == 1)) [
        | inl trapped ↦ rw trapped h
        | inr free ↦ rw free (sret_state-IsLegal s h)
      ])
]

IsLegal-of_SameRights : {s t : CpuState} → SameRights s t → IsLegal s → IsLegal t
IsLegal-of_SameRights h l = record { level = rw h.0 l.level; previous = rw h.1 l.previous }

module _ {W : Type 0} (m : MemIf W) where
  csr_write-IsLegal :
      (val : ℕ) (d : DecodedInstr) (s : CpuState) (w : W)
      → IsLegal s
      → IsLegal (csr_write m val d s w).cpu
  unfolding csr_write
  csr_write-IsLegal val d s w l = elim (Bool-cases ((Csr.write d.csr s.priv val s.csr).ok)) [
    | inl ok ↦
        rw ok (record { level = l.level; previous = write-mpp d.csr s.priv val s.csr l.previous })
    | inr bad ↦ rw bad l
  ]

  -- Every instruction, at any operands and with any memory, keeps the core at the level U, S or M
  -- with a field MPP that is not the reserved value 2.
  pub execute-IsLegal :
      (d : DecodedInstr) (s : CpuState) (w : W) → IsLegal s → IsLegal (execute m d s w).cpu
  unfolding execute
  execute-IsLegal d s w l =
      let t : CpuState = record s { next_pc = u32 (s.pc + instr_len d) } in
      let t-legal : IsLegal t = IsLegal-of_SameRights (refl, refl) l in
      run-rel m 3 (λ a b. IsLegal a → IsLegal b) (λ a b z h k. IsLegal-of_SameRights h k)
        (λ a b c h k j. k (IsLegal-of_SameRights h j))
        (λ val e a v z k. csr_write-IsLegal val e a v k) d.type d t w (omega (arith, l.level))
        (mret-IsLegal d.raw t) (sret-IsLegal d.raw t) t-legal

s_entry_status-outside :
    (i m p : ℕ) → i < 32 → bit i sstatus_mask ≡ 0 → bit i (s_entry_status m p) ≡ bit i m
unfolding s_entry_status
s_entry_status-outside i m p l z =
    let m1 : ℕ = put_flag m Defs.mstatus_spie (has_bits m Defs.mstatus_sie) in
    let m2 : ℕ = m1 &&& not32 Defs.mstatus_sie in
    ground (
      arith,
      bit-sstatus_mask i,
      bit-put_flag_ne i m2 Defs.mstatus_spp (p == 1) l (omega arith),
      bit-bit_and i m1 (not32 Defs.mstatus_sie),
      bit-complement 32 i Defs.mstatus_sie l (omega arith),
      bit-put_flag_ne i m Defs.mstatus_spie (has_bits m Defs.mstatus_sie) l (omega arith),
      bit-le-one i m,
    )

s_entry_status-mpp : (m p : ℕ) → mpp (s_entry_status m p) ≡ mpp m
s_entry_status-mpp m p = omega (
  arith,
  mpp-bits m,
  mpp-bits (s_entry_status m p),
  s_entry_status-outside 11 m p (omega arith) (unfold bit in refl),
  s_entry_status-outside 12 m p (omega arith) (unfold bit in refl),
)

-- Trap entry, delegated or not, keeps the core at the level U, S or M with a field MPP that is
-- not the reserved value 2.
pub take_trap-IsLegal :
    (s : CpuState) (cause tval : ℕ) → IsLegal s → IsLegal (take_trap s cause tval)
unfolding take_trap enter_s enter_m
take_trap-IsLegal s cause tval l = elim (Bool-cases (delegated s cause)) [
  | inl d ↦ rw d (record {
    level = inr (inl refl);
    previous = ground (arith, s_entry_status-mpp s.csr.mstatus s.priv, l.previous);
  })
  | inr d ↦ rw d (record {
    level = inr (inr refl);
    previous = ground (arith, m_entry-mpp s.csr.mstatus s.priv l.level, l.level);
  })
]
