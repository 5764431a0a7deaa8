-- ===== src/Cpu/Execute/Frame.antt =====
-- Which parts of an instruction touch the privilege and the CSRs.
use virtual_so_c.Prelude.{
  ℕ, ◌≤◌, Bool, true, false, Option, none, some, ◌==◌, ◌≡◌, refl, arith, Bool-cases, inl, inr,
}
use virtual_so_c.Cpu.Csr.Access as Csr
use virtual_so_c.Cpu.Decode.Instr.{InstrType, DecodedInstr}
use virtual_so_c.Cpu.State.{CpuState, set_reg}
use virtual_so_c.Cpu.Trap.Returns.{mret, sret}
use virtual_so_c.Cpu.Execute.Memory.{MemIf}
use virtual_so_c.Cpu.Execute.Loads.{
  load_byte, load_aligned, store_to, store_aligned, load_reserved, store_conditional, atomic,
}
use virtual_so_c.Cpu.Execute.System.{
  csr_write, csr_swap, csr_swap_read, csr_modify_read, csr_modify,
}
use virtual_so_c.Cpu.Execute.Dispatch.{run, jump_if}

-- The privilege and the CSRs of two states are the same, but for the interrupt bits that devices
-- drive.
abbrev pub SameRights : CpuState → CpuState → Type 0
SameRights s t = (t.priv ≡ s.priv) × (t.csr ≡ record (s.csr) { hw_mip = t.csr.hw_mip })

pub set_reg-SameRights : (i v : ℕ) (s : CpuState) → SameRights s (set_reg i v s)
unfolding set_reg
set_reg-SameRights i v s = ground arith

-- An instruction that is none of the CSR instructions, MRET and SRET.
abbrev pub is_plain : InstrType → Bool
is_plain InstrType.csrrw = false
is_plain InstrType.csrrs = false
is_plain InstrType.csrrc = false
is_plain InstrType.csrrwi = false
is_plain InstrType.csrrsi = false
is_plain InstrType.csrrci = false
is_plain InstrType.mret = false
is_plain InstrType.sret = false
is_plain _ = true

module _ {W : Type 0} (m : MemIf W) where
  run_plain :
      (t : InstrType) (d : DecodedInstr) (s : CpuState) (w : W)
      → is_plain t ≡ true
      → SameRights s (run m t d s w).cpu
  unfolding run set_reg jump_if load_byte load_aligned store_to store_aligned load_reserved
      store_conditional atomic
  run_plain InstrType.lui d s w p = ground arith
  run_plain _ d s w p = ground arith

-- A relation that sees only privileges and CSRs, and that a CSR write at privilege `k` or less
-- satisfies, is satisfied by every CSR instruction there.
module _ {W : Type 0} (m : MemIf W) (k : ℕ) (P : CpuState → CpuState → Type 0)
    (same : (s t : CpuState) → s.priv ≤ k → SameRights s t → P s t)
    (before : (s t u : CpuState) → SameRights s t → P t u → P s u)
    (writes : (val : ℕ) (d : DecodedInstr) (s : CpuState) (w : W)
      → s.priv ≤ k
      → P s (csr_write m val d s w).cpu) where
  csr_write_after :
      (i v val : ℕ) (d : DecodedInstr) (s : CpuState) (w : W)
      → s.priv ≤ k
      → P s (csr_write m val d (set_reg i v s) w).cpu
  csr_write_after i v val d s w u =
      let kept = set_reg-SameRights i v s in
      before s (set_reg i v s) (csr_write m val d (set_reg i v s) w).cpu kept
        (writes val d (set_reg i v s) w (omega (arith, kept.0)))

  csr_swap_read-rel :
      (o : Option ℕ) (val : ℕ) (d : DecodedInstr) (s : CpuState) (w : W)
      → s.priv ≤ k
      → P s (csr_swap_read m o val d s w).cpu
  unfolding csr_swap_read
  csr_swap_read-rel none val d s w u = same s s u (refl, refl)
  csr_swap_read-rel (some old) val d s w u = csr_write_after d.rd old val d s w u

  csr_swap-rel :
      (val : ℕ) (d : DecodedInstr) (s : CpuState) (w : W)
      → s.priv ≤ k
      → P s (csr_swap m val d s w).cpu
  unfolding csr_swap
  csr_swap-rel val d s w u = elim (Bool-cases (d.rd == 0)) [
    | inl z ↦ rw z (writes val d s w u)
    | inr nz ↦ rw nz (csr_swap_read-rel (Csr.read d.csr s.priv s.csr) val d s w u)
  ]

  csr_modify_read-rel :
      (o : Option ℕ) (next : ℕ → ℕ) (d : DecodedInstr) (s : CpuState) (w : W)
      → s.priv ≤ k
      → P s (csr_modify_read m o next d s w).cpu
  unfolding csr_modify_read
  csr_modify_read-rel none next d s w u = same s s u (refl, refl)
  csr_modify_read-rel (some old) next d s w u = elim (Bool-cases (d.rs1 == 0)) [
    | inl z ↦ rw z (same s (set_reg d.rd old s) u (set_reg-SameRights d.rd old s))
    | inr nz ↦ rw nz (csr_write_after d.rd old (next old) d s w u)
  ]

  csr_modify-rel :
      (next : ℕ → ℕ) (d : DecodedInstr) (s : CpuState) (w : W)
      → s.priv ≤ k
      → P s (csr_modify m next d s w).cpu
  unfolding csr_modify
  csr_modify-rel next d s w u = csr_modify_read-rel (Csr.read d.csr s.priv s.csr) next d s w u

  -- Every instruction satisfies it, if MRET and SRET do.
  pub run-rel :
      (t : InstrType) (d : DecodedInstr) (s : CpuState) (w : W)
      → s.priv ≤ k
      → P s (mret d.raw s).0
      → P s (sret d.raw s).0
      → P s (run m t d s w).cpu
  unfolding run
  run-rel InstrType.csrrw d s w u pm ps = csr_swap-rel _ d s w u
  run-rel InstrType.csrrwi d s w u pm ps = csr_swap-rel _ d s w u
  run-rel InstrType.csrrs d s w u pm ps = csr_modify-rel _ d s w u
  run-rel InstrType.csrrc d s w u pm ps = csr_modify-rel _ d s w u
  run-rel InstrType.csrrsi d s w u pm ps = csr_modify-rel _ d s w u
  run-rel InstrType.csrrci d s w u pm ps = csr_modify-rel _ d s w u
  run-rel InstrType.mret d s w u pm ps = pm
  run-rel InstrType.sret d s w u pm ps = ps
  run-rel t d s w u pm ps = same s (run m t d s w).cpu u (run_plain m t d s w refl)
