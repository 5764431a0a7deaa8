-- ===== src/Cpu/Execute/Isolation.antt =====
-- What an instruction can do to the privilege and to the CSRs, at each privilege.
use virtual_so_c.Prelude.{
  ℕ, ◌≤◌, ◌<◌, ◌+◌, ◌^◌, ◌≡◌, refl, arith, ◌&&◌, ◌|||◌, not32, has_bits, ap, ◌∙◌, ltb, ◌==◌, u32,
  Bool-cases, inl, inr,
}
use Prim.Native.Nat.{max}
use virtual_so_c.Prelude.Bits.{bit, bit-bit_and, bit-bit_or, bit-complement, bit-le-one}
use virtual_so_c.Prelude.Masks.{outside_of_bits}
use virtual_so_c.Cpu.Defs
use virtual_so_c.Cpu.Csr.File.{sstatus_mask, get_mip, Csr}
use virtual_so_c.Cpu.Csr.Access as Csr
use mathlib.Core.Path.{subst}
use virtual_so_c.Cpu.Csr.Isolation.{
  MachineKept, MachineKept-refl, write-MachineKept, write-user, s_fields,
}
use virtual_so_c.Cpu.Decode.Instr.{DecodedInstr, instr_len}
use virtual_so_c.Cpu.State.{CpuState}
use virtual_so_c.Cpu.Trap.Entry.{put_flag}
use virtual_so_c.Cpu.Trap.Flags.{bit-put_flag_ne}
use virtual_so_c.Cpu.Trap.Returns.{mret, sret, sret_status, sret_state}
use virtual_so_c.Cpu.Execute.Memory.{MemIf}
use virtual_so_c.Cpu.Execute.System.{csr_write}
use virtual_so_c.Cpu.Execute.Dispatch.{execute, run}
use virtual_so_c.Cpu.Execute.Frame.{SameRights, run-rel}

mret-user : (raw : ℕ) (s : CpuState) → s.priv ≤ 1 → (mret raw s).0 ≡ s
unfolding mret
mret-user raw s u = ground arith

sret-user : (raw : ℕ) (s : CpuState) → s.priv ≡ 0 → (sret raw s).0 ≡ s
unfolding sret
sret-user raw s u = ground arith

rights_of_eq : {s t : CpuState} → t ≡ s → SameRights s t
rights_of_eq e = rw e (refl, refl)

rights_after : (s t u : CpuState) → SameRights s t → SameRights t u → SameRights s u
rights_after s t u h k = (k.0 ∙ h.0, k.1 ∙ ap (λ (c : Csr). record c { hw_mip = u.csr.hw_mip }) h.1)

module _ {W : Type 0} (m : MemIf W) where
  -- The CSR instructions in user mode: no CSR write is accepted.
  csr_write-user :
      (val : ℕ) (d : DecodedInstr) (s : CpuState) (w : W)
      → s.priv ≡ 0
      → (csr_write m val d s w).cpu ≡ s
  unfolding csr_write
  csr_write-user val d s w u =
      let r : Csr.write d.csr s.priv val s.csr ≡ Csr.refused s.csr =
        rw u (write-user d.csr val s.csr) in
      rw r refl

  -- In user mode no instruction, whatever its operands, changes the privilege or any CSR, but for
  -- the interrupt bits of `mip` that devices drive, which the memory it accesses may change.
  pub execute-user :
      (d : DecodedInstr) (s : CpuState) (w : W) → s.priv ≡ 0 → SameRights s (execute m d s w).cpu
  unfolding execute
  execute-user d s w u =
      let t : CpuState = record s { next_pc = u32 (s.pc + instr_len d) } in
      run-rel m 0 SameRights (λ a b z h. h) (λ a b c h k. rights_after a b c h k)
        (λ val e a v z. rights_of_eq (csr_write-user val e a v (omega arith))) d.type d t w
        (omega arith) (rights_of_eq (mret-user d.raw t (omega arith)))
        (rights_of_eq (sret-user d.raw t u))

-- What is left to supervisor mode: the privilege stays below machine mode, and the machine-level
-- state stays as it was, but for the interrupt bits that devices drive.
pub record Confined (s t : CpuState) : Type 0 where
  pub below_machine : t.priv ≤ 1
  pub kept : MachineKept (record (s.csr) { hw_mip = t.csr.hw_mip }) t.csr

pub bit-sstatus_mask :
    (i : ℕ)
    → bit i sstatus_mask
      ≡ max
          (max (bit i Defs.mstatus_sie) (bit i Defs.mstatus_spie))
          (max (bit i Defs.mstatus_spp) (bit i (2 ^ 18 + 2 ^ 19)))
bit-sstatus_mask i = omega (
  arith,
  bit-bit_or i 0x22 (0x100 ||| (2 ^ 18 + 2 ^ 19)),
  bit-bit_or i Defs.mstatus_sie Defs.mstatus_spie,
  bit-bit_or i 0x100 (2 ^ 18 + 2 ^ 19),
)

pub sret_status-outside :
    (i m : ℕ) → i < 32 → bit i sstatus_mask ≡ 0 → bit i (sret_status m) ≡ bit i m
unfolding sret_status
sret_status-outside i m l z =
    let m1 : ℕ = put_flag m Defs.mstatus_sie (has_bits m Defs.mstatus_spie) in
    ground (
      arith,
      bit-sstatus_mask i,
      bit-bit_and i (m1 ||| Defs.mstatus_spie) (not32 Defs.mstatus_spp),
      bit-bit_or i m1 Defs.mstatus_spie,
      bit-complement 32 i Defs.mstatus_spp l (omega arith),
      bit-put_flag_ne i m Defs.mstatus_sie (has_bits m Defs.mstatus_spie) l (omega arith),
      bit-le-one i m,
    )

MachineKept-of_eq : (c d : Csr) → d ≡ c → MachineKept c d
MachineKept-of_eq c d e = rw e (MachineKept-refl c)

Confined-of_SameRights : {s t : CpuState} → s.priv ≤ 1 → SameRights s t → Confined s t
Confined-of_SameRights {s} {t} u h = record {
  below_machine = omega (arith, h.0);
  kept = MachineKept-of_eq _ _ h.1;
}

sret_state-Confined : (s : CpuState) → Confined s (sret_state s)
unfolding sret_state get_mip
sret_state-Confined s = record {
  below_machine = ground arith;
  kept = record {
    registers = ground arith;
    mstatus_kept =
        outside_of_bits (sret_status s.csr.mstatus) s.csr.mstatus s_fields (omega arith)
          λ i l z. sret_status-outside i s.csr.mstatus l z;
    mie_kept = refl;
    mip_kept = λ i n. omega arith;
  };
}

sret-Confined : (raw : ℕ) (s : CpuState) → s.priv ≤ 1 → Confined s (sret raw s).0
unfolding sret
sret-Confined raw s u =
    let stay : Confined s s = Confined-of_SameRights u (refl, refl) in
    elim (Bool-cases (ltb s.priv 1)) [
      | inl below ↦ rw below stay
      | inr reached ↦
          rw reached (elim (Bool-cases (has_bits s.csr.mstatus Defs.mstatus_tsr && s.priv == 1)) [
            | inl trapped ↦ rw trapped stay
            | inr free ↦ rw free (sret_state-Confined s)
          ])
    ]

Confined-after : (s t u : CpuState) → SameRights s t → Confined t u → Confined s u
Confined-after s t u h c = record {
  below_machine = c.below_machine;
  kept =
      subst (λ d. MachineKept d u.csr) (ap (λ (d : Csr). record d { hw_mip = u.csr.hw_mip }) h.1)
        c.kept;
}

module _ {W : Type 0} (m : MemIf W) where
  csr_write-Confined :
      (val : ℕ) (d : DecodedInstr) (s : CpuState) (w : W)
      → s.priv ≤ 1
      → Confined s (csr_write m val d s w).cpu
  unfolding csr_write
  csr_write-Confined val d s w u = elim (Bool-cases ((Csr.write d.csr s.priv val s.csr).ok)) [
    | inl ok ↦
        (let kept = write-MachineKept d.csr s.priv val s.csr u in
          rw ok (record { below_machine = u; kept = rw (kept.registers.hw_mip_same) kept }))
    | inr bad ↦ rw bad (Confined-of_SameRights u (refl, refl))
  ]

  -- No instruction that runs in supervisor or user mode, whatever its operands, reaches machine
  -- mode or changes machine-level state, but for the interrupt bits that devices drive, which the
  -- memory it accesses may change: the machine-mode registers keep their values, `mstatus` keeps
  -- its bits outside SIE, SPIE, SPP, SUM and MXR, `mie` keeps its bits outside SSIE, STIE and
  -- SEIE, and beyond the bits that devices drive no bit of `mip` other than SSIP becomes pending.
  pub execute-Confined :
      (d : DecodedInstr) (s : CpuState) (w : W) → s.priv ≤ 1 → Confined s (execute m d s w).cpu
  unfolding execute
  execute-Confined d s w u =
      let t : CpuState = record s { next_pc = u32 (s.pc + instr_len d) } in
      Confined-after s t (run m d.type d t w).cpu (refl, refl)
        (run-rel m 1 Confined (λ a b z h. Confined-of_SameRights z h) Confined-after
          csr_write-Confined d.type d t w u
          (Confined-of_SameRights u (rights_of_eq (mret-user d.raw t u))) (sret-Confined d.raw t u))
