-- ===== src/Cpu/Execute/System.antt =====
-- The CSR instructions, environment calls and fences.
use virtual_so_c.Prelude.{ℕ, true, Option, none, some, ltb, ◌==◌, ◌&&◌, if◌then◌else◌, has_bits}
use virtual_so_c.Cpu.Defs
use virtual_so_c.Cpu.Csr.Access as Csr
use virtual_so_c.Cpu.Decode.Instr.{DecodedInstr}
use virtual_so_c.Cpu.State.{CpuState, ExecResult, set_reg, completed, make_exception}
use virtual_so_c.Cpu.Execute.Memory.{MemIf, Outcome, done, raises}

abbrev pub illegal_at : {W : Type 0} → DecodedInstr → CpuState → W → Outcome W
illegal_at d s w = raises s w (make_exception Defs.cause_illegal_instr d.raw)

module _ {W : Type 0} (m : MemIf W) where
  -- `if (!csr.write(...)) return make_exception(...)`.
  unfoldable pub csr_write : ℕ → DecodedInstr → CpuState → W → Outcome W
  csr_write val d s w =
      let r = Csr.write d.csr s.priv val s.csr in
      if r.ok
      then done (record s { csr = r.file }) (if r.satp_written then m.satp_changed w else w)
      else illegal_at d s w

  -- CSRRW and CSRRWI, with the value to write.
  unfoldable pub csr_swap_read : Option ℕ → ℕ → DecodedInstr → CpuState → W → Outcome W
  unfolding csr_write
  csr_swap_read none val d s w = illegal_at d s w
  csr_swap_read (some old) val d s w = csr_write val d (set_reg d.rd old s) w

  unfoldable pub csr_swap : ℕ → DecodedInstr → CpuState → W → Outcome W
  unfolding csr_swap_read
  csr_swap val d s w =
      if d.rd == 0
      then csr_write val d s w
      else csr_swap_read (Csr.read d.csr s.priv s.csr) val d s w

  -- CSRRS, CSRRC and their immediate forms: `next old` is the value to write; the field `rs1` is 0
  -- if nothing is to be written.
  unfoldable pub csr_modify_read : Option ℕ → (ℕ → ℕ) → DecodedInstr → CpuState → W → Outcome W
  unfolding csr_write
  csr_modify_read none next d s w = illegal_at d s w
  csr_modify_read (some old) next d s w =
      if d.rs1 == 0
      then done (set_reg d.rd old s) w
      else csr_write (next old) d (set_reg d.rd old s) w

  unfoldable pub csr_modify : (ℕ → ℕ) → DecodedInstr → CpuState → W → Outcome W
  unfolding csr_modify_read
  csr_modify next d s w = csr_modify_read (Csr.read d.csr s.priv s.csr) next d s w

unfoldable pub ecall_cause : ℕ → ℕ
ecall_cause priv =
    if priv == Defs.prv_u
    then Defs.cause_ecall_u
    else if priv == Defs.prv_s
    then Defs.cause_ecall_s
    else Defs.cause_ecall_m

unfoldable pub sfence : DecodedInstr → CpuState → ExecResult
sfence d s =
    if ltb s.priv Defs.prv_s
    then make_exception Defs.cause_illegal_instr d.raw
    else if has_bits s.csr.mstatus Defs.mstatus_tvm && s.priv == Defs.prv_s
    then make_exception Defs.cause_illegal_instr d.raw
    else record completed { sfence_vma = true }
