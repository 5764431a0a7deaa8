-- ===== src/Cpu/Execute/Memory.antt =====
-- The memory that instructions read and write: `MemIf` of src/cpu/execute.h, whose functions the
-- simulator sets up. They see the core's state, and act on a world `W` of their own: caches,
-- buses, devices. `satp_changed` is the callback `on_satp_write`; `lines` is
-- what the interrupt bits become that the devices drive, by the callbacks made in an access that
-- has led to this world.
use virtual_so_c.Prelude.{ℕ, ◌+◌, ◌-◌, ◌%◌, ◌^◌, ltb, if◌then◌else◌, u32}
use virtual_so_c.Cpu.Decode.Instr.{DecodedInstr}
use virtual_so_c.Cpu.State.{CpuState, ExecResult, get_reg, completed}

pub record MemIf (W : Type 0) : Type 0 where
  pub read : CpuState → ℕ → ℕ → W → ℕ × W
  pub write : CpuState → ℕ → ℕ → ℕ → W → W
  pub satp_changed : W → W
  pub lines : W → ℕ → ℕ

-- After an access: a device may have called `set_mip_mtip`, `set_mip_msip` or `set_mip_meip`.
abbrev pub signalled : {W : Type 0} → MemIf W → W → CpuState → CpuState
signalled m w s = record s { csr = record (s.csr) { hw_mip = m.lines w s.csr.hw_mip } }

-- What an instruction does: the core, the world and the result.
pub record Outcome (W : Type 0) : Type 0 where
  pub cpu : CpuState
  pub world : W
  pub result : ExecResult

abbrev pub done : {W : Type 0} → CpuState → W → Outcome W
done s w = record { cpu = s; world = w; result = completed }

abbrev pub raises : {W : Type 0} → CpuState → W → ExecResult → Outcome W
raises s w r = record { cpu = s; world = w; result = r }

-- The operands `rs1` and `rs2`, and the address of a load or a store.
abbrev pub operand1 : DecodedInstr → CpuState → ℕ
operand1 d s = get_reg d.rs1 s

abbrev pub operand2 : DecodedInstr → CpuState → ℕ
operand2 d s = get_reg d.rs2 s

abbrev pub effective : DecodedInstr → CpuState → ℕ
effective d s = u32 (get_reg d.rs1 s + d.imm)

-- `static_cast<int8_t>` and `static_cast<int16_t>`, widened to 32 bits.
abbrev pub sext8 : ℕ → ℕ
sext8 v = if ltb (v % 2 ^ 8) (2 ^ 7) then v % 2 ^ 8 else v % 2 ^ 8 + (2 ^ 32 - 2 ^ 8)

abbrev pub sext16 : ℕ → ℕ
sext16 v = if ltb (v % 2 ^ 16) (2 ^ 15) then v % 2 ^ 16 else v % 2 ^ 16 + (2 ^ 32 - 2 ^ 16)
