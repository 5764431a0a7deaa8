-- ===== src/Cpu/Trap/Returns.antt =====
-- MRET and SRET, which return from a handler.
use virtual_so_c.Prelude.{ℕ, ltb, ◌==◌, ◌&&◌, if◌then◌else◌, not32, has_bits, ◌>>>◌, ◌&&&◌, ◌|||◌}
use virtual_so_c.Cpu.Defs
use virtual_so_c.Cpu.State.{CpuState, ExecResult, completed, make_exception}
use virtual_so_c.Cpu.Trap.Entry.{put_flag}

unfoldable pub mret_status : ℕ → ℕ
mret_status m =
    let m1 = put_flag m Defs.mstatus_mie (has_bits m Defs.mstatus_mpie) in
    (m1 ||| Defs.mstatus_mpie) &&& not32 Defs.mstatus_mpp_mask

unfoldable pub mret_state : CpuState → CpuState
mret_state s = record s {
  next_pc = s.csr.mepc;
  csr = record (s.csr) { mstatus = mret_status s.csr.mstatus };
  priv = s.csr.mstatus >>> Defs.mstatus_mpp_shift &&& 0x3;
}

unfoldable pub mret : ℕ → CpuState → CpuState × ExecResult
unfolding mret_state
mret raw s =
    if ltb s.priv Defs.prv_m
    then (s, make_exception Defs.cause_illegal_instr raw)
    else (mret_state s, completed)

unfoldable pub sret_status : ℕ → ℕ
sret_status m =
    let m1 = put_flag m Defs.mstatus_sie (has_bits m Defs.mstatus_spie) in
    (m1 ||| Defs.mstatus_spie) &&& not32 Defs.mstatus_spp

unfoldable pub sret_state : CpuState → CpuState
sret_state s = record s {
  next_pc = s.csr.sepc;
  csr = record (s.csr) { mstatus = sret_status s.csr.mstatus };
  priv = if has_bits s.csr.mstatus Defs.mstatus_spp then Defs.prv_s else Defs.prv_u;
}

unfoldable pub sret : ℕ → CpuState → CpuState × ExecResult
unfolding sret_state
sret raw s =
    if ltb s.priv Defs.prv_s
    then (s, make_exception Defs.cause_illegal_instr raw)
    else if has_bits s.csr.mstatus Defs.mstatus_tsr && s.priv == Defs.prv_s
    then (s, make_exception Defs.cause_illegal_instr raw)
    else (sret_state s, completed)
