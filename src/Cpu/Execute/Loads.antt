-- ===== src/Cpu/Execute/Loads.antt =====
-- Loads, stores and the atomic instructions.
use virtual_so_c.Prelude.{ℕ, if◌then◌else◌, has_bits}
use virtual_so_c.Cpu.Defs
use virtual_so_c.Cpu.Decode.Instr.{DecodedInstr}
use virtual_so_c.Cpu.State.{CpuState, set_reg, reserve, clear, holds, make_exception}
use virtual_so_c.Cpu.Execute.Memory.{
  MemIf, Outcome, done, raises, operand1, operand2, effective, signalled,
}

module _ {W : Type 0} (m : MemIf W) where
  -- `set_reg(rd, cast(mem.read(addr, bytes)))`.
  unfoldable pub load_into : ℕ → (ℕ → ℕ) → ℕ → DecodedInstr → CpuState → W → Outcome W
  load_into bytes cast addr d s w =
      let r = m.read s addr bytes w in done (signalled m r.1 (set_reg d.rd (cast r.0) s)) r.1

  -- LB and LBU
  unfoldable pub load_byte : (ℕ → ℕ) → DecodedInstr → CpuState → W → Outcome W
  unfolding load_into
  load_byte cast d s w = load_into 1 cast (effective d s) d s w

  -- LH, LHU and LW: `misaligned` is the mask that an address must not meet.
  unfoldable pub load_aligned : ℕ → ℕ → (ℕ → ℕ) → DecodedInstr → CpuState → W → Outcome W
  unfolding load_into
  load_aligned bytes misaligned cast d s w =
      if has_bits (effective d s) misaligned
      then raises s w (make_exception Defs.cause_misaligned_load (effective d s))
      else load_into bytes cast (effective d s) d s w

  -- SB, SH and SW write the operand, cut to their width, and drop the reservation.
  unfoldable pub store_to : ℕ → (ℕ → ℕ) → DecodedInstr → CpuState → W → Outcome W
  unfolding clear
  store_to bytes cut d s w =
      let v = m.write s (effective d s) (cut (operand2 d s)) bytes w in
      done (signalled m v (record s { lr_sc = clear s.lr_sc })) v

  unfoldable pub store_aligned : ℕ → ℕ → (ℕ → ℕ) → DecodedInstr → CpuState → W → Outcome W
  unfolding store_to
  store_aligned bytes misaligned cut d s w =
      if has_bits (effective d s) misaligned
      then raises s w (make_exception Defs.cause_misaligned_store (effective d s))
      else store_to bytes cut d s w

  unfoldable pub load_reserved : DecodedInstr → CpuState → W → Outcome W
  unfolding reserve
  load_reserved d s w =
      let addr = operand1 d s in
      if has_bits addr 3
      then raises s w (make_exception Defs.cause_misaligned_load addr)
      else (let r = m.read s addr 4 w in
          done (record (signalled m r.1 (set_reg d.rd r.0 s)) { lr_sc = reserve addr }) r.1)

  unfoldable pub store_conditional : DecodedInstr → CpuState → W → Outcome W
  unfolding clear holds
  store_conditional d s w =
      let addr = operand1 d s in
      let drop = λ (t : CpuState). record t { lr_sc = clear t.lr_sc } in
      if has_bits addr 3
      then raises s w (make_exception Defs.cause_misaligned_store addr)
      else if holds s.lr_sc addr
      then (let v = m.write s addr (operand2 d s) 4 w in
          done (signalled m v (drop (set_reg d.rd 0 s))) v)
      else done (drop (set_reg d.rd 1 s)) w

  -- The AMO instructions: `op` is the operation of src/cpu/rv32a.h.
  unfoldable pub atomic : (ℕ → ℕ → ℕ) → DecodedInstr → CpuState → W → Outcome W
  atomic op d s w =
      let addr = operand1 d s in
      if has_bits addr 3
      then raises s w (make_exception Defs.cause_misaligned_store addr)
      else (let r = m.read s addr 4 w in
          let t = signalled m r.1 (set_reg d.rd r.0 s) in
          let v = m.write t addr (op r.0 (operand2 d s)) 4 r.1 in done (signalled m v t) v)
