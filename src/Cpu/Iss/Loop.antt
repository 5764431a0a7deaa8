-- ===== src/Cpu/Iss/Loop.antt =====
-- The loop of `ISS::run`, one round at a time, and the debugger's `halt`, `resume` and `step`.
-- Waiting, the quantum and the clock are the simulation kernel's: a round that waits ends there.
use virtual_so_c.Prelude.{
  ℕ, ◌+◌, ◌%◌, ◌^◌, Bool, true, false, not, ◌==◌, ◌&&◌, if◌then◌else◌, u32, ◌&&&◌,
}
use virtual_so_c.Cpu.Defs
use virtual_so_c.Cpu.Csr.File.{inc_mcycle, inc_minstret}
use virtual_so_c.Cpu.Decode.Instr.{instr_len}
use virtual_so_c.Cpu.Decode.Decoder.{decode}
use virtual_so_c.Cpu.State.{CpuState, ExecResult}
use virtual_so_c.Cpu.Trap.Entry.{take_trap, check_pending_interrupts}
use virtual_so_c.Cpu.Execute.Memory.{Outcome}
use virtual_so_c.Cpu.Execute.Dispatch.{execute}
use virtual_so_c.Cpu.Mmu.Permissions.{fetch}
use virtual_so_c.Cpu.Mmu.Tlb.{Tlb}
use virtual_so_c.Cpu.Mmu.Walk.{flushed}
use virtual_so_c.Cpu.Iss.Port.{Socket}
use virtual_so_c.Cpu.Iss.Access.{World, mmu_active_fetch, access_of, translate_in, read_at, mem_if}

pub record Iss (B : Type 0) : Type 0 where
  pub state : CpuState
  pub world : World B
  pub halted : Bool
  pub single_step : Bool
  pub stop_on_ebreak : Bool
  pub insn_count : ℕ

unfoldable pub halt : {B : Type 0} → Iss B → Iss B
halt i = record i { halted = true }

unfoldable pub resume : {B : Type 0} → Iss B → Iss B
resume i = record i { halted = false; single_step = false }

unfoldable pub step : {B : Type 0} → Iss B → Iss B
step i = record i { halted = false; single_step = true }

-- `state.pc = reset_pc_`, where `run` starts.
unfoldable pub start : {B : Type 0} → ℕ → Iss B → Iss B
start reset_pc i = record i { state = record (i.state) { pc = reset_pc } }

-- `take_trap`, and `pc = next_pc`.
unfoldable pub trapped : CpuState → ℕ → ℕ → CpuState
trapped s cause tval = let t = take_trap s cause tval in record t { pc = t.next_pc }

-- An instruction is counted.
abbrev pub counted : CpuState → CpuState
counted s = record s { csr = inc_minstret (inc_mcycle s.csr) }

-- The flags `fence_i` and `sfence_vma` of the result.
unfoldable pub fences : {B : Type 0} → ExecResult → World B → World B
fences r w =
    let fenced =
      if r.fence_i
      then record w { port = record (w.port) { dmi_valid = false; dmi_ptr = 0 } }
      else w in
    if r.sfence_vma then record fenced { tlb = flushed } else fenced

-- The end of a round, after the exception of the instruction.
unfoldable pub retire : {B : Type 0} → ExecResult → CpuState → Iss B → Iss B
retire r s i = record i {
  state = record s { pc = s.next_pc };
  world = fences r i.world;
  halted = if i.single_step then true else i.halted;
  single_step = false;
}

-- What follows `execute`.
unfoldable pub finish : {B : Type 0} → Outcome (World B) → Iss B → Iss B
finish o i =
    let w = o.world in
    let s = counted o.cpu in
    let j : Iss _ = record i { state = s; world = w; insn_count = (i.insn_count + 1) % 2 ^ 64 } in
    if w.mem_fault
    then record i {
      state = trapped o.cpu w.mem_fault_cause w.mem_fault_vaddr;
      world = record w { mem_fault = false };
    }
    else if o.result.exception
    then if o.result.cause == Defs.cause_breakpoint && i.stop_on_ebreak
      then record j { halted = true }
      else retire o.result (take_trap s o.result.cause o.result.tval) j
    else retire o.result s j

module _ {B : Type 0} (socket : Socket B) (victim : Tlb → ℕ) where
  -- `raw` is decoded and executed.
  unfoldable pub run_word : ℕ → World B → Iss B → Iss B
  run_word raw w i =
      let d = decode raw in
      let s = record (i.state) { next_pc = u32 (i.state.pc + instr_len d) } in
      finish (execute (mem_if socket victim) d s (record w { mem_fault = false })) i

  unfoldable pub fetch_and_run : Iss B → Iss B
  fetch_and_run i =
      let s = i.state in
      let t = translate_in socket victim (access_of fetch s.priv s) s.pc i.world in
      let paddr = if mmu_active_fetch s then t.1.result.paddr else s.pc in
      let w = if mmu_active_fetch s then t.0 else i.world in
      let word = read_at socket victim paddr 4 w in
      if mmu_active_fetch s && t.1.result.fault
      then record i { state = trapped s t.1.result.cause s.pc; world = w }
      else run_word word.0 word.1 i

  unfoldable pub round : Iss B → Iss B
  round i =
      let s = i.state in
      let irq = check_pending_interrupts s in
      if i.halted
      then i
      else if not (irq == 0)
      then record i { state = trapped s irq 0 }
      else if not ((s.pc &&& 1) == 0)
      then record i { state = trapped s Defs.cause_misaligned_fetch s.pc }
      else fetch_and_run i
