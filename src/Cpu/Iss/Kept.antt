-- ===== src/Cpu/Iss/Kept.antt =====
-- What a round of the loop does to the privilege, whatever the program and the bus are.
use virtual_so_c.Prelude.{
  ℕ, ◌+◌, ◌≤◌, false, not, ◌==◌, ◌&&◌, if◌then◌else◌, u32, ◌&&&◌, ◌≡◌, refl, arith, ap, ◌∙◌, inl,
  inr, Bool-cases, if-ind, ◌⊎◌,
}
use virtual_so_c.Cpu.Defs
use virtual_so_c.Cpu.Csr.File.{Csr, inc_mcycle, inc_minstret}
use virtual_so_c.Cpu.Decode.Instr.{instr_len}
use virtual_so_c.Cpu.Decode.Decoder.{decode}
use virtual_so_c.Cpu.State.{CpuState}
use virtual_so_c.Cpu.Trap.Entry.{
  take_trap, enter_s, enter_m, handler, delegated, check_pending_interrupts,
}
use virtual_so_c.Cpu.Execute.Memory.{Outcome}
use virtual_so_c.Cpu.Execute.Dispatch.{execute}
use virtual_so_c.Cpu.Execute.Isolation.{Confined, execute-Confined}
use virtual_so_c.Cpu.Execute.Legal.{IsLegal, execute-IsLegal, take_trap-IsLegal}
use virtual_so_c.Cpu.Mmu.Permissions.{fetch}
use virtual_so_c.Cpu.Mmu.Tlb.{Tlb}
use virtual_so_c.Cpu.Iss.Port.{Socket}
use virtual_so_c.Cpu.Iss.Access.{World, mem_if, translate_in, mmu_active_fetch, access_of, read_at}
use virtual_so_c.Cpu.Iss.Loop.{
  Iss, trapped, counted, finish, retire, run_word, fetch_and_run, round,
}

-- What the parts of a round do is done by the round. `Q` is of the states inside it, `P` of the
-- state that it ends in.
module _ {B : Type 0} (socket : Socket B) (victim : Tlb → ℕ) (P Q : CpuState → Type 0)
    (stays : (s : CpuState) → Q s → P s)
    (traps : (s : CpuState) (cause tval : ℕ) → Q s → P (trapped s cause tval))
    (goes : (s : CpuState) (pc : ℕ) → Q s → P (record s { pc = pc }))
    (counts : (s : CpuState) → Q s → Q (counted s))
    (starts : (s : CpuState) (next : ℕ) → Q s → Q (record s { next_pc = next }))
    (runs : (word : ℕ) (s : CpuState) (w : World B)
      → Q s
      → Q (execute (mem_if socket victim) (decode word) s w).cpu) where
  finish-P : (o : Outcome (World B)) (i : Iss B) → Q o.cpu → P (finish o i).state
  unfolding finish retire trapped
  finish-P o i q =
      let s : CpuState = counted o.cpu in
      let k : Q s = counts o.cpu q in
      elim (Bool-cases (o.world.mem_fault)) [
        | inl y ↦ rw y (traps o.cpu o.world.mem_fault_cause o.world.mem_fault_vaddr q)
        | inr n ↦ rw n (elim (Bool-cases (o.result.exception)) [
          | inr m ↦ rw m (goes s o.cpu.next_pc k)
          | inl x ↦
              rw x
                (elim (Bool-cases (o.result.cause == Defs.cause_breakpoint && i.stop_on_ebreak)) [
                  | inl b ↦ rw b (stays s k)
                  | inr c ↦ rw c (traps s o.result.cause o.result.tval k)
                ])
        ])
      ]

  run_word-P :
      (raw : ℕ) (w : World B) (i : Iss B) → Q i.state → P (run_word socket victim raw w i).state
  unfolding run_word
  run_word-P raw w i q =
      let s : CpuState = record (i.state) { next_pc = u32 (i.state.pc + instr_len (decode raw)) } in
      finish-P (execute (mem_if socket victim) (decode raw) s (record w { mem_fault = false })) i
        (runs raw s (record w { mem_fault = false }) (starts i.state s.next_pc q))

  fetch_and_run-P : (i : Iss B) → Q i.state → P (fetch_and_run socket victim i).state
  unfolding fetch_and_run
  fetch_and_run-P i q =
      let s : CpuState = i.state in
      let t = translate_in socket victim (access_of fetch s.priv s) s.pc i.world in
      let paddr : ℕ = if mmu_active_fetch s then t.1.result.paddr else s.pc in
      let w : World B = if mmu_active_fetch s then t.0 else i.world in
      let word : ℕ × World B = read_at socket victim paddr 4 w in
      elim (Bool-cases (mmu_active_fetch s && t.1.result.fault)) [
        | inl y ↦ rw y (traps s t.1.result.cause s.pc q)
        | inr f ↦ rw f (run_word-P word.0 word.1 i q)
      ]

  round-P : (i : Iss B) → Q i.state → P (round socket victim i).state
  unfolding round
  round-P i q =
      let s : CpuState = i.state in
      let irq : ℕ = check_pending_interrupts s in
      if-ind (λ j. P j.state) (i.halted) i _ (stays s q)
        (if-ind (λ j. P j.state) (not (irq == 0)) (record i { state = trapped s irq 0 }) _
          (traps s irq 0 q)
          (if-ind (λ j. P j.state) (not ((s.pc &&& 1) == 0))
            (record i { state = trapped s Defs.cause_misaligned_fetch s.pc })
            (fetch_and_run socket victim i) (traps s Defs.cause_misaligned_fetch s.pc q)
            (fetch_and_run-P i q)))

trapped-IsLegal : (s : CpuState) (cause tval : ℕ) → IsLegal s → IsLegal (trapped s cause tval)
unfolding trapped
trapped-IsLegal s cause tval l =
    let k : IsLegal (take_trap s cause tval) = take_trap-IsLegal s cause tval l in
    record { level = k.level; previous = k.previous }

counted-IsLegal : (s : CpuState) → IsLegal s → IsLegal (counted s)
unfolding inc_mcycle inc_minstret
counted-IsLegal s l = record { level = l.level; previous = l.previous }

-- A round of the loop, its trap, fetch, fault, debug stop and retirement branches included, keeps
-- the core at the level U, S or M with a field MPP that is not the reserved value 2.
pub round-IsLegal :
    {B : Type 0} (socket : Socket B) (victim : Tlb → ℕ) (i : Iss B)
    → IsLegal i.state
    → IsLegal (round socket victim i).state
round-IsLegal socket victim i l =
    round-P socket victim IsLegal IsLegal (λ s k. k) trapped-IsLegal
      (λ s pc k. record { level = k.level; previous = k.previous }) counted-IsLegal
      (λ s next k. record { level = k.level; previous = k.previous })
      (λ word s w k. execute-IsLegal (mem_if socket victim) (decode word) s w k) i l

-- Below machine mode, or at the machine's handler for the cause that is recorded.
pub IsGated : Csr → CpuState → Type 0
IsGated before t = (t.priv ≤ 1) ⊎ ((t.priv ≡ 3) × (t.pc ≡ handler before.mtvec t.csr.mcause))

abbrev Below : Csr → CpuState → Type 0
Below before s = (s.priv ≤ 1) × (s.csr.mtvec ≡ before.mtvec)

trapped-IsGated :
    (before : Csr) (s : CpuState) (cause tval : ℕ)
    → Below before s
    → IsGated before (trapped s cause tval)
unfolding trapped take_trap enter_s enter_m IsGated
trapped-IsGated before s cause tval b = elim (Bool-cases (delegated s cause)) [
  | inl y ↦ rw y (inl (omega arith))
  | inr n ↦ rw n (inr (refl, ap (λ v. handler v cause) b.1))
]

-- From user or supervisor mode, one round of the simulator's loop, whatever the program, the bus,
-- the page tables and the pending interrupts are, leaves the core below machine mode, or in
-- machine mode at the handler that `mtvec` named before the round, for the cause that `mcause`
-- then holds.
pub round-IsGated :
    {B : Type 0} (socket : Socket B) (victim : Tlb → ℕ) (i : Iss B)
    → i.state.priv ≤ 1
    → IsGated i.state.csr (round socket victim i).state
unfolding IsGated inc_mcycle inc_minstret
round-IsGated socket victim i u =
    let before : Csr = i.state.csr in
    round-P socket victim (IsGated before) (Below before) (λ s k. inl k.0) (trapped-IsGated before)
      (λ s pc k. inl k.0) (λ s k. k) (λ s next k. k)
      (λ word s w k.
        let c : Confined s (execute (mem_if socket victim) (decode word) s w).cpu =
          execute-Confined (mem_if socket victim) (decode word) s w k.0 in
        (c.below_machine, c.kept.registers.mtvec_same ∙ k.1))
      i (u, refl)
