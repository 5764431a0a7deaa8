-- ===== src/Tests/Cpu.antt =====
-- The core on concrete states: src/cpu.
use virtual_so_c.Cpu.Execute.Loads.{store_aligned, store_to}
use virtual_so_c.Prelude.{
  ℕ, ◌^◌, ◌≡◌, ◌≢◌, refl, arith, some, not32, ◌&&&◌, inl, inr, if◌then◌else◌, ◌==◌, ◌+◌, ◌*◌, ◌%◌,
  ◌|||◌,
}
use virtual_so_c.Prelude.Bits.{bit}
use virtual_so_c.Cpu.Defs
use virtual_so_c.Cpu.Csr.File.{Csr, reset, inc_mcycle}
use virtual_so_c.Cpu.Csr.Access.{write, read, refused}
use virtual_so_c.Cpu.Csr.Isolation.{MachineKept, write-MachineKept, write-user, s_fields}
use virtual_so_c.Cpu.Csr.Status.{mpp, write-mpp, read-write_sstatus, inc_mcycle-count}
use virtual_so_c.Cpu.State.{CpuState, initial, get_reg, set_reg}
use virtual_so_c.Cpu.Trap.Entry.{take_trap, delegated, check_pending_interrupts, irq_priority}
use virtual_so_c.Cpu.Trap.Returns.{mret, sret}
use virtual_so_c.Cpu.Trap.Delegated.{sret-take_trap, s_trap_mask}
use virtual_so_c.Cpu.Trap.Pending.{first_wanted, check_pending-first_wanted}
use virtual_so_c.Cpu.Trap.Restore.{mret-take_trap, m_trap_mask, at_handler}
use virtual_so_c.Cpu.Decode.Instr.{InstrType, instr_len}
use virtual_so_c.Cpu.Decode.Decode32.{decode32, decode_imm, decode_store}
use virtual_so_c.Cpu.Decode.Decoder.{decode}
use virtual_so_c.Cpu.Decode.Offsets.{
  encode_c_jump, encode_c_branch, jump_to, branch_to, decode-encode_c_jump, decode-encode_c_branch,
}
use virtual_so_c.Cpu.Decode.Ranges.{InRange, decode-InRange, instr_len-decode}
use virtual_so_c.Cpu.Execute.Memory.{MemIf}
use virtual_so_c.Cpu.Execute.Dispatch.{execute, run}
use virtual_so_c.Cpu.Execute.Frame.{SameRights}
use virtual_so_c.Cpu.Execute.Isolation.{Confined, execute-Confined, execute-user}
use virtual_so_c.Cpu.Execute.Legal.{IsLegal, initial-IsLegal, execute-IsLegal, take_trap-IsLegal}

-- A memory of one word.
abbrev cell : MemIf ℕ
cell = record {
  read = λ s a n w. (w, w);
  write = λ s a n v w. v;
  satp_changed = λ w. w;
  lines = λ w h. h;
}

-- `csrrw x1, sstatus, x5`, `addi x5, x0, 7` and `mret`.
abbrev csrrw_sstatus : ℕ
csrrw_sstatus = 0x100290F3

abbrev addi_x5 : ℕ
addi_x5 = 0x00700293

abbrev mret_word : ℕ
mret_word = 0x30200073

abbrev at_level : ℕ → CpuState
at_level p = record initial { priv = p; pc = 0x80000000; next_pc = 0x80000100 }

-- A supervisor's state with the timer interrupt pending, enabled and not delegated.
abbrev with_timer : CpuState
with_timer = record (at_level 1) { csr = record reset { hw_mip = 0x80; mie = 0xA0 } }

addi_runs : get_reg 5 (execute cell (decode addi_x5) (at_level 0) 3).cpu ≡ 7
unfolding execute decode get_reg set_reg decode32 decode_imm run
addi_runs = refl

execute-Confined_example :
    Confined (at_level 1) (execute cell (decode csrrw_sstatus) (at_level 1) 3).cpu
execute-Confined_example = execute-Confined cell (decode csrrw_sstatus) (at_level 1) 3 (omega arith)

-- A device at every address, whose register raises MSIP, and SW x5, 0(x0).
abbrev doorbell : MemIf ℕ
doorbell = record cell { lines = λ w h. h ||| 8 }

abbrev sw_x5 : ℕ
sw_x5 = 0x00502023

execute-user_example : SameRights (at_level 0) (execute doorbell (decode sw_x5) (at_level 0) 3).cpu
execute-user_example = execute-user doorbell (decode sw_x5) (at_level 0) 3 refl

msip_raised : (execute doorbell (decode sw_x5) (at_level 0) 3).cpu.csr.hw_mip ≡ 8
unfolding execute decode decode32 decode_store decode_imm run store_aligned store_to get_reg
msip_raised = refl

mret-take_trap_example :
    let back = (mret mret_word (at_handler (take_trap with_timer Defs.cause_illegal_instr 0))).0 in
    (back.next_pc ≡ (with_timer.pc &&& not32 1))
    × (back.priv ≡ with_timer.priv)
    × (back.regs ≡ with_timer.regs)
    × (bit 3 back.csr.mstatus ≡ bit 3 with_timer.csr.mstatus)
    × ((back.csr.mstatus &&& not32 m_trap_mask) ≡ (with_timer.csr.mstatus &&& not32 m_trap_mask))
unfolding delegated
mret-take_trap_example =
    mret-take_trap with_timer Defs.cause_illegal_instr 0 mret_word (inr (inl refl)) refl

check_pending-first_wanted_example :
    check_pending_interrupts with_timer ≡ first_wanted with_timer irq_priority
check_pending-first_wanted_example = check_pending-first_wanted with_timer (omega arith)

execute-IsLegal_example : IsLegal (execute cell (decode mret_word) initial 3).cpu
execute-IsLegal_example = execute-IsLegal cell (decode mret_word) initial 3 initial-IsLegal

take_trap-IsLegal_example : IsLegal (take_trap initial Defs.cause_illegal_instr mret_word)
take_trap-IsLegal_example =
    take_trap-IsLegal initial Defs.cause_illegal_instr mret_word initial-IsLegal

write-MachineKept_example : MachineKept reset (write Defs.csr_sstatus 1 0xFFFFFFFF reset).file
write-MachineKept_example = write-MachineKept Defs.csr_sstatus 1 0xFFFFFFFF reset (omega arith)

write-user_example : write Defs.csr_satp 0 0x80000001 reset ≡ refused reset
write-user_example = write-user Defs.csr_satp 0x80000001 reset

write-mpp_example : mpp (write Defs.csr_mstatus 3 0x1000 reset).file.mstatus ≢ 2
write-mpp_example = write-mpp Defs.csr_mstatus 3 0x1000 reset (ground arith)

read-write_sstatus_example :
    let after = (write Defs.csr_sstatus 1 0x80102 reset).file in
    (read Defs.csr_sstatus 1 after ≡ some (0x80102 &&& s_fields))
    × ((after.mstatus &&& not32 s_fields) ≡ (reset.mstatus &&& not32 s_fields))
read-write_sstatus_example = read-write_sstatus 1 0x80102 reset (omega arith)

-- Just before the low half carries.
abbrev nearly : Csr
nearly = record reset { mcycle = 0xFFFFFFFF; mcycleh = 4 }

inc_mcycle-count_example :
    (inc_mcycle nearly).mcycleh * 2 ^ 32 + (inc_mcycle nearly).mcycle
    ≡ (4 * 2 ^ 32 + 0xFFFFFFFF + 1) % 2 ^ 64
inc_mcycle-count_example = inc_mcycle-count nearly (omega arith) (omega arith)

decode-encode_c_jump_example :
    (decode (encode_c_jump 0b101 1027) ≡ jump_to 0b101 0 1027)
    × (decode (encode_c_jump 0b001 1027) ≡ jump_to 0b001 1 1027)
decode-encode_c_jump_example = decode-encode_c_jump 1027 (omega arith)

decode-encode_c_branch_example :
    (decode (encode_c_branch 0b110 3 200) ≡ branch_to 0b110 InstrType.beq 3 200)
    × (decode (encode_c_branch 0b111 3 200) ≡ branch_to 0b111 InstrType.bne 3 200)
decode-encode_c_branch_example = decode-encode_c_branch 3 200 (omega arith) (omega arith)

decode-InRange_example : InRange (decode csrrw_sstatus)
decode-InRange_example = decode-InRange csrrw_sstatus

instr_len-decode_example : instr_len (decode addi_x5) ≡ (if addi_x5 % 4 == 3 then 4 else 2)
instr_len-decode_example = instr_len-decode addi_x5

-- A user program whose system calls are delegated.
abbrev user : CpuState
user = record (at_level 0) { csr = record reset { medeleg = 0x100; mstatus = 0x2 } }

sret-take_trap_example :
    let back = (sret 0x10200073 (at_handler (take_trap user Defs.cause_ecall_u 0))).0 in
    (back.next_pc ≡ (user.pc &&& not32 1))
    × (back.priv ≡ 0)
    × (back.regs ≡ user.regs)
    × (bit 1 back.csr.mstatus ≡ bit 1 user.csr.mstatus)
    × ((back.csr.mstatus &&& not32 s_trap_mask) ≡ (user.csr.mstatus &&& not32 s_trap_mask))
unfolding delegated
sret-take_trap_example = sret-take_trap user Defs.cause_ecall_u 0 0x10200073 (omega arith) refl refl
