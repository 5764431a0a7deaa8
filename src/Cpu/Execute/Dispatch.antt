-- ===== src/Cpu/Execute/Dispatch.antt =====
-- `execute`: the `switch` over the instruction types. The sums and differences of `int32_t` wrap,
-- as the compilers of the platform make them.
use virtual_so_c.Prelude.{
  ◌+◌, ◌-◌, ◌^◌, Bool, true, not, ltb, leb, ◌==◌, if◌then◌else◌, ◌>>>◌, ◌&&&◌, ◌|||◌, not32, u32,
  shl32, sra32, bit_xor,
}
use virtual_so_c.Cpu.Defs
use virtual_so_c.Cpu.Decode.Instr.{InstrType, DecodedInstr, instr_len}
use virtual_so_c.Cpu.State.{CpuState, set_reg, completed, make_exception}
use virtual_so_c.Cpu.Arith.Signed.{slt32}
use virtual_so_c.Cpu.Arith.Muldiv
use virtual_so_c.Cpu.Arith.Amo
use virtual_so_c.Cpu.Trap.Returns.{mret, sret}
use virtual_so_c.Cpu.Execute.Memory.{
  MemIf, Outcome, done, raises, operand1, operand2, sext8, sext16,
}
use virtual_so_c.Cpu.Execute.Loads.{
  load_byte, load_aligned, store_to, store_aligned, load_reserved, store_conditional, atomic,
}
use virtual_so_c.Cpu.Execute.System.{illegal_at, csr_swap, csr_modify, ecall_cause, sfence}

-- `if (taken) s.next_pc = s.pc + imm`.
unfoldable pub jump_if : {W : Type 0} → Bool → DecodedInstr → CpuState → W → Outcome W
jump_if taken d s w =
    done (record s { next_pc = if taken then u32 (s.pc + d.imm) else s.next_pc }) w

module _ {W : Type 0} (m : MemIf W) where
  -- The cases of the `switch`; `next_pc` is already past the instruction.
  unfoldable pub run : InstrType → DecodedInstr → CpuState → W → Outcome W
  run InstrType.lui d s w = done (set_reg d.rd (d.imm) s) w
  run InstrType.auipc d s w = done (set_reg d.rd (u32 (s.pc + d.imm)) s) w
  run InstrType.jal d s w =
      done (record (set_reg d.rd (u32 (s.pc + instr_len d)) s) { next_pc = u32 (s.pc + d.imm) }) w
  run InstrType.jalr d s w =
      let target = u32 (operand1 d s + d.imm) &&& not32 1 in
      done (record (set_reg d.rd (u32 (s.pc + instr_len d)) s) { next_pc = target }) w
  run InstrType.beq d s w = jump_if (operand1 d s == operand2 d s) d s w
  run InstrType.bne d s w = jump_if (not (operand1 d s == operand2 d s)) d s w
  run InstrType.blt d s w = jump_if (slt32 (operand1 d s) (operand2 d s)) d s w
  run InstrType.bge d s w = jump_if (not (slt32 (operand1 d s) (operand2 d s))) d s w
  run InstrType.bltu d s w = jump_if (ltb (operand1 d s) (operand2 d s)) d s w
  run InstrType.bgeu d s w = jump_if (leb (operand2 d s) (operand1 d s)) d s w
  run InstrType.lb d s w = load_byte m sext8 d s w
  run InstrType.lh d s w = load_aligned m 2 1 sext16 d s w
  run InstrType.lw d s w = load_aligned m 4 3 (λ v. v) d s w
  run InstrType.lbu d s w = load_byte m (λ v. v &&& 0xFF) d s w
  run InstrType.lhu d s w = load_aligned m 2 1 (λ v. v &&& 0xFFFF) d s w
  run InstrType.sb d s w = store_to m 1 (λ v. v &&& 0xFF) d s w
  run InstrType.sh d s w = store_aligned m 2 1 (λ v. v &&& 0xFFFF) d s w
  run InstrType.sw d s w = store_aligned m 4 3 (λ v. v) d s w
  run InstrType.addi d s w = done (set_reg d.rd (u32 (operand1 d s + d.imm)) s) w
  run InstrType.slti d s w = done (set_reg d.rd (if slt32 (operand1 d s) d.imm then 1 else 0) s) w
  run InstrType.sltiu d s w = done (set_reg d.rd (if ltb (operand1 d s) d.imm then 1 else 0) s) w
  run InstrType.xori d s w = done (set_reg d.rd (bit_xor (operand1 d s) d.imm) s) w
  run InstrType.ori d s w = done (set_reg d.rd (operand1 d s ||| d.imm) s) w
  run InstrType.andi d s w = done (set_reg d.rd (operand1 d s &&& d.imm) s) w
  run InstrType.slli d s w = done (set_reg d.rd (shl32 (operand1 d s) (d.imm &&& 0x1F)) s) w
  run InstrType.srli d s w = done (set_reg d.rd (operand1 d s >>> (d.imm &&& 0x1F)) s) w
  run InstrType.srai d s w = done (set_reg d.rd (sra32 (operand1 d s) (d.imm &&& 0x1F)) s) w
  run InstrType.add d s w = done (set_reg d.rd (u32 (operand1 d s + operand2 d s)) s) w
  run InstrType.sub d s w = done (set_reg d.rd (u32 (operand1 d s + 2 ^ 32 - operand2 d s)) s) w
  run InstrType.sll d s w = done (set_reg d.rd (shl32 (operand1 d s) (operand2 d s &&& 0x1F)) s) w
  run InstrType.slt d s w =
      done (set_reg d.rd (if slt32 (operand1 d s) (operand2 d s) then 1 else 0) s) w
  run InstrType.sltu d s w =
      done (set_reg d.rd (if ltb (operand1 d s) (operand2 d s) then 1 else 0) s) w
  run InstrType.xor d s w = done (set_reg d.rd (bit_xor (operand1 d s) (operand2 d s)) s) w
  run InstrType.srl d s w = done (set_reg d.rd (operand1 d s >>> (operand2 d s &&& 0x1F)) s) w
  run InstrType.sra d s w = done (set_reg d.rd (sra32 (operand1 d s) (operand2 d s &&& 0x1F)) s) w
  run InstrType.or d s w = done (set_reg d.rd (operand1 d s ||| operand2 d s) s) w
  run InstrType.and d s w = done (set_reg d.rd (operand1 d s &&& operand2 d s) s) w
  run InstrType.mul d s w = done (set_reg d.rd (Muldiv.mul (operand1 d s) (operand2 d s)) s) w
  run InstrType.mulh d s w = done (set_reg d.rd (Muldiv.mulh (operand1 d s) (operand2 d s)) s) w
  run InstrType.mulhsu d s w = done (set_reg d.rd (Muldiv.mulhsu (operand1 d s) (operand2 d s)) s) w
  run InstrType.mulhu d s w = done (set_reg d.rd (Muldiv.mulhu (operand1 d s) (operand2 d s)) s) w
  run InstrType.div d s w = done (set_reg d.rd (Muldiv.div (operand1 d s) (operand2 d s)) s) w
  run InstrType.divu d s w = done (set_reg d.rd (Muldiv.divu (operand1 d s) (operand2 d s)) s) w
  run InstrType.rem d s w = done (set_reg d.rd (Muldiv.rem (operand1 d s) (operand2 d s)) s) w
  run InstrType.remu d s w = done (set_reg d.rd (Muldiv.remu (operand1 d s) (operand2 d s)) s) w
  run InstrType.lr_w d s w = load_reserved m d s w
  run InstrType.sc_w d s w = store_conditional m d s w
  run InstrType.amoswap_w d s w = atomic m Amo.amo_swap d s w
  run InstrType.amoadd_w d s w = atomic m Amo.amo_add d s w
  run InstrType.amoxor_w d s w = atomic m Amo.amo_xor d s w
  run InstrType.amoand_w d s w = atomic m Amo.amo_and d s w
  run InstrType.amoor_w d s w = atomic m Amo.amo_or d s w
  run InstrType.amomin_w d s w = atomic m Amo.amo_min d s w
  run InstrType.amomax_w d s w = atomic m Amo.amo_max d s w
  run InstrType.amominu_w d s w = atomic m Amo.amo_minu d s w
  run InstrType.amomaxu_w d s w = atomic m Amo.amo_maxu d s w
  run InstrType.csrrw d s w = csr_swap m (operand1 d s) d s w
  run InstrType.csrrs d s w = csr_modify m (λ old. old ||| operand1 d s) d s w
  run InstrType.csrrc d s w = csr_modify m (λ old. old &&& not32 (operand1 d s)) d s w
  run InstrType.csrrwi d s w = csr_swap m d.rs1 d s w
  run InstrType.csrrsi d s w = csr_modify m (λ old. old ||| d.rs1) d s w
  run InstrType.csrrci d s w = csr_modify m (λ old. old &&& not32 d.rs1) d s w
  run InstrType.ecall d s w = raises s w (make_exception (ecall_cause s.priv) 0)
  run InstrType.ebreak d s w = raises s w (make_exception Defs.cause_breakpoint s.pc)
  run InstrType.mret d s w = let r = mret d.raw s in raises r.0 w r.1
  run InstrType.sret d s w = let r = sret d.raw s in raises r.0 w r.1
  run InstrType.uret d s w = illegal_at d s w
  run InstrType.wfi d s w = raises s w (record completed { wfi = true })
  run InstrType.sfence_vma d s w = raises s w (sfence d s)
  run InstrType.fence d s w = done s w
  run InstrType.fencei d s w = raises s w (record completed { fence_i = true })
  run InstrType.illegal d s w = illegal_at d s w

  unfoldable pub execute : DecodedInstr → CpuState → W → Outcome W
  execute d s w = run d.type d (record s { next_pc = u32 (s.pc + instr_len d) }) w
