-- ===== src/Cpu/Decode/Decode32.antt =====
-- `decode32`: one function for each opcode whose case is more than a few assignments.
use virtual_so_c.Prelude.{ℕ, List, [], ◌∷◌, not, ◌==◌, if◌then◌else◌}
use virtual_so_c.Cpu.Defs
use virtual_so_c.Cpu.Decode.Instr.{InstrType, DecodedInstr, blank, select}
use virtual_so_c.Cpu.Decode.Fields.{
  opcode, rd, funct3, rs1, rs2, funct7, funct5, funct12, imm_i, imm_s, imm_b, imm_u, imm_j,
  csr_zimm,
}

abbrev branch_types : List (ℕ × InstrType)
branch_types =
    (Defs.f3_beq, InstrType.beq)
    ∷ (Defs.f3_bne, InstrType.bne)
    ∷ (Defs.f3_blt, InstrType.blt)
    ∷ (Defs.f3_bge, InstrType.bge)
    ∷ (Defs.f3_bltu, InstrType.bltu)
    ∷ (Defs.f3_bgeu, InstrType.bgeu)
    ∷ []

abbrev load_types : List (ℕ × InstrType)
load_types =
    (Defs.f3_lb, InstrType.lb)
    ∷ (Defs.f3_lh, InstrType.lh)
    ∷ (Defs.f3_lw, InstrType.lw)
    ∷ (Defs.f3_lbu, InstrType.lbu)
    ∷ (Defs.f3_lhu, InstrType.lhu)
    ∷ []

abbrev store_types : List (ℕ × InstrType)
store_types =
    (Defs.f3_sb, InstrType.sb) ∷ (Defs.f3_sh, InstrType.sh) ∷ (Defs.f3_sw, InstrType.sw) ∷ []

unfoldable pub decode_branch : ℕ → DecodedInstr
unfolding rs1 rs2 imm_b funct3 select
decode_branch instr = record (blank instr) {
  rs1 = rs1 instr;
  rs2 = rs2 instr;
  imm = imm_b instr;
  type = select (funct3 instr) branch_types InstrType.illegal;
}

unfoldable pub decode_load : ℕ → DecodedInstr
unfolding rd rs1 imm_i funct3 select
decode_load instr = record (blank instr) {
  rd = rd instr;
  rs1 = rs1 instr;
  imm = imm_i instr;
  type = select (funct3 instr) load_types InstrType.illegal;
}

unfoldable pub decode_store : ℕ → DecodedInstr
unfolding rs1 rs2 imm_s funct3 select
decode_store instr = record (blank instr) {
  rs1 = rs1 instr;
  rs2 = rs2 instr;
  imm = imm_s instr;
  type = select (funct3 instr) store_types InstrType.illegal;
}

abbrev imm_types : List (ℕ × InstrType)
imm_types =
    (Defs.f3_add_sub, InstrType.addi)
    ∷ (Defs.f3_slt, InstrType.slti)
    ∷ (Defs.f3_sltu, InstrType.sltiu)
    ∷ (Defs.f3_xor, InstrType.xori)
    ∷ (Defs.f3_or, InstrType.ori)
    ∷ (Defs.f3_and, InstrType.andi)
    ∷ []

-- In the two shifts the immediate is the field `rs2`.
unfoldable pub decode_imm : ℕ → DecodedInstr
unfolding rd rs1 rs2 imm_i funct3 funct7 select
decode_imm instr =
    let d = record (blank instr) { rd = rd instr; rs1 = rs1 instr } in
    let f3 = funct3 instr in
    let f7 = funct7 instr in
    if f3 == Defs.f3_sll
    then record d {
      imm = rs2 instr;
      type = if f7 == Defs.f7_normal then InstrType.slli else InstrType.illegal;
    }
    else if f3 == Defs.f3_srl_sra
    then record d {
      imm = rs2 instr;
      type =
          if f7 == Defs.f7_normal
          then InstrType.srli
          else if f7 == Defs.f7_alt
          then InstrType.srai
          else InstrType.illegal;
    }
    else record d { imm = imm_i instr; type = select f3 imm_types InstrType.illegal }

abbrev muldiv_types : List (ℕ × InstrType)
muldiv_types =
    (Defs.f3_mul, InstrType.mul)
    ∷ (Defs.f3_mulh, InstrType.mulh)
    ∷ (Defs.f3_mulhsu, InstrType.mulhsu)
    ∷ (Defs.f3_mulhu, InstrType.mulhu)
    ∷ (Defs.f3_div, InstrType.div)
    ∷ (Defs.f3_divu, InstrType.divu)
    ∷ (Defs.f3_rem, InstrType.rem)
    ∷ (Defs.f3_remu, InstrType.remu)
    ∷ []

abbrev reg_types : List (ℕ × InstrType)
reg_types =
    (Defs.f3_add_sub, InstrType.add)
    ∷ (Defs.f3_sll, InstrType.sll)
    ∷ (Defs.f3_slt, InstrType.slt)
    ∷ (Defs.f3_sltu, InstrType.sltu)
    ∷ (Defs.f3_xor, InstrType.xor)
    ∷ (Defs.f3_srl_sra, InstrType.srl)
    ∷ (Defs.f3_or, InstrType.or)
    ∷ (Defs.f3_and, InstrType.and)
    ∷ []

abbrev alt_types : List (ℕ × InstrType)
alt_types = (Defs.f3_add_sub, InstrType.sub) ∷ (Defs.f3_srl_sra, InstrType.sra) ∷ []

unfoldable pub decode_reg : ℕ → DecodedInstr
unfolding rd rs1 rs2 funct3 funct7 select
decode_reg instr =
    let f3 = funct3 instr in
    let f7 = funct7 instr in
    record (blank instr) {
      rd = rd instr;
      rs1 = rs1 instr;
      rs2 = rs2 instr;
      type =
          if f7 == Defs.f7_muldiv
          then select f3 muldiv_types InstrType.illegal
          else if f7 == Defs.f7_normal
          then select f3 reg_types InstrType.illegal
          else if f7 == Defs.f7_alt
          then select f3 alt_types InstrType.illegal
          else InstrType.illegal;
    }

abbrev amo_types : List (ℕ × InstrType)
amo_types =
    (Defs.f5_lr, InstrType.lr_w)
    ∷ (Defs.f5_sc, InstrType.sc_w)
    ∷ (Defs.f5_amoswap, InstrType.amoswap_w)
    ∷ (Defs.f5_amoadd, InstrType.amoadd_w)
    ∷ (Defs.f5_amoxor, InstrType.amoxor_w)
    ∷ (Defs.f5_amoand, InstrType.amoand_w)
    ∷ (Defs.f5_amoor, InstrType.amoor_w)
    ∷ (Defs.f5_amomin, InstrType.amomin_w)
    ∷ (Defs.f5_amomax, InstrType.amomax_w)
    ∷ (Defs.f5_amominu, InstrType.amominu_w)
    ∷ (Defs.f5_amomaxu, InstrType.amomaxu_w)
    ∷ []

unfoldable pub decode_amo : ℕ → DecodedInstr
unfolding rd rs1 rs2 funct3 funct5 select
decode_amo instr = record (blank instr) {
  rd = rd instr;
  rs1 = rs1 instr;
  rs2 = rs2 instr;
  type =
      if not (funct3 instr == 0b010)
      then InstrType.illegal
      else select (funct5 instr) amo_types InstrType.illegal;
}

abbrev priv_types : List (ℕ × InstrType)
priv_types =
    (Defs.f12_ecall, InstrType.ecall)
    ∷ (Defs.f12_ebreak, InstrType.ebreak)
    ∷ (Defs.f12_mret, InstrType.mret)
    ∷ (Defs.f12_sret, InstrType.sret)
    ∷ (Defs.f12_uret, InstrType.uret)
    ∷ (Defs.f12_wfi, InstrType.wfi)
    ∷ []

abbrev csr_types : List (ℕ × InstrType)
csr_types =
    (Defs.f3_csrrw, InstrType.csrrw)
    ∷ (Defs.f3_csrrs, InstrType.csrrs)
    ∷ (Defs.f3_csrrc, InstrType.csrrc)
    ∷ (Defs.f3_csrrwi, InstrType.csrrwi)
    ∷ (Defs.f3_csrrsi, InstrType.csrrsi)
    ∷ (Defs.f3_csrrci, InstrType.csrrci)
    ∷ []

unfoldable pub decode_system : ℕ → DecodedInstr
unfolding rd rs1 rs2 funct3 funct7 funct12 csr_zimm select
decode_system instr =
    let f3 = funct3 instr in
    let d = blank instr in
    if f3 == Defs.f3_priv
    then if funct7 instr == Defs.f7_sfence_vma
      then record d { type = InstrType.sfence_vma; rs1 = rs1 instr; rs2 = rs2 instr }
      else record d { type = select (funct12 instr) priv_types InstrType.illegal }
    else record d {
      rd = rd instr;
      rs1 = rs1 instr;
      csr = funct12 instr;
      imm = csr_zimm instr;
      type = select f3 csr_types InstrType.illegal;
    }

unfoldable pub decode32 : ℕ → DecodedInstr
unfolding opcode rd funct3 imm_u imm_j imm_i
decode32 instr =
    let op = opcode instr in
    let d = blank instr in
    if op == Defs.op_lui
    then record d { type = InstrType.lui; rd = rd instr; imm = imm_u instr }
    else if op == Defs.op_auipc
    then record d { type = InstrType.auipc; rd = rd instr; imm = imm_u instr }
    else if op == Defs.op_jal
    then record d { type = InstrType.jal; rd = rd instr; imm = imm_j instr }
    else if op == Defs.op_jalr
    then record d { type = InstrType.jalr; rd = rd instr; rs1 = rs1 instr; imm = imm_i instr }
    else if op == Defs.op_branch
    then decode_branch instr
    else if op == Defs.op_load
    then decode_load instr
    else if op == Defs.op_store
    then decode_store instr
    else if op == Defs.op_imm
    then decode_imm instr
    else if op == Defs.op_reg
    then decode_reg instr
    else if op == Defs.op_amo
    then decode_amo instr
    else if op == Defs.op_fence
    then record d {
      type = if funct3 instr == Defs.f3_fencei then InstrType.fencei else InstrType.fence;
    }
    else if op == Defs.op_system
    then decode_system instr
    else d
