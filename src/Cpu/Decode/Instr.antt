-- ===== src/Cpu/Decode/Instr.antt =====
-- Instruction types and decoded instructions: src/cpu/decode.h.
use virtual_so_c.Prelude.{ℕ, Bool, false, if◌then◌else◌, List, [], ◌∷◌, ◌==◌}

pub data InstrType : Type 0 where
  lui auipc jal jalr : InstrType
  beq bne blt bge bltu bgeu : InstrType
  lb lh lw lbu lhu : InstrType
  sb sh sw : InstrType
  addi slti sltiu xori ori andi slli srli srai : InstrType
  add sub sll slt sltu xor srl sra or and : InstrType
  mul mulh mulhsu mulhu div divu rem remu : InstrType
  lr_w sc_w amoswap_w amoadd_w amoxor_w amoand_w amoor_w : InstrType
  amomin_w amomax_w amominu_w amomaxu_w : InstrType
  ecall ebreak mret sret uret wfi sfence_vma : InstrType
  csrrw csrrs csrrc csrrwi csrrsi csrrci : InstrType
  fence fencei : InstrType
  illegal : InstrType

-- `imm`, an `int32_t`, is its bit pattern.
pub record DecodedInstr : Type 0 where
  pub type : InstrType
  pub rd : ℕ
  pub rs1 : ℕ
  pub rs2 : ℕ
  pub imm : ℕ
  pub csr : ℕ
  pub raw : ℕ
  pub compressed : Bool

-- A default `DecodedInstr` with `raw` set.
abbrev pub blank : ℕ → DecodedInstr
blank raw = record {
  type = InstrType.illegal;
  rd = 0;
  rs1 = 0;
  rs2 = 0;
  imm = 0;
  csr = 0;
  raw = raw;
  compressed = false;
}

unfoldable pub instr_len : DecodedInstr → ℕ
instr_len d = if d.compressed then 2 else 4

-- `switch (code)` over the pairs of a label and the type that its case assigns.
unfoldable pub select : ℕ → List (ℕ × InstrType) → InstrType → InstrType
select code [] otherwise = otherwise
select code ((label, t) ∷ cases) otherwise =
    if code == label then t else select code cases otherwise
