-- ===== src/Cpu/Decode/Fields.antt =====
-- Instruction fields and immediates: the inline functions of src/cpu/rv32_defs.h.
use virtual_so_c.Prelude.{ℕ, ◌<<<◌, ◌>>>◌, ◌&&&◌, ◌|||◌, sra32}

unfoldable pub opcode : ℕ → ℕ
opcode instr = instr &&& 0x7F

unfoldable pub rd : ℕ → ℕ
rd instr = instr >>> 7 &&& 0x1F

unfoldable pub funct3 : ℕ → ℕ
funct3 instr = instr >>> 12 &&& 0x7

unfoldable pub rs1 : ℕ → ℕ
rs1 instr = instr >>> 15 &&& 0x1F

unfoldable pub rs2 : ℕ → ℕ
rs2 instr = instr >>> 20 &&& 0x1F

unfoldable pub funct7 : ℕ → ℕ
funct7 instr = instr >>> 25 &&& 0x7F

unfoldable pub funct5 : ℕ → ℕ
funct5 instr = instr >>> 27 &&& 0x1F

unfoldable pub funct12 : ℕ → ℕ
funct12 instr = instr >>> 20 &&& 0xFFF

unfoldable pub imm_i : ℕ → ℕ
imm_i instr = sra32 instr 20

unfoldable pub imm_s : ℕ → ℕ
imm_s instr = sra32 (instr &&& 0xFE000000) 20 ||| (instr >>> 7 &&& 0x1F)

-- `(instr & 0x80) << 4` is below 2 ^ 12, so its shift does not wrap.
unfoldable pub imm_b : ℕ → ℕ
imm_b instr =
    sra32 (instr &&& 0x80000000) 19
    ||| ((instr &&& 0x80) <<< 4)
    ||| (instr >>> 20 &&& 0x7E0)
    ||| (instr >>> 7 &&& 0x1E)

unfoldable pub imm_u : ℕ → ℕ
imm_u instr = instr &&& 0xFFFFF000

unfoldable pub imm_j : ℕ → ℕ
imm_j instr =
    sra32 (instr &&& 0x80000000) 11
    ||| (instr &&& 0xFF000)
    ||| (instr >>> 9 &&& 0x800)
    ||| (instr >>> 20 &&& 0x7FE)

unfoldable pub csr_zimm : ℕ → ℕ
unfolding rs1
csr_zimm instr = rs1 instr
