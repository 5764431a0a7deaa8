-- ===== src/Cpu/Defs/Opcodes.antt =====
-- Opcodes and function codes of src/cpu/rv32_defs.h.
use virtual_so_c.Prelude.{ℕ}

-- Major opcodes (bits [6:0])
abbrev pub op_lui : ℕ
op_lui = 0b0110111

abbrev pub op_auipc : ℕ
op_auipc = 0b0010111

abbrev pub op_jal : ℕ
op_jal = 0b1101111

abbrev pub op_jalr : ℕ
op_jalr = 0b1100111

abbrev pub op_branch : ℕ
op_branch = 0b1100011

abbrev pub op_load : ℕ
op_load = 0b0000011

abbrev pub op_store : ℕ
op_store = 0b0100011

abbrev pub op_imm : ℕ
op_imm = 0b0010011

abbrev pub op_reg : ℕ
op_reg = 0b0110011

abbrev pub op_fence : ℕ
op_fence = 0b0001111

abbrev pub op_system : ℕ
op_system = 0b1110011

abbrev pub op_amo : ℕ
op_amo = 0b0101111

-- funct3 for branches
abbrev pub f3_beq : ℕ
f3_beq = 0b000

abbrev pub f3_bne : ℕ
f3_bne = 0b001

abbrev pub f3_blt : ℕ
f3_blt = 0b100

abbrev pub f3_bge : ℕ
f3_bge = 0b101

abbrev pub f3_bltu : ℕ
f3_bltu = 0b110

abbrev pub f3_bgeu : ℕ
f3_bgeu = 0b111

-- funct3 for loads
abbrev pub f3_lb : ℕ
f3_lb = 0b000

abbrev pub f3_lh : ℕ
f3_lh = 0b001

abbrev pub f3_lw : ℕ
f3_lw = 0b010

abbrev pub f3_lbu : ℕ
f3_lbu = 0b100

abbrev pub f3_lhu : ℕ
f3_lhu = 0b101

-- funct3 for stores
abbrev pub f3_sb : ℕ
f3_sb = 0b000

abbrev pub f3_sh : ℕ
f3_sh = 0b001

abbrev pub f3_sw : ℕ
f3_sw = 0b010

-- funct3 for ALU immediate / register
abbrev pub f3_add_sub : ℕ
f3_add_sub = 0b000

abbrev pub f3_sll : ℕ
f3_sll = 0b001

abbrev pub f3_slt : ℕ
f3_slt = 0b010

abbrev pub f3_sltu : ℕ
f3_sltu = 0b011

abbrev pub f3_xor : ℕ
f3_xor = 0b100

abbrev pub f3_srl_sra : ℕ
f3_srl_sra = 0b101

abbrev pub f3_or : ℕ
f3_or = 0b110

abbrev pub f3_and : ℕ
f3_and = 0b111

-- funct7
abbrev pub f7_normal : ℕ
f7_normal = 0b0000000

abbrev pub f7_alt : ℕ
f7_alt = 0b0100000

abbrev pub f7_muldiv : ℕ
f7_muldiv = 0b0000001

-- funct3 for M extension
abbrev pub f3_mul : ℕ
f3_mul = 0b000

abbrev pub f3_mulh : ℕ
f3_mulh = 0b001

abbrev pub f3_mulhsu : ℕ
f3_mulhsu = 0b010

abbrev pub f3_mulhu : ℕ
f3_mulhu = 0b011

abbrev pub f3_div : ℕ
f3_div = 0b100

abbrev pub f3_divu : ℕ
f3_divu = 0b101

abbrev pub f3_rem : ℕ
f3_rem = 0b110

abbrev pub f3_remu : ℕ
f3_remu = 0b111

-- funct5 for A extension (bits [31:27])
abbrev pub f5_lr : ℕ
f5_lr = 0b00010

abbrev pub f5_sc : ℕ
f5_sc = 0b00011

abbrev pub f5_amoswap : ℕ
f5_amoswap = 0b00001

abbrev pub f5_amoadd : ℕ
f5_amoadd = 0b00000

abbrev pub f5_amoxor : ℕ
f5_amoxor = 0b00100

abbrev pub f5_amoand : ℕ
f5_amoand = 0b01100

abbrev pub f5_amoor : ℕ
f5_amoor = 0b01000

abbrev pub f5_amomin : ℕ
f5_amomin = 0b10000

abbrev pub f5_amomax : ℕ
f5_amomax = 0b10100

abbrev pub f5_amominu : ℕ
f5_amominu = 0b11000

abbrev pub f5_amomaxu : ℕ
f5_amomaxu = 0b11100

-- funct3 for SYSTEM
abbrev pub f3_priv : ℕ
f3_priv = 0b000

abbrev pub f3_csrrw : ℕ
f3_csrrw = 0b001

abbrev pub f3_csrrs : ℕ
f3_csrrs = 0b010

abbrev pub f3_csrrc : ℕ
f3_csrrc = 0b011

abbrev pub f3_csrrwi : ℕ
f3_csrrwi = 0b101

abbrev pub f3_csrrsi : ℕ
f3_csrrsi = 0b110

abbrev pub f3_csrrci : ℕ
f3_csrrci = 0b111

-- SYSTEM funct12 (imm[11:0]) for our privileged instructions
abbrev pub f12_ecall : ℕ
f12_ecall = 0x000

abbrev pub f12_ebreak : ℕ
f12_ebreak = 0x001

abbrev pub f12_uret : ℕ
f12_uret = 0x002

abbrev pub f12_sret : ℕ
f12_sret = 0x102

abbrev pub f12_mret : ℕ
f12_mret = 0x302

abbrev pub f12_wfi : ℕ
f12_wfi = 0x105

-- funct7 for SFENCE.VMA
abbrev pub f7_sfence_vma : ℕ
f7_sfence_vma = 0b0001001

-- funct3 for FENCE
abbrev pub f3_fence : ℕ
f3_fence = 0b000

abbrev pub f3_fencei : ℕ
f3_fencei = 0b001
