-- ===== src/Cpu/Decode/Quadrant1.antt =====
-- `expand_compressed`, quadrant 1. A negative `int32_t` is its bit pattern.
use virtual_so_c.Prelude.{
  ℕ, ◌==◌, if◌then◌else◌, ◌<<<◌, ◌>>>◌, ◌&&&◌, ◌|||◌, not32, has_bits, shl32, sra32,
}
use virtual_so_c.Cpu.Defs
use virtual_so_c.Cpu.Decode.Quadrants.{creg}

-- `if (v & sign) v |= ~mask`.
abbrev extend : ℕ → ℕ → ℕ → ℕ
extend sign mask v = if has_bits v sign then v ||| not32 mask else v

-- The six-bit immediate of most formats, before and after its sign extension.
unfoldable pub imm6 : ℕ → ℕ
imm6 ci = (ci >>> 7 &&& 0x20) ||| (ci >>> 2 &&& 0x1F)

unfoldable pub simm6 : ℕ → ℕ
unfolding imm6
simm6 ci = extend 0x20 0x3F (imm6 ci)

-- C.ADDI and C.NOP
unfoldable pub c_addi : ℕ → ℕ
unfolding simm6
c_addi ci =
    let r = ci >>> 7 &&& 0x1F in
    shl32 (simm6 ci) 20 ||| r <<< 15 ||| 0b000 <<< 12 ||| r <<< 7 ||| Defs.op_imm

-- The offset of C.JAL and C.J, and the immediate of the JAL that they become.
unfoldable pub jump_offset : ℕ → ℕ
jump_offset ci = extend 0x800 0xFFF (
    (ci >>> 1 &&& 0x800)
    ||| (ci >>> 7 &&& 0x10)
    ||| (ci >>> 1 &&& 0x300)
    ||| (ci <<< 2 &&& 0x400)
    ||| (ci >>> 1 &&& 0x40)
    ||| (ci <<< 1 &&& 0x80)
    ||| (ci >>> 2 &&& 0xE)
    ||| (ci <<< 3 &&& 0x20))

unfoldable pub jump_imm20 : ℕ → ℕ
jump_imm20 off =
    (sra32 off 20 &&& 0x1) <<< 31
    ||| (sra32 off 1 &&& 0x3FF) <<< 21
    ||| (sra32 off 11 &&& 0x1) <<< 20
    ||| (sra32 off 12 &&& 0xFF) <<< 12

-- C.JAL with link register 1, C.J with 0
unfoldable pub c_jump : ℕ → ℕ → ℕ
unfolding jump_offset jump_imm20
c_jump link ci = jump_imm20 (jump_offset ci) ||| link <<< 7 ||| Defs.op_jal

-- C.LI
unfoldable pub c_li : ℕ → ℕ
unfolding simm6
c_li ci =
    let r = ci >>> 7 &&& 0x1F in
    shl32 (simm6 ci) 20 ||| 0 <<< 15 ||| 0b000 <<< 12 ||| r <<< 7 ||| Defs.op_imm

-- C.ADDI16SP
unfoldable pub c_addi16sp : ℕ → ℕ
c_addi16sp ci =
    let nzimm = extend 0x200 0x3FF (
      (ci >>> 3 &&& 0x200)
      ||| (ci >>> 2 &&& 0x10)
      ||| (ci <<< 1 &&& 0x40)
      ||| (ci <<< 4 &&& 0x180)
      ||| (ci <<< 3 &&& 0x20)) in
    if nzimm == 0
    then 0
    else shl32 nzimm 20 ||| 2 <<< 15 ||| 0b000 <<< 12 ||| 2 <<< 7 ||| Defs.op_imm

-- C.LUI, or C.ADDI16SP where the register is x2
unfoldable pub c_lui : ℕ → ℕ
unfolding simm6 c_addi16sp
c_lui ci =
    let r = ci >>> 7 &&& 0x1F in
    let nzimm = simm6 ci in
    if r == 2
    then c_addi16sp ci
    else if nzimm == 0
    then 0
    else shl32 nzimm 12 ||| r <<< 7 ||| Defs.op_lui

-- C.SUB, C.XOR, C.OR and C.AND
unfoldable pub c_reg : ℕ → ℕ
unfolding creg
c_reg ci =
    let rdp = creg (ci >>> 7 &&& 0x7) in
    let rs2p = creg (ci >>> 2 &&& 0x7) in
    let sub2 = ci >>> 5 &&& 0x3 in
    let hi = ci >>> 12 &&& 0x1 in
    if hi == 0
    then if sub2 == 0b00
      then Defs.f7_alt <<< 25
        ||| rs2p <<< 20
        ||| rdp <<< 15
        ||| Defs.f3_add_sub <<< 12
        ||| rdp <<< 7
        ||| Defs.op_reg
      else if sub2 == 0b01
      then Defs.f7_normal <<< 25
        ||| rs2p <<< 20
        ||| rdp <<< 15
        ||| Defs.f3_xor <<< 12
        ||| rdp <<< 7
        ||| Defs.op_reg
      else if sub2 == 0b10
      then Defs.f7_normal <<< 25
        ||| rs2p <<< 20
        ||| rdp <<< 15
        ||| Defs.f3_or <<< 12
        ||| rdp <<< 7
        ||| Defs.op_reg
      else Defs.f7_normal <<< 25
        ||| rs2p <<< 20
        ||| rdp <<< 15
        ||| Defs.f3_and <<< 12
        ||| rdp <<< 7
        ||| Defs.op_reg
    else 0

-- C.SRLI and C.SRAI by the function code 7, C.ANDI, and the register forms
unfoldable pub c_arith : ℕ → ℕ
unfolding creg imm6 simm6 c_reg
c_arith ci =
    let rdp = creg (ci >>> 7 &&& 0x7) in
    let sub = ci >>> 10 &&& 0x3 in
    if sub == 0b00
    then Defs.f7_normal <<< 25
      ||| imm6 ci <<< 20
      ||| rdp <<< 15
      ||| Defs.f3_srl_sra <<< 12
      ||| rdp <<< 7
      ||| Defs.op_imm
    else if sub == 0b01
    then Defs.f7_alt <<< 25
      ||| imm6 ci <<< 20
      ||| rdp <<< 15
      ||| Defs.f3_srl_sra <<< 12
      ||| rdp <<< 7
      ||| Defs.op_imm
    else if sub == 0b10
    then shl32 (simm6 ci) 20 ||| rdp <<< 15 ||| Defs.f3_and <<< 12 ||| rdp <<< 7 ||| Defs.op_imm
    else c_reg ci

-- The offset of C.BEQZ and C.BNEZ.
unfoldable pub branch_offset : ℕ → ℕ
branch_offset ci = extend 0x100 0x1FF (
    (ci >>> 4 &&& 0x100)
    ||| (ci >>> 7 &&& 0x18)
    ||| (ci <<< 1 &&& 0xC0)
    ||| (ci >>> 2 &&& 0x6)
    ||| (ci <<< 3 &&& 0x20))

-- C.BEQZ and C.BNEZ by the function code of the branch
unfoldable pub c_branch : ℕ → ℕ → ℕ
unfolding creg branch_offset
c_branch f3 ci =
    let rs1p = creg (ci >>> 7 &&& 0x7) in
    let off = branch_offset ci in
    let imm_hi = (sra32 off 12 &&& 0x1) <<< 6 ||| (sra32 off 5 &&& 0x3F) in
    let imm_lo = (sra32 off 1 &&& 0xF) <<< 1 ||| (sra32 off 11 &&& 0x1) in
    imm_hi <<< 25 ||| 0 <<< 20 ||| rs1p <<< 15 ||| f3 <<< 12 ||| imm_lo <<< 7 ||| Defs.op_branch

unfoldable pub quadrant1 : ℕ → ℕ → ℕ
unfolding c_addi c_jump c_li c_lui c_arith c_branch
quadrant1 f3 ci =
    if f3 == 0b000
    then c_addi ci
    else if f3 == 0b001
    then c_jump 1 ci
    else if f3 == 0b010
    then c_li ci
    else if f3 == 0b011
    then c_lui ci
    else if f3 == 0b100
    then c_arith ci
    else if f3 == 0b101
    then c_jump 0 ci
    else if f3 == 0b110
    then c_branch Defs.f3_beq ci
    else c_branch Defs.f3_bne ci
