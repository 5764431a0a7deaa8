-- ===== src/Cpu/Decode/Quadrants.antt =====
-- `expand_compressed`, quadrants 0 and 2. `ci` is below 2 ^ 16, so none of the shifts of it wraps.
use virtual_so_c.Prelude.{ℕ, ◌+◌, ◌==◌, if◌then◌else◌, ◌<<<◌, ◌>>>◌, ◌&&&◌, ◌|||◌}
use virtual_so_c.Cpu.Defs

-- x8 to x15 by three bits.
unfoldable pub creg : ℕ → ℕ
creg bits = bits + 8

-- C.ADDI4SPN
unfoldable pub c_addi4spn : ℕ → ℕ
unfolding creg
c_addi4spn ci =
    let nzuimm =
      (ci >>> 1 &&& 0x3C0) ||| (ci >>> 7 &&& 0x30) ||| (ci >>> 2 &&& 0x8) ||| (ci >>> 4 &&& 0x4) in
    let rdp = creg (ci >>> 2 &&& 0x7) in
    if nzuimm == 0
    then 0
    else nzuimm <<< 20 ||| 2 <<< 15 ||| 0b000 <<< 12 ||| rdp <<< 7 ||| Defs.op_imm

-- C.LW
unfoldable pub c_lw : ℕ → ℕ
unfolding creg
c_lw ci =
    let rs1p = creg (ci >>> 7 &&& 0x7) in
    let rdp = creg (ci >>> 2 &&& 0x7) in
    let off = (ci >>> 7 &&& 0x38) ||| (ci >>> 4 &&& 0x4) ||| (ci <<< 1 &&& 0x40) in
    off <<< 20 ||| rs1p <<< 15 ||| 0b010 <<< 12 ||| rdp <<< 7 ||| Defs.op_load

-- C.SW
unfoldable pub c_sw : ℕ → ℕ
unfolding creg
c_sw ci =
    let rs1p = creg (ci >>> 7 &&& 0x7) in
    let rs2p = creg (ci >>> 2 &&& 0x7) in
    let off = (ci >>> 7 &&& 0x38) ||| (ci >>> 4 &&& 0x4) ||| (ci <<< 1 &&& 0x40) in
    let imm_s_hi = off >>> 5 &&& 0x7F in
    let imm_s_lo = off &&& 0x1F in
    imm_s_hi <<< 25
    ||| rs2p <<< 20
    ||| rs1p <<< 15
    ||| 0b010 <<< 12
    ||| imm_s_lo <<< 7
    ||| Defs.op_store

unfoldable pub quadrant0 : ℕ → ℕ → ℕ
unfolding c_addi4spn c_lw c_sw
quadrant0 f3 ci =
    if f3 == 0b000
    then c_addi4spn ci
    else if f3 == 0b010
    then c_lw ci
    else if f3 == 0b110
    then c_sw ci
    else 0

-- C.SLLI
unfoldable pub c_slli : ℕ → ℕ
c_slli ci =
    let r = ci >>> 7 &&& 0x1F in
    let shamt = (ci >>> 7 &&& 0x20) ||| (ci >>> 2 &&& 0x1F) in
    Defs.f7_normal <<< 25
    ||| shamt <<< 20
    ||| r <<< 15
    ||| Defs.f3_sll <<< 12
    ||| r <<< 7
    ||| Defs.op_imm

-- C.LWSP
unfoldable pub c_lwsp : ℕ → ℕ
c_lwsp ci =
    let r = ci >>> 7 &&& 0x1F in
    let off = (ci >>> 7 &&& 0x20) ||| (ci >>> 2 &&& 0x1C) ||| (ci <<< 4 &&& 0xC0) in
    if r == 0 then 0 else off <<< 20 ||| 2 <<< 15 ||| 0b010 <<< 12 ||| r <<< 7 ||| Defs.op_load

-- C.JR, C.MV, C.EBREAK, C.JALR and C.ADD
unfoldable pub c_jump_move : ℕ → ℕ
c_jump_move ci =
    let r1 = ci >>> 7 &&& 0x1F in
    let r2 = ci >>> 2 &&& 0x1F in
    let hi = ci >>> 12 &&& 0x1 in
    if hi == 0
    then if r2 == 0
      then if r1 == 0 then 0 else r1 <<< 15 ||| 0 <<< 12 ||| 0 <<< 7 ||| Defs.op_jalr
      else Defs.f7_normal <<< 25
        ||| r2 <<< 20
        ||| 0 <<< 15
        ||| Defs.f3_add_sub <<< 12
        ||| r1 <<< 7
        ||| Defs.op_reg
    else if r2 == 0
    then if r1 == 0
      then Defs.f12_ebreak <<< 20 ||| Defs.op_system
      else r1 <<< 15 ||| 0 <<< 12 ||| 1 <<< 7 ||| Defs.op_jalr
    else Defs.f7_normal <<< 25
      ||| r2 <<< 20
      ||| r1 <<< 15
      ||| Defs.f3_add_sub <<< 12
      ||| r1 <<< 7
      ||| Defs.op_reg

-- C.SWSP
unfoldable pub c_swsp : ℕ → ℕ
c_swsp ci =
    let r2 = ci >>> 2 &&& 0x1F in
    let off = (ci >>> 7 &&& 0x3C) ||| (ci >>> 1 &&& 0xC0) in
    let imm_hi = off >>> 5 &&& 0x7F in
    let imm_lo = off &&& 0x1F in
    imm_hi <<< 25 ||| r2 <<< 20 ||| 2 <<< 15 ||| 0b010 <<< 12 ||| imm_lo <<< 7 ||| Defs.op_store

unfoldable pub quadrant2 : ℕ → ℕ → ℕ
unfolding c_slli c_lwsp c_jump_move c_swsp
quadrant2 f3 ci =
    if f3 == 0b000
    then c_slli ci
    else if f3 == 0b010
    then c_lwsp ci
    else if f3 == 0b100
    then c_jump_move ci
    else if f3 == 0b110
    then c_swsp ci
    else 0
