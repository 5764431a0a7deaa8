-- ===== src/Cpu/Decode/Decoder.antt =====
-- `expand_compressed` and `decode`.
use virtual_so_c.Prelude.{ℕ, true, not, ◌==◌, if◌then◌else◌, ◌>>>◌, ◌&&&◌, ◌≡◌, refl}
use virtual_so_c.Cpu.Decode.Instr.{InstrType, DecodedInstr, blank}
use virtual_so_c.Cpu.Decode.Decode32.{decode32, decode_reg}
use virtual_so_c.Cpu.Decode.Quadrants.{quadrant0, quadrant2}
use virtual_so_c.Cpu.Decode.Quadrant1.{quadrant1}

unfoldable pub expand_compressed : ℕ → ℕ
expand_compressed ci =
    let op = ci &&& 0x3 in
    let f3 = ci >>> 13 &&& 0x7 in
    if op == 0b00
    then quadrant0 f3 ci
    else if op == 0b01
    then quadrant1 f3 ci
    else if op == 0b10
    then quadrant2 f3 ci
    else 0

unfoldable pub decode : ℕ → DecodedInstr
decode instr =
    let low = instr &&& 0xFFFF in
    let expanded = expand_compressed low in
    if not ((instr &&& 0x3) == 0x3)
    then if expanded == 0
      then record (blank low) { compressed = true }
      else record (decode32 expanded) { raw = low; compressed = true }
    else decode32 instr

-- C.ADD x10, x11 and C.J -2.
decode_c_add :
    decode 0x952e
    ≡ record (blank 0x952e) { type = InstrType.add; rd = 10; rs1 = 10; rs2 = 11; compressed = true }
unfolding decode expand_compressed quadrant2 decode32 decode_reg
decode_c_add = refl

decode_c_j :
    decode 0xbffd
    ≡ record (blank 0xbffd) { type = InstrType.jal; imm = 0xfffffffe; compressed = true }
unfolding decode expand_compressed quadrant1 decode32
decode_c_j = refl
