-- ===== src/Cpu/Decode/Offsets.antt =====
-- The offsets of compressed jumps and branches, from the bit positions that the ISA gives them.
use virtual_so_c.Prelude.{
  ℕ, ◌+◌, ◌-◌, ◌*◌, ◌/◌, ◌%◌, ◌^◌, ◌<◌, true, ltb, if◌then◌else◌, ◌≡◌, refl, arith,
}
use virtual_so_c.Prelude.Bits.{bit}
use virtual_so_c.Prelude.Table.{tabulate, tabulate_agree}
use virtual_so_c.Cpu.Decode.Instr.{InstrType, DecodedInstr, blank}
use virtual_so_c.Cpu.Decode.Decode32.{decode32, decode_branch}
use virtual_so_c.Cpu.Decode.Quadrant1.{quadrant1}
use virtual_so_c.Cpu.Decode.Decoder.{decode, expand_compressed}

-- An even offset of `w` bits, given by its half `k`, as a 32-bit pattern.
abbrev pub offset_word : ℕ → ℕ → ℕ
offset_word w k = if ltb k (2 ^ (w - 2)) then 2 * k else 2 * k + (2 ^ 32 - 2 ^ w)

-- offset[11|4|9:8|10|6|7|3:1|5] in bits 12 to 2, under the function code `f3`.
unfoldable pub encode_c_jump : ℕ → ℕ → ℕ
unfolding bit
encode_c_jump f3 k =
    f3 * 2 ^ 13
    + bit 10 k * 2 ^ 12
    + bit 3 k * 2 ^ 11
    + bit 8 k * 2 ^ 10
    + bit 7 k * 2 ^ 9
    + bit 9 k * 2 ^ 8
    + bit 5 k * 2 ^ 7
    + bit 6 k * 2 ^ 6
    + k % 8 * 2 ^ 3
    + bit 4 k * 2 ^ 2
    + 1

abbrev pub jump_to : ℕ → ℕ → ℕ → DecodedInstr
jump_to f3 link k = record (blank (encode_c_jump f3 k)) {
  type = InstrType.jal;
  rd = link;
  imm = offset_word 12 k;
  compressed = true;
}

c_j_table : tabulate (λ k. decode (encode_c_jump 0b101 k)) 2048 ≡ tabulate (jump_to 0b101 0) 2048
unfolding tabulate encode_c_jump decode expand_compressed quadrant1 decode32
c_j_table = refl

c_jal_table : tabulate (λ k. decode (encode_c_jump 0b001 k)) 2048 ≡ tabulate (jump_to 0b001 1) 2048
unfolding tabulate encode_c_jump decode expand_compressed quadrant1 decode32
c_jal_table = refl

-- Every C.J and C.JAL, over the 2048 even offsets from -2048 to 2046, decodes to the JAL with x0
-- and with x1 of that offset.
pub decode-encode_c_jump :
    (k : ℕ)
    → k < 2048
    → (decode (encode_c_jump 0b101 k) ≡ jump_to 0b101 0 k)
      × (decode (encode_c_jump 0b001 k) ≡ jump_to 0b001 1 k)
decode-encode_c_jump k l = (
  tabulate_agree (λ j. decode (encode_c_jump 0b101 j)) (jump_to 0b101 0) 2048 k c_j_table l,
  tabulate_agree (λ j. decode (encode_c_jump 0b001 j)) (jump_to 0b001 1) 2048 k c_jal_table l,
)

-- offset[8|4:3] in bits 12 to 10, the register x8 + r in bits 9 to 7, offset[7:6|2:1|5] in bits 6
-- to 2.
unfoldable pub encode_c_branch : ℕ → ℕ → ℕ → ℕ
unfolding bit
encode_c_branch f3 r k =
    f3 * 2 ^ 13
    + bit 7 k * 2 ^ 12
    + k / 4 % 4 * 2 ^ 10
    + r * 2 ^ 7
    + k / 32 % 4 * 2 ^ 5
    + k % 4 * 2 ^ 3
    + bit 4 k * 2 ^ 2
    + 1

abbrev pub branch_to : ℕ → InstrType → ℕ → ℕ → DecodedInstr
branch_to f3 t r k = record (blank (encode_c_branch f3 r k)) {
  type = t;
  rs1 = 8 + r;
  imm = offset_word 9 k;
  compressed = true;
}

c_beqz_table :
    tabulate (λ n. decode (encode_c_branch 0b110 (n / 256) (n % 256))) 2048
    ≡ tabulate (λ n. branch_to 0b110 InstrType.beq (n / 256) (n % 256)) 2048
unfolding tabulate encode_c_branch decode expand_compressed quadrant1 decode32 decode_branch
c_beqz_table = refl

c_bnez_table :
    tabulate (λ n. decode (encode_c_branch 0b111 (n / 256) (n % 256))) 2048
    ≡ tabulate (λ n. branch_to 0b111 InstrType.bne (n / 256) (n % 256)) 2048
unfolding tabulate encode_c_branch decode expand_compressed quadrant1 decode32 decode_branch
c_bnez_table = refl

-- Every C.BEQZ and C.BNEZ, over its 8 registers and 256 even offsets from -256 to 254, decodes to
-- the BEQ and BNE of that register with x0 and with that offset.
pub decode-encode_c_branch :
    (r k : ℕ)
    → r < 8
    → k < 256
    → (decode (encode_c_branch 0b110 r k) ≡ branch_to 0b110 InstrType.beq r k)
      × (decode (encode_c_branch 0b111 r k) ≡ branch_to 0b111 InstrType.bne r k)
decode-encode_c_branch r k lr lk =
    let n : ℕ = r * 256 + k in
    let r_of : n / 256 ≡ r = omega arith in
    let k_of : n % 256 ≡ k = omega arith in
    let small : n < 2048 = omega arith in
    (
      rw r_of at (
          rw k_of at (
            tabulate_agree (λ j. decode (encode_c_branch 0b110 (j / 256) (j % 256)))
              (λ j. branch_to 0b110 InstrType.beq (j / 256) (j % 256)) 2048 n c_beqz_table small)),
      rw r_of at (
          rw k_of at (
            tabulate_agree (λ j. decode (encode_c_branch 0b111 (j / 256) (j % 256)))
              (λ j. branch_to 0b111 InstrType.bne (j / 256) (j % 256)) 2048 n c_bnez_table small)),
    )
