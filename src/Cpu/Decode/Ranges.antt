-- ===== src/Cpu/Decode/Ranges.antt =====
-- Decoded fields are in range, and the length of an instruction is what its low bits say.
use virtual_so_c.Prelude.{ℕ, ◌%◌, ◌<◌, false, if◌then◌else◌, ◌==◌, ◌≡◌, refl, arith, ◌>>>◌, ◌&&&◌}
use virtual_so_c.Prelude.Bits.{bit_and-le, bit_and_mask}
use virtual_so_c.Cpu.Decode.Instr.{DecodedInstr, instr_len}
use virtual_so_c.Cpu.Decode.Fields.{rd, rs1, rs2, funct12}
use virtual_so_c.Cpu.Decode.Decode32.{
  decode32, decode_branch, decode_load, decode_store, decode_imm, decode_reg, decode_amo,
  decode_system,
}
use virtual_so_c.Cpu.Decode.Decoder.{decode, expand_compressed}

-- Register numbers and CSR addresses that the executor may index with.
pub record InRange (d : DecodedInstr) : Type 0 where
  pub rd_lt : d.rd < 32
  pub rs1_lt : d.rs1 < 32
  pub rs2_lt : d.rs2 < 32
  pub csr_lt : d.csr < 4096

rd-lt : (x : ℕ) → rd x < 32
unfolding rd
rd-lt x = omega (arith, bit_and-le (x >>> 7) 0x1F)

rs1-lt : (x : ℕ) → rs1 x < 32
unfolding rs1
rs1-lt x = omega (arith, bit_and-le (x >>> 15) 0x1F)

rs2-lt : (x : ℕ) → rs2 x < 32
unfolding rs2
rs2-lt x = omega (arith, bit_and-le (x >>> 20) 0x1F)

funct12-lt : (x : ℕ) → funct12 x < 4096
unfolding funct12
funct12-lt x = omega (arith, bit_and-le (x >>> 20) 0xFFF)

decode_branch-InRange : (x : ℕ) → InRange (decode_branch x)
unfolding decode_branch
decode_branch-InRange x = ground (arith, rs1-lt x, rs2-lt x)

decode_load-InRange : (x : ℕ) → InRange (decode_load x)
unfolding decode_load
decode_load-InRange x = ground (arith, rd-lt x, rs1-lt x)

decode_store-InRange : (x : ℕ) → InRange (decode_store x)
unfolding decode_store
decode_store-InRange x = ground (arith, rs1-lt x, rs2-lt x)

decode_imm-InRange : (x : ℕ) → InRange (decode_imm x)
unfolding decode_imm
decode_imm-InRange x = ground (arith, rd-lt x, rs1-lt x)

decode_reg-InRange : (x : ℕ) → InRange (decode_reg x)
unfolding decode_reg
decode_reg-InRange x = ground (arith, rd-lt x, rs1-lt x, rs2-lt x)

decode_amo-InRange : (x : ℕ) → InRange (decode_amo x)
unfolding decode_amo
decode_amo-InRange x = ground (arith, rd-lt x, rs1-lt x, rs2-lt x)

decode_system-InRange : (x : ℕ) → InRange (decode_system x)
unfolding decode_system
decode_system-InRange x = ground (arith, rd-lt x, rs1-lt x, rs2-lt x, funct12-lt x)

decode32-InRange : (x : ℕ) → InRange (decode32 x)
unfolding decode32
decode32-InRange x = ground (
  arith,
  rd-lt x,
  rs1-lt x,
  decode_branch-InRange x,
  decode_load-InRange x,
  decode_store-InRange x,
  decode_imm-InRange x,
  decode_reg-InRange x,
  decode_amo-InRange x,
  decode_system-InRange x,
)

-- Whatever word is fetched, the decoder's register numbers index the 32 registers and its CSR
-- address has 12 bits.
pub decode-InRange : (x : ℕ) → InRange (decode x)
unfolding decode
decode-InRange x =
    ground (arith, decode32-InRange x, decode32-InRange (expand_compressed (x &&& 0xFFFF)))

decode_imm-compressed : (x : ℕ) → (decode_imm x).compressed ≡ false
unfolding decode_imm
decode_imm-compressed x = ground arith

decode_system-compressed : (x : ℕ) → (decode_system x).compressed ≡ false
unfolding decode_system
decode_system-compressed x = ground arith

decode_plain-compressed :
    (x : ℕ)
    → ((decode_branch x).compressed ≡ false)
      × ((decode_load x).compressed ≡ false)
      × ((decode_store x).compressed ≡ false)
      × ((decode_reg x).compressed ≡ false)
      × ((decode_amo x).compressed ≡ false)
unfolding decode_branch decode_load decode_store decode_reg decode_amo
decode_plain-compressed x = (refl, refl, refl, refl, refl)

decode32-compressed : (x : ℕ) → (decode32 x).compressed ≡ false
unfolding decode32
decode32-compressed x =
    ground (arith, decode_imm-compressed x, decode_system-compressed x, decode_plain-compressed x)

-- The program counter moves by 4 exactly on words whose two low bits are ones, and by 2 on
-- others.
pub instr_len-decode : (x : ℕ) → instr_len (decode x) ≡ (if x % 4 == 3 then 4 else 2)
unfolding decode instr_len
instr_len-decode x = ground (arith, decode32-compressed x, bit_and_mask 2 x)
