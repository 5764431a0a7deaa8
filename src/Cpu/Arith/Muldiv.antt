-- ===== src/Cpu/Arith/Muldiv.antt =====
-- The functions of src/cpu/rv32m.cpp.
use virtual_so_c.Prelude.{ℕ, ◌*◌, ◌/◌, ◌%◌, ◌==◌, ◌&&◌, if◌then◌else◌, u32, ◌>>>◌}
use virtual_so_c.Cpu.Arith.Signed.{pos, signed32, word32, ◌*ℤ◌, shift_right, quot, remainder}

unfoldable pub mul : ℕ → ℕ → ℕ
unfolding signed32 word32 ◌*ℤ◌
mul rs1 rs2 = word32 (signed32 rs1 *ℤ signed32 rs2)

unfoldable pub mulh : ℕ → ℕ → ℕ
unfolding signed32 word32 ◌*ℤ◌ shift_right
mulh rs1 rs2 = word32 (shift_right (signed32 rs1 *ℤ signed32 rs2) 32)

unfoldable pub mulhsu : ℕ → ℕ → ℕ
unfolding signed32 word32 ◌*ℤ◌ shift_right
mulhsu rs1 rs2 = word32 (shift_right (signed32 rs1 *ℤ pos rs2) 32)

unfoldable pub mulhu : ℕ → ℕ → ℕ
mulhu rs1 rs2 = u32 ((rs1 * rs2) >>> 32)

-- INT32_MIN is 0x80000000 and -1 is 0xFFFFFFFF.
unfoldable pub div : ℕ → ℕ → ℕ
unfolding signed32 word32 quot
div rs1 rs2 =
    if rs2 == 0
    then 0xFFFFFFFF
    else if rs1 == 0x80000000 && rs2 == 0xFFFFFFFF
    then 0x80000000
    else word32 (quot (signed32 rs1) (signed32 rs2))

unfoldable pub divu : ℕ → ℕ → ℕ
divu rs1 rs2 = if rs2 == 0 then 0xFFFFFFFF else rs1 / rs2

unfoldable pub rem : ℕ → ℕ → ℕ
unfolding signed32 word32 remainder
rem rs1 rs2 =
    if rs2 == 0
    then rs1
    else if rs1 == 0x80000000 && rs2 == 0xFFFFFFFF
    then 0
    else word32 (remainder (signed32 rs1) (signed32 rs2))

unfoldable pub remu : ℕ → ℕ → ℕ
remu rs1 rs2 = if rs2 == 0 then rs1 else rs1 % rs2
