-- ===== src/Tests/Arith.antt =====
-- The M extension on concrete operands: src/cpu/rv32m.cpp.
use virtual_so_c.Prelude.{◌+◌, ◌*◌, ◌^◌, ◌≡◌, refl, arith}
use virtual_so_c.Cpu.Arith.Muldiv.{mul, mulh, mulhu, div, rem}
use virtual_so_c.Cpu.Arith.Product.{mulhu-mul}
use virtual_so_c.Cpu.Arith.Quotient.{div-rem, IsDivision}

-- -3 times 5, -7 by 2 and by -2, and the overflow.
mulh_runs : mulh 0xFFFFFFFD 5 ≡ 0xFFFFFFFF
unfolding mulh
mulh_runs = refl

div_runs : (div 0xFFFFFFF9 2 ≡ 0xFFFFFFFD) × (rem 0xFFFFFFF9 2 ≡ 0xFFFFFFFF)
unfolding div rem
div_runs = (refl, refl)

div_overflow : (div 0x80000000 0xFFFFFFFF ≡ 0x80000000) × (rem 0x80000000 0xFFFFFFFF ≡ 0)
unfolding div rem
div_overflow = (refl, refl)

mulhu-mul_example :
    mulhu 0xFFFFFFFD 0x80000005 * 2 ^ 32 + mul 0xFFFFFFFD 0x80000005 ≡ 0xFFFFFFFD * 0x80000005
mulhu-mul_example = mulhu-mul 0xFFFFFFFD 0x80000005 (omega arith) (omega arith)

div-rem_example : IsDivision 0xFFFFFFF9 2 (div 0xFFFFFFF9 2) (rem 0xFFFFFFF9 2)
div-rem_example = div-rem 0xFFFFFFF9 2 (omega arith) (omega arith) (ground arith)
