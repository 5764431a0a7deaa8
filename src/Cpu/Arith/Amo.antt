-- ===== src/Cpu/Arith/Amo.antt =====
-- The read-modify-write operations of src/cpu/rv32a.h.
use virtual_so_c.Prelude.{ℕ, ◌+◌, ltb, if◌then◌else◌, u32, ◌&&&◌, ◌|||◌, bit_xor}
use virtual_so_c.Cpu.Arith.Signed.{slt32}

unfoldable pub amo_swap : ℕ → ℕ → ℕ
amo_swap mem rs2 = rs2

unfoldable pub amo_add : ℕ → ℕ → ℕ
amo_add mem rs2 = u32 (mem + rs2)

unfoldable pub amo_xor : ℕ → ℕ → ℕ
amo_xor mem rs2 = bit_xor mem rs2

unfoldable pub amo_and : ℕ → ℕ → ℕ
amo_and mem rs2 = mem &&& rs2

unfoldable pub amo_or : ℕ → ℕ → ℕ
amo_or mem rs2 = mem ||| rs2

-- `std::min(a, b)` is `b < a ? b : a`, and `std::max(a, b)` is `a < b ? b : a`.
unfoldable pub amo_min : ℕ → ℕ → ℕ
unfolding slt32
amo_min mem rs2 = if slt32 rs2 mem then rs2 else mem

unfoldable pub amo_max : ℕ → ℕ → ℕ
unfolding slt32
amo_max mem rs2 = if slt32 mem rs2 then rs2 else mem

unfoldable pub amo_minu : ℕ → ℕ → ℕ
amo_minu mem rs2 = if ltb rs2 mem then rs2 else mem

unfoldable pub amo_maxu : ℕ → ℕ → ℕ
amo_maxu mem rs2 = if ltb mem rs2 then rs2 else mem
