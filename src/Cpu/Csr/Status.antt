-- ===== src/Cpu/Csr/Status.antt =====
-- `mstatus` under CSR writes, the supervisor's view of it, and the counters.
use virtual_so_c.Cpu.Csr.Isolation.{s_fields}
use virtual_so_c.Prelude.{
  ℕ, ◌+◌, ◌*◌, ◌%◌, ◌^◌, ◌≤◌, ◌<◌, some, ◌≡◌, ◌≢◌, refl, arith, not32, ◌&&&◌, ◌|||◌, ◌>>>◌,
}
use virtual_so_c.Prelude.Bits.{bit, bit-div, bit_and-clear, bit_and_mask}
use virtual_so_c.Cpu.Defs
use virtual_so_c.Cpu.Csr.File.{
  Csr, CsrName, mstatus, sstatus, priv_ok, is_read_only, sstatus_mask, mstatus_write_mask, csr_name,
  inc_mcycle,
}
use virtual_so_c.Cpu.Csr.Access.{read, write, write_case, write_mstatus, read_case}
use virtual_so_c.Cpu.Csr.Cases.{write_ind}
use virtual_so_c.Prelude.Masks.{merge_outside, merge_inside, merge, outside_of_bits}

-- The field MPP of `mstatus`.
abbrev pub mpp : ℕ → ℕ
mpp m = m >>> 11 &&& 3

pub mpp-bits : (m : ℕ) → mpp m ≡ bit 11 m + 2 * bit 12 m
mpp-bits m = omega (arith, bit_and_mask 2 (m >>> 11), bit-div 11 m, bit-div 12 m)

-- Clearing the field makes it user mode.
pub mpp-cleared : (m : ℕ) → mpp (m &&& not32 Defs.mstatus_mpp_mask) ≡ 0
unfolding bit
mpp-cleared m = omega (
  arith,
  mpp-bits (m &&& not32 Defs.mstatus_mpp_mask),
  bit_and-clear 11 m (not32 Defs.mstatus_mpp_mask) refl,
  bit_and-clear 12 m (not32 Defs.mstatus_mpp_mask) refl,
)

write_mstatus-mpp : (val : ℕ) (c : Csr) → mpp (write_mstatus val c).mstatus ≢ 2
unfolding write_mstatus
write_mstatus-mpp val c = ground (arith, mpp-cleared (val &&& mstatus_write_mask))

write_sstatus-mpp :
    (old val : ℕ) → mpp ((old &&& not32 sstatus_mask) ||| (val &&& sstatus_mask)) ≡ mpp old
unfolding bit
write_sstatus-mpp old val = omega (
  arith,
  mpp-bits ((old &&& not32 sstatus_mask) ||| (val &&& sstatus_mask)),
  mpp-bits old,
  merge_outside old val sstatus_mask 11 (omega arith) (omega arith) refl,
  merge_outside old val sstatus_mask 12 (omega arith) (omega arith) refl,
)

write_case-mpp :
    (n : CsrName) (val : ℕ) (c : Csr)
    → mpp c.mstatus ≢ 2
    → mpp (write_case n val c).file.mstatus ≢ 2
unfolding write_case
write_case-mpp mstatus val c h = write_mstatus-mpp val c
write_case-mpp sstatus val c h = ground (arith, write_sstatus-mpp c.mstatus val)
write_case-mpp _ val c h = ground arith

-- No CSR write, at any address and privilege, makes the field MPP of `mstatus` the reserved value
-- 2.
pub write-mpp :
    (addr priv val : ℕ) (c : Csr) → mpp c.mstatus ≢ 2 → mpp (write addr priv val c).file.mstatus ≢ 2
write-mpp addr priv val c h =
    write_ind (λ w. mpp w.file.mstatus ≢ 2) addr priv val c h
      λ n granted writable. write_case-mpp n val c h

-- After a write of `sstatus` in supervisor or machine mode, a read of it gives the written value
-- cut to the fields SIE, SPIE, SPP, SUM and MXR, and `mstatus` keeps its bits outside these
-- fields.
pub read-write_sstatus :
    (priv val : ℕ) (c : Csr)
    → 1 ≤ priv
    → let after = (write Defs.csr_sstatus priv val c).file in
      (read Defs.csr_sstatus priv after ≡ some (val &&& s_fields))
      × ((after.mstatus &&& not32 s_fields) ≡ (c.mstatus &&& not32 s_fields))
unfolding read write write_case read_case csr_name priv_ok is_read_only
read-write_sstatus priv val c u =
    let outside : (merge c.mstatus val s_fields &&& not32 s_fields)
        ≡ (c.mstatus &&& not32 s_fields) =
      outside_of_bits (merge c.mstatus val s_fields) c.mstatus s_fields (omega arith)
        λ i l z. merge_outside c.mstatus val s_fields i l (omega arith) z in
    (ground (arith, merge_inside c.mstatus val sstatus_mask (omega arith)), ground (arith, outside))

-- With both halves 32-bit words, `inc_mcycle` adds one to the 64-bit value of `mcycleh` and
-- `mcycle`, modulo 2 ^ 64.
pub inc_mcycle-count :
    (c : Csr)
    → c.mcycle < 2 ^ 32
    → c.mcycleh < 2 ^ 32
    → (inc_mcycle c).mcycleh * 2 ^ 32 + (inc_mcycle c).mcycle
      ≡ (c.mcycleh * 2 ^ 32 + c.mcycle + 1) % 2 ^ 64
unfolding inc_mcycle
inc_mcycle-count c l h = ground arith
