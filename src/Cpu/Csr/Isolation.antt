-- ===== src/Cpu/Csr/Isolation.antt =====
-- What a CSR access may change at each privilege level.
use virtual_so_c.Prelude.Bits.{bit, bit-bit_and, bit-bit_or}
use virtual_so_c.Prelude.{
  ℕ, ◌≤◌, true, false, ◌≡◌, refl, ap, arith, ◌&&&◌, not32, ◌<<<◌, ◌≢◌, ◌^◌, ◌+◌,
}
use virtual_so_c.Prelude.Masks.{merge, merge_outside, outside_of_bits, bit-shift_ne}
use virtual_so_c.Cpu.Csr.File.{
  Csr, CsrName, sstatus, sie, address, priv_ok, is_read_only, sip, mip, mstatus, get_mip,
}
use virtual_so_c.Cpu.Csr.Access.{write, write_case, refused}
use virtual_so_c.Cpu.Csr.Cases.{write_ind}

-- The fields SIE, SPIE, SPP, SUM and MXR of `mstatus`, and SSIE, STIE and SEIE of `mie`.
abbrev pub s_fields : ℕ
s_fields = 2 ^ 1 + 2 ^ 5 + 2 ^ 8 + 2 ^ 18 + 2 ^ 19

abbrev pub s_interrupts : ℕ
s_interrupts = 2 ^ 1 + 2 ^ 5 + 2 ^ 9

-- The registers that only machine mode may write.
pub record SameMachine (c d : Csr) : Type 0 where
  pub misa_same : d.misa ≡ c.misa
  pub medeleg_same : d.medeleg ≡ c.medeleg
  pub mideleg_same : d.mideleg ≡ c.mideleg
  pub mtvec_same : d.mtvec ≡ c.mtvec
  pub mcounteren_same : d.mcounteren ≡ c.mcounteren
  pub mscratch_same : d.mscratch ≡ c.mscratch
  pub mepc_same : d.mepc ≡ c.mepc
  pub mcause_same : d.mcause ≡ c.mcause
  pub mtval_same : d.mtval ≡ c.mtval
  pub mcycle_same : d.mcycle ≡ c.mcycle
  pub mcycleh_same : d.mcycleh ≡ c.mcycleh
  pub minstret_same : d.minstret ≡ c.minstret
  pub minstreth_same : d.minstreth ≡ c.minstreth
  pub hw_mip_same : d.hw_mip ≡ c.hw_mip

-- Those registers, and the shared ones outside the supervisor's view; in `mip`, no bit but SSIP
-- becomes pending.
pub record MachineKept (c d : Csr) : Type 0 where
  pub registers : SameMachine c d
  pub mstatus_kept : (d.mstatus &&& not32 s_fields) ≡ (c.mstatus &&& not32 s_fields)
  pub mie_kept : (d.mie &&& not32 s_interrupts) ≡ (c.mie &&& not32 s_interrupts)
  pub mip_kept : (i : ℕ) → i ≢ 1 → bit i (get_mip d) ≤ bit i (get_mip c)

pub kept_of_same :
    {c d : Csr}
    → SameMachine c d
    → d.mstatus ≡ c.mstatus
    → d.mie ≡ c.mie
    → ((i : ℕ) → i ≢ 1 → bit i d.sw_mip ≤ bit i c.sw_mip)
    → MachineKept c d
unfolding get_mip
kept_of_same {c} {d} s p q r = record {
  registers = s;
  mstatus_kept = ap (λ m. m &&& not32 s_fields) p;
  mie_kept = ap (λ m. m &&& not32 s_interrupts) q;
  mip_kept = λ i n. omega (
    arith,
    bit-bit_or i d.sw_mip d.hw_mip,
    bit-bit_or i c.sw_mip c.hw_mip,
    ap (bit i) s.hw_mip_same,
    r i n,
  );
}

write_case-MachineKept :
    (n : CsrName) (priv val : ℕ) (c : Csr)
    → priv ≤ 1
    → priv_ok (address n) priv ≡ true
    → MachineKept c (write_case n val c).file
unfolding write_case priv_ok address get_mip
write_case-MachineKept sstatus priv val c u p = record {
  registers = ground arith;
  mstatus_kept =
      outside_of_bits (merge c.mstatus val s_fields) c.mstatus s_fields (omega arith)
        λ i l z. merge_outside c.mstatus val s_fields i l (omega arith) z;
  mie_kept = refl;
  mip_kept = λ i n. omega arith;
}
write_case-MachineKept sie priv val c u p = record {
  registers = ground arith;
  mstatus_kept = refl;
  mie_kept =
      outside_of_bits (merge c.mie val s_interrupts) c.mie s_interrupts (omega arith)
        λ i l z. merge_outside c.mie val s_interrupts i l (omega arith) z;
  mip_kept = λ i n. omega arith;
}
write_case-MachineKept sip priv val c u p =
    kept_of_same (ground arith) refl refl
      λ i n. omega (arith, bit-bit_and i val (1 <<< 1), bit-shift_ne i 1 n)
write_case-MachineKept mstatus priv val c u p = absurd (ground arith)
write_case-MachineKept mip priv val c u p = absurd (ground arith)
write_case-MachineKept _ priv val c u p =
    kept_of_same (ground arith) (ground arith) (ground arith) λ i n. ground arith

pub MachineKept-refl : (c : Csr) → MachineKept c c
MachineKept-refl c = kept_of_same (ground arith) refl refl λ i n. omega arith

-- No CSR write that software makes in supervisor or user mode changes machine-level state: the
-- machine-mode registers and the interrupt bits that devices drive keep their values, `mstatus`
-- keeps its bits outside SIE, SPIE, SPP, SUM and MXR, `mie` keeps its bits outside SSIE, STIE and
-- SEIE, and no bit of `mip` other than SSIP becomes pending.
pub write-MachineKept :
    (addr priv val : ℕ) (c : Csr) → priv ≤ 1 → MachineKept c (write addr priv val c).file
write-MachineKept addr priv val c u =
    write_ind (λ w. MachineKept c w.file) addr priv val c (MachineKept-refl c)
      λ n granted writable. write_case-MachineKept n priv val c u granted

write_case-user :
    (n : CsrName) (val : ℕ) (c : Csr)
    → priv_ok (address n) 0 ≡ true
    → is_read_only (address n) ≡ false
    → write_case n val c ≡ refused c
unfolding write_case priv_ok is_read_only address
write_case-user sstatus val c p q = ground arith
write_case-user _ val c p q = ground arith

-- In user mode every CSR write is refused and nothing changes.
pub write-user : (addr val : ℕ) (c : Csr) → write addr 0 val c ≡ refused c
write-user addr val c =
    write_ind (λ w. w ≡ refused c) addr 0 val c refl
      λ n granted writable. write_case-user n val c granted writable
