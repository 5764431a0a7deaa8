-- ===== src/Cpu/Csr/File.antt =====
-- The register file, its names and addresses, the interrupt bits that hardware drives, and the
-- 64-bit counters.
use virtual_so_c.Prelude.{
  ℕ, ◌+◌, List, [], ◌∷◌, Option, none, some, Bool, leb, ◌==◌, if◌then◌else◌, u32, not32, ◌<<<◌,
  ◌>>>◌, ◌&&&◌, ◌|||◌,
}
use virtual_so_c.Cpu.Defs

pub record Csr : Type 0 where
  pub mstatus : ℕ
  pub misa : ℕ
  pub medeleg : ℕ
  pub mideleg : ℕ
  pub mie : ℕ
  pub mtvec : ℕ
  pub mcounteren : ℕ
  pub mscratch : ℕ
  pub mepc : ℕ
  pub mcause : ℕ
  pub mtval : ℕ
  pub stvec : ℕ
  pub scounteren : ℕ
  pub sscratch : ℕ
  pub sepc : ℕ
  pub scause : ℕ
  pub stval : ℕ
  pub satp : ℕ
  pub mcycle : ℕ
  pub mcycleh : ℕ
  pub minstret : ℕ
  pub minstreth : ℕ
  pub hw_mip : ℕ
  pub sw_mip : ℕ

-- The constructor `CSRFile()`.
abbrev pub reset : Csr
reset = record {
  mstatus = 0;
  misa = Defs.misa_value;
  medeleg = 0;
  mideleg = 0;
  mie = 0;
  mtvec = 0;
  mcounteren = 0;
  mscratch = 0;
  mepc = 0;
  mcause = 0;
  mtval = 0;
  stvec = 0;
  scounteren = 0;
  sscratch = 0;
  sepc = 0;
  scause = 0;
  stval = 0;
  satp = 0;
  mcycle = 0;
  mcycleh = 0;
  minstret = 0;
  minstreth = 0;
  hw_mip = 0;
  sw_mip = 0;
}

abbrev pub mstatus_write_mask : ℕ
mstatus_write_mask =
    1 <<< 1
    ||| 1 <<< 3
    ||| 1 <<< 5
    ||| 1 <<< 7
    ||| 1 <<< 8
    ||| 3 <<< 11
    ||| 1 <<< 17
    ||| 1 <<< 18
    ||| 1 <<< 19
    ||| 1 <<< 20
    ||| 1 <<< 21
    ||| 1 <<< 22

abbrev pub sstatus_mask : ℕ
sstatus_mask = 1 <<< 1 ||| 1 <<< 5 ||| 1 <<< 8 ||| 1 <<< 18 ||| 1 <<< 19

abbrev pub s_int_mask : ℕ
s_int_mask = 1 <<< 1 ||| 1 <<< 5 ||| 1 <<< 9

-- The labels of the two `switch` statements.
pub data CsrName : Type 0 where
  mvendorid marchid mimpid mhartid : CsrName
  mstatus misa medeleg mideleg mie mtvec mcounteren : CsrName
  mscratch mepc mcause mtval mip : CsrName
  mcycle mcycleh minstret minstreth : CsrName
  cycle cycleh instret instreth time timeh : CsrName
  sstatus sie stvec scounteren : CsrName
  sscratch sepc scause stval sip satp : CsrName

unfoldable pub address : CsrName → ℕ
address mvendorid = Defs.csr_mvendorid
address marchid = Defs.csr_marchid
address mimpid = Defs.csr_mimpid
address mhartid = Defs.csr_mhartid
address mstatus = Defs.csr_mstatus
address misa = Defs.csr_misa
address medeleg = Defs.csr_medeleg
address mideleg = Defs.csr_mideleg
address mie = Defs.csr_mie
address mtvec = Defs.csr_mtvec
address mcounteren = Defs.csr_mcounteren
address mscratch = Defs.csr_mscratch
address mepc = Defs.csr_mepc
address mcause = Defs.csr_mcause
address mtval = Defs.csr_mtval
address mip = Defs.csr_mip
address mcycle = Defs.csr_mcycle
address mcycleh = Defs.csr_mcycleh
address minstret = Defs.csr_minstret
address minstreth = Defs.csr_minstreth
address cycle = Defs.csr_cycle
address cycleh = Defs.csr_cycleh
address instret = Defs.csr_instret
address instreth = Defs.csr_instreth
address time = Defs.csr_time
address timeh = Defs.csr_timeh
address sstatus = Defs.csr_sstatus
address sie = Defs.csr_sie
address stvec = Defs.csr_stvec
address scounteren = Defs.csr_scounteren
address sscratch = Defs.csr_sscratch
address sepc = Defs.csr_sepc
address scause = Defs.csr_scause
address stval = Defs.csr_stval
address sip = Defs.csr_sip
address satp = Defs.csr_satp

abbrev pub names : List CsrName
names =
    mvendorid ∷ marchid ∷ mimpid ∷ mhartid ∷ mstatus ∷ misa ∷ medeleg ∷ mideleg ∷ mie ∷ mtvec
    ∷ mcounteren ∷ mscratch ∷ mepc ∷ mcause ∷ mtval ∷ mip ∷ mcycle ∷ mcycleh ∷ minstret ∷ minstreth
    ∷ cycle ∷ cycleh ∷ instret ∷ instreth ∷ time ∷ timeh ∷ sstatus ∷ sie ∷ stvec ∷ scounteren
    ∷ sscratch ∷ sepc ∷ scause ∷ stval ∷ sip ∷ satp ∷ []

unfoldable pub find_name : ℕ → List CsrName → Option CsrName
find_name a [] = none
find_name a (n ∷ ns) = if address n == a then some n else find_name a ns

-- The label that `addr` selects, `none` for `default`.
unfoldable pub csr_name : ℕ → Option CsrName
unfolding find_name address
csr_name a = find_name a names

-- The least privilege that an address asks for is in its bits 9 and 8.
unfoldable pub priv_ok : ℕ → ℕ → Bool
priv_ok addr priv = let required = addr >>> 8 &&& 0x3 in leb required priv

unfoldable pub is_read_only : ℕ → Bool
is_read_only addr = (addr >>> 10 &&& 0x3) == 0x3

unfoldable pub get_mip : Csr → ℕ
get_mip c = c.sw_mip ||| c.hw_mip

unfoldable pub set_hw_bit : ℕ → Bool → Csr → Csr
set_hw_bit b v c = record c {
  hw_mip = if v then c.hw_mip ||| 1 <<< b else c.hw_mip &&& not32 (1 <<< b);
}

unfoldable pub inc_mcycle : Csr → Csr
inc_mcycle c =
    let low = u32 (c.mcycle + 1) in
    record c { mcycle = low; mcycleh = if low == 0 then u32 (c.mcycleh + 1) else c.mcycleh }

unfoldable pub inc_minstret : Csr → Csr
inc_minstret c =
    let low = u32 (c.minstret + 1) in
    record c { minstret = low; minstreth = if low == 0 then u32 (c.minstreth + 1) else c.minstreth }
