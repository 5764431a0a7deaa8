-- ===== src/Cpu/Csr/Access.antt =====
-- `CSRFile::read` and `CSRFile::write`.
use virtual_so_c.Prelude.{
  ℕ, Option, none, some, Bool, true, false, not, ◌==◌, if◌then◌else◌, not32, ◌<<<◌, ◌>>>◌, ◌&&&◌,
  ◌|||◌,
}
use virtual_so_c.Cpu.Csr.File.{
  Csr, CsrName, mvendorid, marchid, mimpid, mhartid, mstatus, misa, medeleg, mideleg, mie, mtvec,
  mcounteren, mscratch, mepc, mcause, mtval, mip, mcycle, mcycleh, minstret, minstreth, cycle,
  cycleh, instret, instreth, time, timeh, sstatus, sie, stvec, scounteren, sscratch, sepc, scause,
  stval, sip, satp, mstatus_write_mask, sstatus_mask, s_int_mask, csr_name, priv_ok, is_read_only,
  get_mip,
}

-- The cases of `read`, which all return true.
unfoldable pub read_case : CsrName → Csr → ℕ
unfolding get_mip
read_case mvendorid c = 0
read_case marchid c = 0
read_case mimpid c = 0
read_case mhartid c = 0
read_case mstatus c = c.mstatus
read_case misa c = c.misa
read_case medeleg c = c.medeleg
read_case mideleg c = c.mideleg
read_case mie c = c.mie
read_case mtvec c = c.mtvec
read_case mcounteren c = c.mcounteren
read_case mscratch c = c.mscratch
read_case mepc c = c.mepc
read_case mcause c = c.mcause
read_case mtval c = c.mtval
read_case mip c = get_mip c
read_case mcycle c = c.mcycle
read_case mcycleh c = c.mcycleh
read_case minstret c = c.minstret
read_case minstreth c = c.minstreth
read_case cycle c = c.mcycle
read_case cycleh c = c.mcycleh
read_case instret c = c.minstret
read_case instreth c = c.minstreth
read_case time c = c.mcycle
read_case timeh c = c.mcycleh
read_case sstatus c = c.mstatus &&& sstatus_mask
read_case sie c = c.mie &&& s_int_mask
read_case stvec c = c.stvec
read_case scounteren c = c.scounteren
read_case sscratch c = c.sscratch
read_case sepc c = c.sepc
read_case scause c = c.scause
read_case stval c = c.stval
read_case sip c = get_mip c &&& s_int_mask
read_case satp c = c.satp

unfoldable pub read_named : Option CsrName → Csr → Option ℕ
read_named none c = none
read_named (some n) c = some (read_case n c)

-- `none` is the result false.
unfoldable pub read : ℕ → ℕ → Csr → Option ℕ
unfolding read_named
read addr priv c = if priv_ok addr priv then read_named (csr_name addr) c else none

pub record Written : Type 0 where
  pub ok : Bool
  pub file : Csr
  pub satp_written : Bool

abbrev pub refused : Csr → Written
refused c = record { ok = false; file = c; satp_written = false }

abbrev pub accepted : Csr → Written
accepted c = record { ok = true; file = c; satp_written = false }

unfoldable pub write_mstatus : ℕ → Csr → Csr
write_mstatus val c =
    let m = val &&& mstatus_write_mask in
    let mpp = m >>> 11 &&& 0x3 in
    record c { mstatus = if mpp == 2 then m &&& not32 (3 <<< 11) else m }

-- The cases of `write`.
unfoldable pub write_case : CsrName → ℕ → Csr → Written
unfolding write_mstatus
write_case mstatus val c = accepted (write_mstatus val c)
write_case misa val c = accepted c
write_case medeleg val c = accepted (record c { medeleg = val })
write_case mideleg val c = accepted (record c { mideleg = val })
write_case mie val c = accepted (record c { mie = val })
write_case mtvec val c = accepted (record c { mtvec = val })
write_case mcounteren val c = accepted (record c { mcounteren = val })
write_case mscratch val c = accepted (record c { mscratch = val })
write_case mepc val c = accepted (record c { mepc = val &&& not32 1 })
write_case mcause val c = accepted (record c { mcause = val })
write_case mtval val c = accepted (record c { mtval = val })
write_case mip val c = accepted (record c { sw_mip = val &&& 1 <<< 1 })
write_case mcycle val c = accepted (record c { mcycle = val })
write_case mcycleh val c = accepted (record c { mcycleh = val })
write_case minstret val c = accepted (record c { minstret = val })
write_case minstreth val c = accepted (record c { minstreth = val })
write_case sstatus val c =
    accepted (record c { mstatus = (c.mstatus &&& not32 sstatus_mask) ||| (val &&& sstatus_mask) })
write_case sie val c =
    accepted (record c { mie = (c.mie &&& not32 s_int_mask) ||| (val &&& s_int_mask) })
write_case stvec val c = accepted (record c { stvec = val })
write_case scounteren val c = accepted (record c { scounteren = val })
write_case sscratch val c = accepted (record c { sscratch = val })
write_case sepc val c = accepted (record c { sepc = val &&& not32 1 })
write_case scause val c = accepted (record c { scause = val })
write_case stval val c = accepted (record c { stval = val })
write_case sip val c = accepted (record c { sw_mip = val &&& 1 <<< 1 })
write_case satp val c = record { ok = true; file = record c { satp = val }; satp_written = true }
write_case _ val c = refused c

unfoldable pub write_named : Option CsrName → ℕ → Csr → Written
write_named none val c = refused c
write_named (some n) val c = write_case n val c

unfoldable pub write : ℕ → ℕ → ℕ → Csr → Written
unfolding write_named
write addr priv val c =
    if not (priv_ok addr priv)
    then refused c
    else if is_read_only addr
    then refused c
    else write_named (csr_name addr) val c
