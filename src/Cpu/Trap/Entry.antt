-- ===== src/Cpu/Trap/Entry.antt =====
-- `check_pending_interrupts` and `take_trap`.
use virtual_so_c.Prelude.{
  ℕ, ◌+◌, ◌*◌, List, [], ◌∷◌, Bool, false, ltb, leb, ◌==◌, ◌&&◌, ◌||◌, not, if◌then◌else◌, u32,
  not32, has_bits, ◌<<<◌, ◌>>>◌, ◌&&&◌, ◌|||◌,
}
use virtual_so_c.Cpu.Defs
use virtual_so_c.Cpu.Csr.File.{get_mip}
use virtual_so_c.Cpu.State.{CpuState}

-- `(m & ~flag) | (b ? flag : 0)`.
abbrev pub put_flag : ℕ → ℕ → Bool → ℕ
put_flag m flag b = (m &&& not32 flag) ||| (if b then flag else 0)

-- The loop over `priority`, and the order in which it looks at the bits.
unfoldable pub first_active : ℕ → List ℕ → ℕ
first_active active [] = 0
first_active active (b ∷ bs) =
    let rest = first_active active bs in
    if has_bits active (1 <<< b) then Defs.int_bit ||| b else rest

abbrev pub irq_priority : List ℕ
irq_priority = 11 ∷ 3 ∷ 7 ∷ 9 ∷ 1 ∷ 5 ∷ []

unfoldable pub m_enabled : CpuState → Bool
m_enabled s =
    ltb s.priv Defs.prv_m || s.priv == Defs.prv_m && has_bits s.csr.mstatus Defs.mstatus_mie

unfoldable pub s_enabled : CpuState → Bool
s_enabled s =
    if s.priv == Defs.prv_m
    then false
    else ltb s.priv Defs.prv_s || s.priv == Defs.prv_s && has_bits s.csr.mstatus Defs.mstatus_sie

-- The interrupts that may be taken now.
unfoldable pub active_interrupts : CpuState → ℕ
active_interrupts s =
    let pending = get_mip s.csr &&& s.csr.mie in
    (if m_enabled s then pending &&& not32 s.csr.mideleg else 0)
    ||| (if s_enabled s then pending &&& s.csr.mideleg else 0)

unfoldable pub check_pending_interrupts : CpuState → ℕ
check_pending_interrupts s =
    if (get_mip s.csr &&& s.csr.mie) == 0
    then 0
    else if active_interrupts s == 0
    then 0
    else first_active (active_interrupts s) irq_priority

unfoldable pub delegated : CpuState → ℕ → Bool
delegated s cause =
    let deleg = if has_bits cause Defs.int_bit then s.csr.mideleg else s.csr.medeleg in
    leb s.priv Defs.prv_s && not ((deleg >>> (cause &&& 0x7FFFFFFF) &&& 1) == 0)

-- The address of the handler, from `stvec` or `mtvec`.
unfoldable pub handler : ℕ → ℕ → ℕ
handler tvec cause =
    let base = tvec &&& not32 0x3 in
    let mode = tvec &&& 0x3 in
    if mode == 1 && has_bits cause Defs.int_bit
    then u32 (base + 4 * (cause &&& 0x7FFFFFFF))
    else base

-- `mstatus` on entry to a handler in supervisor and in machine mode.
unfoldable pub s_entry_status : ℕ → ℕ → ℕ
s_entry_status m priv =
    let m1 = put_flag m Defs.mstatus_spie (has_bits m Defs.mstatus_sie) in
    let m2 = m1 &&& not32 Defs.mstatus_sie in put_flag m2 Defs.mstatus_spp (priv == Defs.prv_s)

unfoldable pub m_entry_status : ℕ → ℕ → ℕ
m_entry_status m priv =
    let m1 = put_flag m Defs.mstatus_mpie (has_bits m Defs.mstatus_mie) in
    let m2 = m1 &&& not32 Defs.mstatus_mie in
    (m2 &&& not32 Defs.mstatus_mpp_mask) ||| priv <<< Defs.mstatus_mpp_shift

unfoldable pub enter_s : CpuState → ℕ → ℕ → CpuState
unfolding s_entry_status handler
enter_s s cause tval = record s {
  csr = record (s.csr) {
    sepc = s.pc &&& not32 0x1;
    scause = cause;
    stval = tval;
    mstatus = s_entry_status s.csr.mstatus s.priv;
  };
  priv = Defs.prv_s;
  next_pc = handler s.csr.stvec cause;
}

unfoldable pub enter_m : CpuState → ℕ → ℕ → CpuState
unfolding m_entry_status handler
enter_m s cause tval = record s {
  csr = record (s.csr) {
    mepc = s.pc &&& not32 0x1;
    mcause = cause;
    mtval = tval;
    mstatus = m_entry_status s.csr.mstatus s.priv;
  };
  priv = Defs.prv_m;
  next_pc = handler s.csr.mtvec cause;
}

unfoldable pub take_trap : CpuState → ℕ → ℕ → CpuState
take_trap s cause tval = if delegated s cause then enter_s s cause tval else enter_m s cause tval
