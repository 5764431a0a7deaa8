-- ===== src/Cpu/Mmu/Permissions.antt =====
-- Kinds of access, results, and the permission check of src/cpu/mmu.h and src/cpu/mmu.cpp.
use virtual_so_c.Prelude.{ℕ, Bool, true, false, not, ◌==◌, ◌&&◌, if◌then◌else◌, has_bits, ◌|||◌}
use virtual_so_c.Cpu.Defs

pub data AccessType : Type 0 where
  fetch load store : AccessType

pub record MmuResult : Type 0 where
  pub paddr : ℕ
  pub fault : Bool
  pub cause : ℕ

unfoldable pub fault_cause : AccessType → ℕ
fault_cause fetch = Defs.cause_fetch_page_fault
fault_cause load = Defs.cause_load_page_fault
fault_cause store = Defs.cause_store_page_fault

abbrev pub faulted : AccessType → MmuResult
faulted type = record { paddr = 0; fault = true; cause = fault_cause type }

abbrev pub translated : ℕ → MmuResult
translated paddr = record { paddr = paddr; fault = false; cause = 0 }

-- The `switch` of `check_permissions`.
unfoldable pub kind_allowed : ℕ → AccessType → ℕ → ℕ → Bool
kind_allowed pte fetch priv mstatus =
    if priv == Defs.prv_s && has_bits pte Defs.pte_u then false else has_bits pte Defs.pte_x
kind_allowed pte load priv mstatus =
    if has_bits mstatus Defs.mstatus_mxr
    then has_bits pte (Defs.pte_r ||| Defs.pte_x)
    else has_bits pte Defs.pte_r
kind_allowed pte store priv mstatus = has_bits pte Defs.pte_w

unfoldable pub check_permissions : ℕ → AccessType → ℕ → ℕ → Bool
check_permissions pte type priv mstatus =
    if priv == Defs.prv_u && not (has_bits pte Defs.pte_u)
    then false
    else if priv == Defs.prv_s && has_bits pte Defs.pte_u && not (has_bits mstatus Defs.mstatus_sum)
    then false
    else kind_allowed pte type priv mstatus
