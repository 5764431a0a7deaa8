-- ===== src/Cpu/Defs/Fields.antt =====
-- The bits of `mstatus`, `mip`, `satp` and page table entries, trap causes and privilege
-- levels of src/cpu/rv32_defs.h.
use virtual_so_c.Prelude.{ℕ, ◌<<<◌, ◌|||◌}

-- mstatus bit positions
abbrev pub mstatus_mie : ℕ
mstatus_mie = 1 <<< 3

abbrev pub mstatus_sie : ℕ
mstatus_sie = 1 <<< 1

abbrev pub mstatus_mpie : ℕ
mstatus_mpie = 1 <<< 7

abbrev pub mstatus_spie : ℕ
mstatus_spie = 1 <<< 5

abbrev pub mstatus_mpp_shift : ℕ
mstatus_mpp_shift = 11

abbrev pub mstatus_mpp_mask : ℕ
mstatus_mpp_mask = 0x3 <<< mstatus_mpp_shift

abbrev pub mstatus_spp : ℕ
mstatus_spp = 1 <<< 8

abbrev pub mstatus_mprv : ℕ
mstatus_mprv = 1 <<< 17

abbrev pub mstatus_sum : ℕ
mstatus_sum = 1 <<< 18

abbrev pub mstatus_mxr : ℕ
mstatus_mxr = 1 <<< 19

abbrev pub mstatus_tvm : ℕ
mstatus_tvm = 1 <<< 20

abbrev pub mstatus_tw : ℕ
mstatus_tw = 1 <<< 21

abbrev pub mstatus_tsr : ℕ
mstatus_tsr = 1 <<< 22

-- mip / mie bit positions
abbrev pub mip_ssip : ℕ
mip_ssip = 1 <<< 1

abbrev pub mip_msip : ℕ
mip_msip = 1 <<< 3

abbrev pub mip_stip : ℕ
mip_stip = 1 <<< 5

abbrev pub mip_mtip : ℕ
mip_mtip = 1 <<< 7

abbrev pub mip_seip : ℕ
mip_seip = 1 <<< 9

abbrev pub mip_meip : ℕ
mip_meip = 1 <<< 11

-- Exception cause codes (mcause/scause without interrupt bit)
abbrev pub cause_misaligned_fetch : ℕ
cause_misaligned_fetch = 0

abbrev pub cause_fetch_access : ℕ
cause_fetch_access = 1

abbrev pub cause_illegal_instr : ℕ
cause_illegal_instr = 2

abbrev pub cause_breakpoint : ℕ
cause_breakpoint = 3

abbrev pub cause_misaligned_load : ℕ
cause_misaligned_load = 4

abbrev pub cause_load_access : ℕ
cause_load_access = 5

abbrev pub cause_misaligned_store : ℕ
cause_misaligned_store = 6

abbrev pub cause_store_access : ℕ
cause_store_access = 7

abbrev pub cause_ecall_u : ℕ
cause_ecall_u = 8

abbrev pub cause_ecall_s : ℕ
cause_ecall_s = 9

abbrev pub cause_ecall_m : ℕ
cause_ecall_m = 11

abbrev pub cause_fetch_page_fault : ℕ
cause_fetch_page_fault = 12

abbrev pub cause_load_page_fault : ℕ
cause_load_page_fault = 13

abbrev pub cause_store_page_fault : ℕ
cause_store_page_fault = 15

-- Interrupt cause codes (mcause with bit 31 set)
abbrev pub int_bit : ℕ
int_bit = 0x80000000

abbrev pub irq_s_software : ℕ
irq_s_software = int_bit ||| 1

abbrev pub irq_m_software : ℕ
irq_m_software = int_bit ||| 3

abbrev pub irq_s_timer : ℕ
irq_s_timer = int_bit ||| 5

abbrev pub irq_m_timer : ℕ
irq_m_timer = int_bit ||| 7

abbrev pub irq_s_external : ℕ
irq_s_external = int_bit ||| 9

abbrev pub irq_m_external : ℕ
irq_m_external = int_bit ||| 11

-- Privilege levels
abbrev pub prv_u : ℕ
prv_u = 0

abbrev pub prv_s : ℕ
prv_s = 1

abbrev pub prv_m : ℕ
prv_m = 3

-- SATP fields (Sv32)
abbrev pub satp_mode_bare : ℕ
satp_mode_bare = 0

abbrev pub satp_mode_sv32 : ℕ
satp_mode_sv32 = 1

abbrev pub satp_mode_shift : ℕ
satp_mode_shift = 31

abbrev pub satp_ppn_mask : ℕ
satp_ppn_mask = 0x003FFFFF

-- Page table entry bits
abbrev pub pte_v : ℕ
pte_v = 1 <<< 0

abbrev pub pte_r : ℕ
pte_r = 1 <<< 1

abbrev pub pte_w : ℕ
pte_w = 1 <<< 2

abbrev pub pte_x : ℕ
pte_x = 1 <<< 3

abbrev pub pte_u : ℕ
pte_u = 1 <<< 4

abbrev pub pte_g : ℕ
pte_g = 1 <<< 5

abbrev pub pte_a : ℕ
pte_a = 1 <<< 6

abbrev pub pte_d : ℕ
pte_d = 1 <<< 7

abbrev pub pte_ppn_shift : ℕ
pte_ppn_shift = 10

-- MISA value for RV32IMAC
abbrev pub misa_rv32 : ℕ
misa_rv32 = 1 <<< 30

abbrev pub misa_i : ℕ
misa_i = 1 <<< 8

abbrev pub misa_m : ℕ
misa_m = 1 <<< 12

abbrev pub misa_a : ℕ
misa_a = 1 <<< 0

abbrev pub misa_c : ℕ
misa_c = 1 <<< 2

abbrev pub misa_s : ℕ
misa_s = 1 <<< 18

abbrev pub misa_u : ℕ
misa_u = 1 <<< 20

abbrev pub misa_value : ℕ
misa_value = misa_rv32 ||| misa_i ||| misa_m ||| misa_a ||| misa_c ||| misa_s ||| misa_u
