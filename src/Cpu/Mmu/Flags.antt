-- ===== src/Cpu/Mmu/Flags.antt =====
-- The tests of the code against the flags of the architecture.
use virtual_so_c.Prelude.{
  ℕ, ◌+◌, ◌-◌, ◌*◌, ◌/◌, ◌%◌, ◌^◌, ◌<◌, Bool, true, false, ◌&&◌, ◌||◌, u32, not32, has_bits, ◌&&&◌,
  ◌|||◌, ◌<<<◌, ◌>>>◌, ◌≡◌, arith, ◌∙◌,
}
use virtual_so_c.Prelude.Bits.{bit, has_bits-pow, bit_and_mask, bit_and_step, bit_and-zero}
use virtual_so_c.Prelude.Halves.{bit_or-disjoint, bit_and-multiple}
use virtual_so_c.Cpu.Defs
use virtual_so_c.Cpu.Mmu.Permissions.{
  AccessType, fetch, load, store, check_permissions, kind_allowed,
}
use virtual_so_c.Cpu.Mmu.Walk.{Access, physical}
use virtual_so_c.Cpu.Mmu.Sv32.{flag, is_leaf, right, reachable, permitted, address_in}

-- Tests of several flags at once.
has_bits-rx : (x : ℕ) → has_bits x (Defs.pte_r ||| Defs.pte_x) ≡ (flag 1 x || flag 3 x)
unfolding bit
has_bits-rx x = ground (
  arith,
  bit_and_step x 10,
  bit_and_step (x / 2) 5,
  bit_and_step (x / 2 / 2) 2,
  bit_and_step (x / 2 / 2 / 2) 1,
  bit_and-zero (x / 2 / 2 / 2 / 2),
)

pub has_bits-rwx : (x : ℕ) → has_bits x (Defs.pte_r ||| Defs.pte_w ||| Defs.pte_x) ≡ is_leaf x
unfolding bit
has_bits-rwx x = ground (
  arith,
  bit_and_step x 14,
  bit_and_step (x / 2) 7,
  bit_and_step (x / 2 / 2) 3,
  bit_and_step (x / 2 / 2 / 2) 1,
  bit_and-zero (x / 2 / 2 / 2 / 2),
)

rights :
    (type : AccessType) (pte priv mstatus : ℕ)
    → check_permissions pte type priv mstatus
      ≡ (reachable type priv mstatus pte && right type mstatus pte)
unfolding check_permissions kind_allowed
rights fetch pte priv mstatus =
    ground (arith, has_bits-pow 4 pte, has_bits-pow 3 pte, has_bits-pow 18 mstatus)
rights load pte priv mstatus = ground (
  arith,
  has_bits-pow 4 pte,
  has_bits-pow 1 pte,
  has_bits-rx pte,
  has_bits-pow 18 mstatus,
  has_bits-pow 19 mstatus,
)
rights store pte priv mstatus =
    ground (arith, has_bits-pow 4 pte, has_bits-pow 2 pte, has_bits-pow 18 mstatus)

-- The permission check is the table of rules.
pub check_permissions-permitted :
    (c : Access) (pte : ℕ) → check_permissions pte c.type c.priv c.mstatus ≡ permitted c pte
check_permissions-permitted c pte = rights c.type pte c.priv c.mstatus

low_page : (x v : ℕ) → u32 (x <<< 12) ||| (v &&& 4095) ≡ x % 2 ^ 20 * 2 ^ 12 + v % 2 ^ 12
low_page x v =
    let top : u32 (x <<< 12) ≡ x % 2 ^ 20 * 2 ^ 12 = omega arith in
    let low : (v &&& 4095) ≡ v % 2 ^ 12 = bit_and_mask 12 v in
    rw (top, low) (bit_or-disjoint 12 (x % 2 ^ 20) (v % 2 ^ 12) (omega arith))

low_mega :
    (x v : ℕ)
    → x < 2 ^ 32
    → u32 ((x &&& not32 (1 <<< 10 - 1)) <<< 12) ||| (v &&& 0x3FFFFF)
      ≡ x / 2 ^ 10 % 2 ^ 10 * 2 ^ 22 + v % 2 ^ 22
low_mega x v l =
    let mask : (x &&& not32 (1 <<< 10 - 1)) ≡ x / 2 ^ 10 * 2 ^ 10 =
      omega (arith, bit_and-multiple 10 x (2 ^ 22 - 1), bit_and_mask 22 (x / 2 ^ 10)) in
    let top : u32 ((x / 2 ^ 10 * 2 ^ 10) <<< 12) ≡ x / 2 ^ 10 % 2 ^ 10 * 2 ^ 22 = omega arith in
    let low : (v &&& 0x3FFFFF) ≡ v % 2 ^ 22 = bit_and_mask 22 v in
    rw (mask, top, low) (bit_or-disjoint 22 (x / 2 ^ 10 % 2 ^ 10) (v % 2 ^ 22) (omega arith))

-- The address of a page, and of a large page.
pub physical-address_in :
    (pte : ℕ) (mega : Bool) (vaddr : ℕ)
    → pte < 2 ^ 32
    → physical (pte >>> 10) mega vaddr ≡ address_in (record { pte = pte; mega = mega }) vaddr
unfolding physical
physical-address_in pte true vaddr l = low_mega (pte >>> 10) vaddr (omega arith) ∙ omega arith
physical-address_in pte false vaddr l = low_page (pte >>> 10) vaddr
