-- ===== src/Cpu/Mmu/Sv32.antt =====
-- Sv32 as the privileged architecture describes it, over a page table given by a function: the
-- entries and addresses in arithmetic, the permissions as a table of rules.
use virtual_so_c.Prelude.{
  ℕ, ◌+◌, ◌*◌, ◌/◌, ◌%◌, ◌^◌, Bool, true, false, not, Option, none, some, ◌==◌, ◌&&◌, ◌||◌,
  if◌then◌else◌,
}
use virtual_so_c.Prelude.Bits.{bit}
use virtual_so_c.Cpu.Mmu.Permissions.{
  AccessType, fetch, load, store, MmuResult, faulted, translated,
}
use virtual_so_c.Cpu.Mmu.Walk.{Access}

-- The flags V, R, W, X and U of an entry, and its page number.
abbrev pub flag : ℕ → ℕ → Bool
flag i pte = bit i pte == 1

-- V is set, and W is not set without R.
abbrev pub well_formed : ℕ → Bool
well_formed pte = flag 0 pte && (flag 1 pte || not (flag 2 pte))

abbrev pub is_leaf : ℕ → Bool
is_leaf pte = flag 1 pte || flag 2 pte || flag 3 pte

-- What the flags of a leaf allow.
abbrev pub right : AccessType → ℕ → ℕ → Bool
right fetch mstatus pte = flag 3 pte
right load mstatus pte = flag 1 pte || flag 3 pte && bit 19 mstatus == 1
right store mstatus pte = flag 2 pte

-- User mode has the user pages, supervisor mode the others, and with SUM, for data, all.
abbrev pub reachable : AccessType → ℕ → ℕ → ℕ → Bool
reachable fetch priv mstatus pte = if priv == 0 then flag 4 pte else not (priv == 1 && flag 4 pte)
reachable _ priv mstatus pte =
    if priv == 0 then flag 4 pte else not (priv == 1 && flag 4 pte && not (bit 18 mstatus == 1))

abbrev pub permitted : Access → ℕ → Bool
permitted c pte = reachable c.type c.priv c.mstatus pte && right c.type c.mstatus pte

-- A leaf: its entry, and whether it maps 4 megabytes.
pub record Leaf : Type 0 where
  pub pte : ℕ
  pub mega : Bool

-- A root's entry that is a leaf is aligned to 4 megabytes.
abbrev pub leaf_at : Bool → ℕ → Option Leaf
leaf_at mega pte =
    if mega && not (pte / 2 ^ 10 % 2 ^ 10 == 0)
    then none
    else some (record { pte = pte; mega = mega })

module _ (table : ℕ → ℕ) where
  -- The entry in the second table.
  unfoldable pub second_level : ℕ → ℕ → Option Leaf
  second_level vaddr pointer =
      let pte = table (pointer / 2 ^ 10 % 2 ^ 20 * 2 ^ 12 + vaddr / 2 ^ 12 % 2 ^ 10 * 4) in
      if well_formed pte && is_leaf pte then leaf_at false pte else none

  unfoldable pub resolve : ℕ → ℕ → Option Leaf
  resolve satp vaddr =
      let pte = table (satp % 2 ^ 20 * 2 ^ 12 + vaddr / 2 ^ 22 % 2 ^ 10 * 4) in
      if well_formed pte
      then if is_leaf pte then leaf_at true pte else second_level vaddr pte
      else none

-- The physical address, in 32 bits.
abbrev pub address_in : Leaf → ℕ → ℕ
address_in l vaddr =
    if l.mega
    then l.pte / 2 ^ 20 % 2 ^ 10 * 2 ^ 22 + vaddr % 2 ^ 22
    else l.pte / 2 ^ 10 % 2 ^ 20 * 2 ^ 12 + vaddr % 2 ^ 12

unfoldable pub answer : Access → ℕ → Option Leaf → MmuResult
answer c vaddr none = faulted c.type
answer c vaddr (some l) =
    if permitted c l.pte then translated (address_in l vaddr) else faulted c.type

-- The translation that the architecture asks for.
unfoldable pub sv32 : (ℕ → ℕ) → Access → ℕ → MmuResult
sv32 table c vaddr =
    if c.satp / 2 ^ 31 == 0 then translated vaddr else answer c vaddr (resolve table c.satp vaddr)
