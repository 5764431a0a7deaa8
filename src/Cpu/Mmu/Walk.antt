-- ===== src/Cpu/Mmu/Walk.antt =====
-- `walk`, `translate` and `flush_tlb`. The functions `mem_read` and `mem_write`, which the
-- simulator sets up, act on a world `W` of their own.
use virtual_so_c.Prelude.{
  ℕ, zero, suc, ◌+◌, ◌-◌, ◌*◌, Bool, not, [], none, some, ◌==◌, ◌&&◌, if◌then◌else◌, u32, not32,
  has_bits, ◌<<<◌, ◌>>>◌, ◌&&&◌, ◌|||◌,
}
use virtual_so_c.Cpu.Defs
use virtual_so_c.Cpu.Mmu.Permissions.{
  AccessType, store, MmuResult, faulted, translated, check_permissions,
}
use virtual_so_c.Cpu.Mmu.Tlb.{Tlb, TlbEntry, find, remember}

abbrev pub page_shift : ℕ
page_shift = 12

abbrev pub page_size : ℕ
page_size = 1 <<< 12

abbrev pub vpn_bits : ℕ
vpn_bits = 10

abbrev pub vpn_mask : ℕ
vpn_mask = 1 <<< 10 - 1

pub record PageMemory (W : Type 0) : Type 0 where
  pub read : ℕ → W → ℕ × W
  pub write : ℕ → ℕ → W → W

pub record Translation (W : Type 0) : Type 0 where
  pub tlb : Tlb
  pub world : W
  pub result : MmuResult

-- An access: its kind, and the privilege, `satp` and `mstatus` that it is made with.
pub record Access : Type 0 where
  pub type : AccessType
  pub priv : ℕ
  pub satp : ℕ
  pub mstatus : ℕ

-- `vpn[level]`.
abbrev pub vpn_at : ℕ → ℕ → ℕ
vpn_at vaddr level =
    if level == 0
    then vaddr >>> page_shift &&& vpn_mask
    else vaddr >>> (page_shift + vpn_bits) &&& vpn_mask

unfoldable pub physical : ℕ → Bool → ℕ → ℕ
physical ppn super vaddr =
    if super
    then u32 ((ppn &&& not32 vpn_mask) <<< page_shift) ||| (vaddr &&& 0x003FFFFF)
    else u32 (ppn <<< page_shift) ||| (vaddr &&& (page_size - 1))

abbrev pub required_bits : AccessType → ℕ
required_bits store = Defs.pte_a ||| Defs.pte_d
required_bits _ = Defs.pte_a

-- What an entry that is found answers.
unfoldable pub hit : Access → ℕ → TlbEntry → MmuResult
unfolding physical
hit c vaddr e =
    if check_permissions e.pte_flags c.type c.priv c.mstatus
    then translated (physical e.ppn e.is_superpage vaddr)
    else faulted c.type

module _ {W : Type 0} (m : PageMemory W) (victim : Tlb → ℕ) where
  abbrev page_fault : AccessType → Tlb → W → Translation W
  page_fault type t w = record { tlb = t; world = w; result = faulted type }

  -- A leaf entry `pte`, read at `pte_addr`.
  unfoldable pub leaf : Access → ℕ → ℕ → ℕ → ℕ → Tlb → W → Translation W
  unfolding physical
  leaf c vaddr level pte_addr pte t w =
      let ppn = pte >>> Defs.pte_ppn_shift in
      let super = level == 1 in
      let required = required_bits c.type in
      let marked = (pte &&& required) == required in
      let pte' = if marked then pte else pte ||| required in
      let w' = if marked then w else m.write pte_addr pte' w in
      let entry : TlbEntry = record {
        ppn = ppn;
        pte_flags = pte' &&& 0xFF;
        is_superpage = super;
      } in
      if not (check_permissions pte c.type c.priv c.mstatus)
      then page_fault c.type t w
      else if super && not ((ppn &&& vpn_mask) == 0)
      then page_fault c.type t w
      else record {
        tlb = remember victim (vaddr >>> page_shift) entry t;
        world = w';
        result = translated (physical ppn super vaddr);
      }

  -- The loop, with `left` rounds to go.
  unfoldable pub levels : Access → ℕ → ℕ → ℕ → ℕ → Tlb → W → Translation W
  levels c vaddr zero level a t w = page_fault c.type t w
  levels c vaddr (suc left) level a t w =
      let pte_addr = u32 (a + vpn_at vaddr level * 4) in
      let r = m.read pte_addr w in
      let pte = r.0 in
      let next =
        levels c vaddr left (level - 1) (u32 ((pte >>> Defs.pte_ppn_shift) * page_size)) t r.1 in
      if not (has_bits pte Defs.pte_v)
      then page_fault c.type t r.1
      else if not (has_bits pte Defs.pte_r) && has_bits pte Defs.pte_w
      then page_fault c.type t r.1
      else if has_bits pte (Defs.pte_r ||| Defs.pte_w ||| Defs.pte_x)
      then leaf c vaddr level pte_addr pte t r.1
      else if level == 0
      then page_fault c.type t r.1
      else next

  unfoldable pub walk : Access → ℕ → Tlb → W → Translation W
  walk c vaddr t w = levels c vaddr 2 1 (u32 ((c.satp &&& Defs.satp_ppn_mask) * page_size)) t w

  unfoldable pub translate : Access → ℕ → Tlb → W → Translation W
  unfolding walk hit
  translate c vaddr t w =
      if (c.satp >>> Defs.satp_mode_shift) == Defs.satp_mode_bare
      then record { tlb = t; world = w; result = translated vaddr }
      else elim (find (vaddr >>> page_shift) t) [
        | some e ↦ record { tlb = t; world = w; result = hit c vaddr e }
        | none ↦ walk c vaddr t w
      ]

-- `flush_tlb`.
abbrev pub flushed : Tlb
flushed = []
