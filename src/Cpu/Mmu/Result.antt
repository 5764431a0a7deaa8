-- ===== src/Cpu/Mmu/Result.antt =====
-- What a walk returns, against the architecture's account of it.
use virtual_so_c.Prelude.{
  ℕ, suc, ◌+◌, ◌-◌, ◌*◌, ◌/◌, ◌%◌, ◌^◌, ◌<◌, Bool, true, false, not, none, some, ◌==◌, ◌&&◌,
  if◌then◌else◌, u32, has_bits, ◌>>>◌, ◌&&&◌, ◌≡◌, refl, arith, ap, ◌∙◌, sym, inl, inr, Bool-cases,
}
use virtual_so_c.Prelude.Bits.{bit_and_mask, has_bits-pow}
use virtual_so_c.Cpu.Defs
use virtual_so_c.Cpu.Mmu.Permissions.{faulted}
use virtual_so_c.Cpu.Mmu.Tlb.{Tlb}
use virtual_so_c.Cpu.Mmu.Walk.{
  Access, PageMemory, Translation, leaf, levels, walk, vpn_at, physical,
}
use virtual_so_c.Cpu.Mmu.Sv32.{
  flag, well_formed, is_leaf, leaf_at, second_level, resolve, address_in, answer, permitted,
}
use virtual_so_c.Cpu.Mmu.Flags.{has_bits-rwx, check_permissions-permitted, physical-address_in}
use virtual_so_c.Cpu.Mmu.Memory.{IsMemory, table_of}

-- The numbers of the walk.
pub first_address :
    (satp v : ℕ)
    → u32 (u32 ((satp &&& Defs.satp_ppn_mask) * 2 ^ 12) + vpn_at v 1 * 4)
      ≡ satp % 2 ^ 20 * 2 ^ 12 + v / 2 ^ 22 % 2 ^ 10 * 4
first_address satp v = omega (arith, bit_and_mask 22 satp, bit_and_mask 10 (v / 2 ^ 22))

pub second_address :
    (p v : ℕ)
    → u32 (u32 ((p >>> 10) * 2 ^ 12) + vpn_at v 0 * 4)
      ≡ p / 2 ^ 10 % 2 ^ 20 * 2 ^ 12 + v / 2 ^ 12 % 2 ^ 10 * 4
second_address p v = omega (arith, bit_and_mask 10 (v / 2 ^ 12))

aligned : (p : ℕ) → ((p >>> 10 &&& 1023) == 0) ≡ (p / 2 ^ 10 % 2 ^ 10 == 0)
aligned p = ap (λ x. x == 0) (bit_and_mask 10 (p / 2 ^ 10))

-- The tests of V, R and W.
guards :
    {A : Type 0} (p : ℕ) (fails goes : A)
    → (if not (has_bits p Defs.pte_v)
        then fails
        else if not (has_bits p Defs.pte_r) && has_bits p Defs.pte_w
        then fails
        else goes)
      ≡ (if well_formed p then goes else fails)
guards p fails goes =
    rw (has_bits-pow 0 p, has_bits-pow 1 p, has_bits-pow 2 p)
      (elim (Bool-cases (flag 0 p)) [
        | inr n ↦ rw n refl
        | inl y ↦ rw y (elim (Bool-cases (flag 1 p)) [
          | inl r ↦ rw r refl
          | inr r ↦ rw r (elim (Bool-cases (flag 2 p)) [ inl x ↦ rw x refl | inr x ↦ rw x refl ])
        ])
      ])

pub leaf_at-aligned :
    (mega : Bool) (p : ℕ)
    → (mega && not ((p >>> 10 &&& 1023) == 0)) ≡ false
    → leaf_at mega p ≡ some (record { pte = p; mega = mega })
leaf_at-aligned mega p u =
    ap (λ x. if mega && not x then none else some (record { pte = p; mega = mega }))
      (sym (aligned p))
    ∙ rw u refl

-- A leaf at either level.
pub leaf-answer :
    {W : Type 0} (m : PageMemory W) (victim : Tlb → ℕ) (c : Access) (v level at p : ℕ) (t : Tlb)
    (w : W)
    → p < 2 ^ 32
    → (leaf m victim c v level at p t w).result ≡ answer c v (leaf_at (level == 1) p)
unfolding leaf answer
leaf-answer m victim c v level at p t w l =
    let address : physical (p >>> 10) (level == 1) v
        ≡ address_in (record { pte = p; mega = level == 1 }) v =
      physical-address_in p (level == 1) v l in
    rw (check_permissions-permitted c p, aligned p, address)
      (elim (Bool-cases (permitted c p)) [
        | inr n ↦ rw n (elim (Bool-cases (level == 1 && not (p / 2 ^ 10 % 2 ^ 10 == 0))) [
          | inl y ↦ rw y refl
          | inr z ↦ rw (z, n) refl
        ])
        | inl y ↦ rw y (elim (Bool-cases (level == 1 && not (p / 2 ^ 10 % 2 ^ 10 == 0))) [
          | inl u ↦ rw u refl
          | inr z ↦ rw (z, y) refl
        ])
      ])

module _ {W : Type 0} (m : PageMemory W) (victim : Tlb → ℕ) (memory : IsMemory m) where
  -- The round of the loop that reads the entry `p`.
  unfoldable pub round : Access → ℕ → ℕ → ℕ → ℕ → Tlb → W → Translation W → Translation W
  round c v level at p t w next =
      let fails : Translation W = record { tlb = t; world = w; result = faulted c.type } in
      if well_formed p
      then if is_leaf p
        then leaf m victim c v level at p t w
        else if level == 0
        then fails
        else next
      else fails

  pub levels-round :
      (c : Access) (v left level a : ℕ) (t : Tlb) (w : W)
      → let at = u32 (a + vpn_at v level * 4) in
        let r = m.read at w in
        levels m victim c v (suc left) level a t w
        ≡ round c v level at r.0 t r.1
            (levels m victim c v left (level - 1) (u32 ((r.0 >>> 10) * 2 ^ 12)) t r.1)
  unfolding levels round
  levels-round c v left level a t w =
      guards (m.read (u32 (a + vpn_at v level * 4)) w).0 _ _
      ∙ rw (has_bits-rwx (m.read (u32 (a + vpn_at v level * 4)) w).0) refl

  second-answer :
      (c : Access) (v a pointer : ℕ) (t : Tlb) (w : W)
      → u32 (a + vpn_at v 0 * 4) ≡ pointer / 2 ^ 10 % 2 ^ 20 * 2 ^ 12 + v / 2 ^ 12 % 2 ^ 10 * 4
      → (levels m victim c v 1 0 a t w).result ≡ answer c v (second_level (table_of m w) v pointer)
  unfolding round answer second_level
  second-answer c v a pointer t w e =
      let at : ℕ = pointer / 2 ^ 10 % 2 ^ 20 * 2 ^ 12 + v / 2 ^ 12 % 2 ^ 10 * 4 in
      let p : ℕ = (m.read at w).0 in
      let found : (leaf m victim c v 0 at p t (m.read at w).1).result
          ≡ answer c v (leaf_at false p) =
        leaf-answer m victim c v 0 at p t (m.read at w).1 (memory.read-lt at w) in
      rw (levels-round c v 0 0 a t w, e)
        (elim (Bool-cases (well_formed p)) [
          | inr n ↦ rw n refl
          | inl y ↦ rw y (elim (Bool-cases (is_leaf p)) [ inl k ↦ rw k found | inr k ↦ rw k refl ])
        ])

  -- A walk answers what the page table in memory says.
  pub walk-answer :
      (c : Access) (v : ℕ) (t : Tlb) (w : W)
      → (walk m victim c v t w).result ≡ answer c v (resolve (table_of m w) c.satp v)
  unfolding walk round answer resolve
  walk-answer c v t w =
      let at : ℕ = c.satp % 2 ^ 20 * 2 ^ 12 + v / 2 ^ 22 % 2 ^ 10 * 4 in
      let p : ℕ = (m.read at w).0 in
      let found : (leaf m victim c v 1 at p t (m.read at w).1).result
          ≡ answer c v (leaf_at true p) =
        leaf-answer m victim c v 1 at p t (m.read at w).1 (memory.read-lt at w) in
      rw
        (
          levels-round c v 1 1 (u32 ((c.satp &&& Defs.satp_ppn_mask) * 2 ^ 12)) t w,
          first_address c.satp v,
        )
        (elim (Bool-cases (well_formed p)) [
          | inr n ↦ rw n refl
          | inl y ↦ rw y (elim (Bool-cases (is_leaf p)) [
            | inl k ↦ rw k found
            | inr k ↦ rw k (
                second-answer c v (u32 ((p >>> 10) * 2 ^ 12)) p t (m.read at w).1
                  (second_address p v)
                ∙ ap (λ u. answer c v (second_level (table_of m u) v p)) (memory.read_keeps at w))
          ])
        ])
