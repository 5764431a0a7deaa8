-- ===== src/Cpu/Mmu/Cache.antt =====
-- The buffer's entries against the page table: `Tlb` and `Walk`.
use virtual_so_c.Prelude.{
  ℕ, ◌/◌, ◌%◌, ◌^◌, ◌<◌, true, false, [], ◌∷◌, Option, none, some, ◌==◌, ◌&&◌, if◌then◌else◌, leb,
  length, ◌>>>◌, ◌≡◌, refl, arith, ◌∙◌, sym, inl, inr, Bool-cases,
}
use mathlib.Core.Path.{subst}
use mathlib.Core.Option.{some-injective, some-ne-none}
use virtual_so_c.Prelude.Bits.{bit}
use virtual_so_c.Cpu.Mmu.Permissions.{AccessType, fetch, load, store}
use virtual_so_c.Cpu.Mmu.Tlb.{Tlb, TlbEntry, find, erase, assign, remember, tlb_size}
use virtual_so_c.Cpu.Mmu.Walk.{Access, hit}
use virtual_so_c.Cpu.Mmu.Sv32.{
  flag, reachable, right, Leaf, permitted, resolve, second_level, answer,
}
use virtual_so_c.Cpu.Mmu.Flags.{check_permissions-permitted, physical-address_in}
use virtual_so_c.Cpu.Mmu.Memory.{SameLeaf}

find-erase : (j k : ℕ) (t : Tlb) → find j (erase k t) ≡ (if k == j then none else find j t)
unfolding find erase
find-erase j k [] = elim (Bool-cases (k == j)) [ inl y ↦ rw y refl | inr n ↦ rw n refl ]
find-erase j k ((i, e) ∷ t) = ground (arith, find-erase j k t)

find-erase_self : (j k : ℕ) (t : Tlb) → (k == j) ≡ true → find j (erase k t) ≡ none
find-erase_self j k t y = find-erase j k t ∙ rw y refl

find-erase_ne : (j k : ℕ) (t : Tlb) → (k == j) ≡ false → find j (erase k t) ≡ find j t
find-erase_ne j k t n = find-erase j k t ∙ rw n refl

find-assign_self :
    (j k : ℕ) (e : TlbEntry) (t : Tlb) → (k == j) ≡ true → find j (assign k e t) ≡ some e
unfolding find assign
find-assign_self j k e t y = rw y refl

find-assign_ne :
    (j k : ℕ) (e : TlbEntry) (t : Tlb) → (k == j) ≡ false → find j (assign k e t) ≡ find j t
unfolding find assign
find-assign_ne j k e t n = rw n (find-erase_ne j k t n)

-- The leaf that an entry stands for: the flags below A, the page number and the level agree.
pub record Caches (e : TlbEntry) (l : Leaf) : Type 0 where
  pub flags : e.pte_flags % 64 ≡ l.pte % 64
  pub number : e.ppn ≡ l.pte / 2 ^ 10
  pub level : e.is_superpage ≡ l.mega

abbrev pub CachesOption : TlbEntry → Option Leaf → Type 0
CachesOption e none = ⊥
CachesOption e (some l) = Caches e l × (l.pte < 2 ^ 32)

-- Every entry is a leaf of the page table.
abbrev pub Coherent : (ℕ → ℕ) → ℕ → Tlb → Type 0
Coherent table satp t =
    (e : TlbEntry) (v : ℕ) → find (v >>> 12) t ≡ some e → CachesOption e (resolve table satp v)

-- The flags R, W, X and U are among the low six.
low_flags :
    (p q : ℕ)
    → p % 64 ≡ q % 64
    → (flag 1 p ≡ flag 1 q)
      × ((flag 2 p ≡ flag 2 q) × ((flag 3 p ≡ flag 3 q) × (flag 4 p ≡ flag 4 q)))
unfolding bit
low_flags p q h = (ground (arith, h), (ground (arith, h), (ground (arith, h), ground (arith, h))))

rights-low :
    (type : AccessType) (priv mstatus p q : ℕ)
    → p % 64 ≡ q % 64
    → (reachable type priv mstatus p && right type mstatus p)
      ≡ (reachable type priv mstatus q && right type mstatus q)
rights-low fetch priv mstatus p q h = let (r, (w, (x, u))) = low_flags p q h in rw (x, u) refl
rights-low load priv mstatus p q h = let (r, (w, (x, u))) = low_flags p q h in rw (r, x, u) refl
rights-low store priv mstatus p q h = let (r, (w, (x, u))) = low_flags p q h in rw (w, u) refl

permitted-low : (c : Access) (p q : ℕ) → p % 64 ≡ q % 64 → permitted c p ≡ permitted c q
permitted-low c p q h = rights-low c.type c.priv c.mstatus p q h

-- A hit on such an entry answers as the leaf does.
hit-answer :
    (c : Access) (v : ℕ) (e : TlbEntry) (l : Leaf)
    → Caches e l
    → l.pte < 2 ^ 32
    → hit c v e ≡ answer c v (some l)
unfolding hit answer
hit-answer c v e l h b =
    rw
      (
        check_permissions-permitted c e.pte_flags,
        permitted-low c e.pte_flags l.pte h.flags,
        h.number,
        h.level,
        physical-address_in l.pte l.mega v b,
      )
      refl

-- Leaves that differ in A and D only answer alike.
pub answer-SameLeaf :
    (c : Access) (v : ℕ) (k l : Option Leaf) → SameLeaf k l → answer c v k ≡ answer c v l
unfolding answer
answer-SameLeaf c v none none h = refl
answer-SameLeaf c v (some k) (some l) h =
    let number : k.pte / 2 ^ 10 ≡ l.pte / 2 ^ 10 = omega (arith, h.0.high) in
    let mega : k.pte / 2 ^ 20 ≡ l.pte / 2 ^ 20 = omega (arith, h.0.high) in
    rw (permitted-low c k.pte l.pte h.0.low, h.1, number, mega) refl
answer-SameLeaf c v none (some l) h = absurd h
answer-SameLeaf c v (some k) none h = absurd h

-- The page table is read by pages.
pub resolve-page :
    (table : ℕ → ℕ) (satp u v : ℕ)
    → u / 2 ^ 12 ≡ v / 2 ^ 12
    → resolve table satp u ≡ resolve table satp v
unfolding resolve second_level
resolve-page table satp u v h =
    let first : u / 2 ^ 22 ≡ v / 2 ^ 22 = omega (arith, h) in rw (first, h) refl

Coherent-erase :
    (table : ℕ → ℕ) (satp k : ℕ) (t : Tlb) → Coherent table satp t → Coherent table satp (erase k t)
Coherent-erase table satp k t h e v q = elim (Bool-cases (k == (v >>> 12))) [
  | inl y ↦ absurd (some-ne-none e (sym q ∙ find-erase_self (v >>> 12) k t y))
  | inr n ↦ h e v (sym (find-erase_ne (v >>> 12) k t n) ∙ q)
]

-- A new entry, whichever one makes room for it.
pub Coherent-remember :
    (victim : Tlb → ℕ) (table : ℕ → ℕ) (satp v : ℕ) (e : TlbEntry) (t : Tlb)
    → Coherent table satp t
    → CachesOption e (resolve table satp v)
    → Coherent table satp (remember victim (v >>> 12) e t)
unfolding remember
Coherent-remember victim table satp v e t h k d u q =
    let room : Tlb = if leb tlb_size (length t) then erase (victim t) t else t in
    let rest : Coherent table satp room = elim (Bool-cases (leb tlb_size (length t))) [
      | inl y ↦ rw y (Coherent-erase table satp (victim t) t h)
      | inr n ↦ rw n h
    ] in
    elim (Bool-cases ((v >>> 12) == (u >>> 12))) [
      | inl y ↦
          (let same : e ≡ d =
              some-injective e d (sym (find-assign_self (u >>> 12) (v >>> 12) e room y) ∙ q) in
            let page : v / 2 ^ 12 ≡ u / 2 ^ 12 = ground (arith, y) in
            subst (λ x. CachesOption x (resolve table satp u)) same
              (subst (CachesOption e) (resolve-page table satp v u page) k))
      | inr n ↦ rest d u (sym (find-assign_ne (u >>> 12) (v >>> 12) e room n) ∙ q)
    ]

pub hit-CachesOption :
    (c : Access) (v : ℕ) (e : TlbEntry) (o : Option Leaf)
    → CachesOption e o
    → hit c v e ≡ answer c v o
hit-CachesOption c v e none h = absurd h
hit-CachesOption c v e (some l) h = hit-answer c v e l h.0 h.1
