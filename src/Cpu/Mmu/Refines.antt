-- ===== src/Cpu/Mmu/Refines.antt =====
-- The buffer and the walks together, `translate`, against the architecture's translation.
use virtual_so_c.Prelude.{
  ℕ, ◌+◌, ◌*◌, ◌/◌, ◌%◌, ◌^◌, ◌<◌, Bool, true, false, not, [], ◌∷◌, List, map, Option, none, some,
  ◌==◌, ◌&&◌, if◌then◌else◌, u32, ◌>>>◌, ◌&&&◌, ◌|||◌, ◌≡◌, refl, arith, ◌∙◌, sym, inl, inr,
  Bool-cases, Option-cases,
}
use mathlib.Core.Path.{subst}
use mathlib.Core.Option.{some-ne-none}
use virtual_so_c.Prelude.Bits.{bit_and_mask, bit_or-lt}
use virtual_so_c.Cpu.Defs
use virtual_so_c.Cpu.Mmu.Permissions.{AccessType, fetch, load, store, MmuResult, check_permissions}
use virtual_so_c.Cpu.Mmu.Tlb.{Tlb, find, remember}
use virtual_so_c.Cpu.Mmu.Walk.{
  Access, PageMemory, Translation, flushed, leaf, levels, walk, translate, required_bits, vpn_at,
}
use virtual_so_c.Cpu.Mmu.Sv32.{well_formed, is_leaf, Leaf, leaf_at, second_level, resolve, sv32}
use virtual_so_c.Cpu.Mmu.Memory.{
  IsMemory, table_of, SameEntry, SameTable, SameLeaf, SameEntry-refl, required-SameEntry,
  resolve-SameLeaf,
}
use virtual_so_c.Cpu.Mmu.Result.{
  leaf_at-aligned, levels-round, round, walk-answer, first_address, second_address,
}
use virtual_so_c.Cpu.Mmu.Cache.{
  CachesOption, Coherent, hit-CachesOption, answer-SameLeaf, Coherent-remember,
}

-- The bits that a leaf gets.
updated : Bool → AccessType → ℕ → ℕ
updated marked type p = if marked then p else p ||| required_bits type

updated-SameEntry :
    (marked : Bool) (type : AccessType) (p : ℕ) → SameEntry (updated marked type p) p
unfolding updated
updated-SameEntry true type p = SameEntry-refl p
updated-SameEntry false type p = required-SameEntry type p

required-lt : (type : AccessType) (p : ℕ) → p < 2 ^ 32 → (p ||| required_bits type) < 2 ^ 32
required-lt fetch p b = bit_or-lt 32 p 64 b (omega arith)
required-lt load p b = bit_or-lt 32 p 64 b (omega arith)
required-lt store p b = bit_or-lt 32 p 192 b (omega arith)

updated-CachesOption :
    (p q : ℕ) (mega : Bool) (l : Option Leaf)
    → SameLeaf (some (record { pte = p; mega = mega })) l
    → p < 2 ^ 32
    → SameEntry q p
    → CachesOption (record { ppn = p >>> 10; pte_flags = q &&& 0xFF; is_superpage = mega }) l
updated-CachesOption p q mega none h b e = absurd h
updated-CachesOption p q mega (some l) h b e = (
  record {
    flags = omega (arith, bit_and_mask 8 q, e.low, h.0.low);
    number = omega (arith, h.0.high);
    level = h.1;
  },
  omega (arith, h.0.high, b),
)

-- A request to translate, under a `satp` that stays.
pub record Request : Type 0 where
  pub type : AccessType
  pub priv : ℕ
  pub mstatus : ℕ
  pub vaddr : ℕ

abbrev pub access : ℕ → Request → Access
access satp r = record { type = r.type; priv = r.priv; satp = satp; mstatus = r.mstatus }

-- The results of a sequence of calls of `translate`, and the world after them.
unfoldable pub replay :
    {W : Type 0} → PageMemory W → (Tlb → ℕ) → ℕ → List Request → Tlb → W → List MmuResult × W
replay m victim satp [] t w = ([], w)
replay m victim satp (r ∷ rs) t w =
    let one = translate m victim (access satp r) r.vaddr t w in
    let rest = replay m victim satp rs one.tlb one.world in (one.result ∷ rest.0, rest.1)

module _ {W : Type 0} (m : PageMemory W) (memory : IsMemory m) (table : ℕ → ℕ) (satp : ℕ) where
  -- The memory has the page table but for A and D, and the buffer is of that table.
  record Agrees (t : Tlb) (w : W) : Type 0 where
    words : SameTable (table_of m w) table
    entries : Coherent table satp t

  write-SameTable :
      (at q : ℕ) (w : W)
      → at % 4 ≡ 0
      → q < 2 ^ 32
      → SameEntry q (m.read at w).0
      → SameTable (table_of m w) table
      → SameTable (table_of m (m.write at q w)) table
  write-SameTable at q w z b e h a y =
      let read : (m.read a (m.write at q w)).0 ≡ (if at == a then q else (m.read a w).0) =
        memory.read-write at a q w z y b in
      elim (Bool-cases (at == a)) [
        | inl i ↦
            (let same : at ≡ a = ground (arith, i) in
              let k : SameEntry (m.read at w).0 (table a) =
                subst (λ x. SameEntry (m.read x w).0 (table a)) (sym same) (h a y) in
              rw (read, i) (record { low = e.low ∙ k.low; high = e.high ∙ k.high }))
        | inr n ↦ rw (read, n) (h a y)
      ]

  module _ (victim : Tlb → ℕ) where
    abbrev Keeps : Translation W → Type 0
    Keeps r = Agrees r.tlb r.world

    -- What a leaf leaves, when the page table has it for the access.
    kept :
        (type : AccessType) (marked mega : Bool) (v at : ℕ) (t : Tlb) (w : W)
        → at % 4 ≡ 0
        → Agrees t w
        → SameLeaf (some (record { pte = (m.read at w).0; mega = mega })) (resolve table satp v)
        → let p = (m.read at w).0 in
          let q = if marked then p else p ||| required_bits type in
          Agrees
            (remember victim
              (v >>> 12)
              (record { ppn = p >>> 10; pte_flags = q &&& 0xFF; is_superpage = mega })
              t)
            (if marked then w else m.write at q w)
    unfolding updated
    kept type marked mega v at t w z a s =
        let p : ℕ = (m.read at w).0 in
        let q : ℕ = updated marked type p in
        let e : SameEntry q p = updated-SameEntry marked type p in
        let b : p < 2 ^ 32 = memory.read-lt at w in
        record {
          words = elim (Bool-cases marked) [
            | inl y ↦ rw y a.words
            | inr n ↦ rw n (
                write-SameTable at (p ||| required_bits type) w z (required-lt type p b)
                  (required-SameEntry type p) a.words)
          ];
          entries =
              Coherent-remember victim table satp v _ t a.entries
                (updated-CachesOption p q mega (resolve table satp v) s b e);
        }

    leaf-Keeps :
        (c : Access) (v level at : ℕ) (t : Tlb) (w : W)
        → at % 4 ≡ 0
        → Agrees t w
        → SameLeaf (leaf_at (level == 1) (m.read at w).0) (resolve table satp v)
        → Keeps (leaf m victim c v level at (m.read at w).0 t w)
    unfolding leaf
    leaf-Keeps c v level at t w z a s =
        let p : ℕ = (m.read at w).0 in
        elim (Bool-cases (check_permissions p c.type c.priv c.mstatus)) [
          | inr n ↦ rw n a
          | inl y ↦ rw y (elim (Bool-cases (level == 1 && not ((p >>> 10 &&& 1023) == 0))) [
            | inl u ↦ rw u a
            | inr u ↦ rw u (
                kept c.type ((p &&& required_bits c.type) == required_bits c.type) (level == 1) v at
                  t w z a
                  (subst (λ x. SameLeaf x (resolve table satp v)) (leaf_at-aligned (level == 1) p u)
                    s))
          ])
        ]

    -- The second round, after a pointer `p` in the first table.
    second-Keeps :
        (c : Access) (v a pointer : ℕ) (t : Tlb) (w : W)
        → u32 (a + vpn_at v 0 * 4) ≡ pointer / 2 ^ 10 % 2 ^ 20 * 2 ^ 12 + v / 2 ^ 12 % 2 ^ 10 * 4
        → Agrees t w
        → SameLeaf (second_level (table_of m w) v pointer) (resolve table satp v)
        → Keeps (levels m victim c v 1 0 a t w)
    unfolding round second_level
    second-Keeps c v a pointer t w e g s =
        let at : ℕ = pointer / 2 ^ 10 % 2 ^ 20 * 2 ^ 12 + v / 2 ^ 12 % 2 ^ 10 * 4 in
        let p : ℕ = (m.read at w).0 in
        rw (levels-round m victim memory c v 0 0 a t w, e, memory.read_keeps at w)
          (elim (Bool-cases (well_formed p)) [
            | inr n ↦ rw n g
            | inl y ↦ rw y (elim (Bool-cases (is_leaf p)) [
              | inr k ↦ rw k g
              | inl k ↦ rw k (
                  leaf-Keeps c v 0 at t w (omega arith) g (
                    let here : second_level (table_of m w) v pointer ≡ leaf_at false p =
                      rw (y, k) refl in
                    subst (λ x. SameLeaf x (resolve table satp v)) here s))
            ])
          ])

    walk-Keeps :
        (c : Access) (v : ℕ) (t : Tlb) (w : W)
        → c.satp ≡ satp
        → Agrees t w
        → Keeps (walk m victim c v t w)
    unfolding walk round resolve
    walk-Keeps c v t w q g =
        let at : ℕ = c.satp % 2 ^ 20 * 2 ^ 12 + v / 2 ^ 22 % 2 ^ 10 * 4 in
        let p : ℕ = (m.read at w).0 in
        let seen : SameLeaf (resolve (table_of m w) c.satp v) (resolve table satp v) =
          rw q (resolve-SameLeaf (table_of m w) table satp v g.words) in
        rw
          (
            levels-round m victim memory c v 1 1 (u32 ((c.satp &&& Defs.satp_ppn_mask) * 2 ^ 12)) t
                w,
            first_address c.satp v,
            memory.read_keeps at w,
          )
          (elim (Bool-cases (well_formed p)) [
            | inr n ↦ rw n g
            | inl y ↦ rw y (elim (Bool-cases (is_leaf p)) [
              | inl k ↦ rw k (
                  leaf-Keeps c v 1 at t w (omega arith) g (
                    let here : resolve (table_of m w) c.satp v ≡ leaf_at true p = rw (y, k) refl in
                    subst (λ x. SameLeaf x (resolve table satp v)) here seen))
              | inr k ↦ rw k (
                  second-Keeps c v (u32 ((p >>> 10) * 2 ^ 12)) p t w (second_address p v) g (
                    let here : resolve (table_of m w) c.satp v ≡ second_level (table_of m w) v p =
                      rw (y, k) refl in
                    subst (λ x. SameLeaf x (resolve table satp v)) here seen))
            ])
          ])

    translate-Keeps :
        (c : Access) (v : ℕ) (t : Tlb) (w : W)
        → c.satp ≡ satp
        → Agrees t w
        → Keeps (translate m victim c v t w)
    unfolding translate
    translate-Keeps c v t w q g = elim (Bool-cases ((c.satp >>> 31) == 0)) [
      | inl y ↦ rw y g
      | inr n ↦ rw n (elim (Option-cases (find (v >>> 12) t)) [
        | inl e ↦ rw e (walk-Keeps c v t w q g)
        | inr (_, e) ↦ rw e g
      ])
    ]

    translate-answer :
        (c : Access) (v : ℕ) (t : Tlb) (w : W)
        → c.satp ≡ satp
        → Agrees t w
        → (translate m victim c v t w).result ≡ sv32 table c v
    unfolding translate sv32
    translate-answer c v t w q g = elim (Bool-cases ((c.satp >>> 31) == 0)) [
      | inl y ↦ rw y refl
      | inr n ↦ rw n (elim (Option-cases (find (v >>> 12) t)) [
        | inl e ↦ rw e (
            walk-answer m victim memory c v t w
            ∙ answer-SameLeaf c v _ _ (rw q (resolve-SameLeaf (table_of m w) table satp v g.words)))
        | inr (d, e) ↦
            rw e (hit-CachesOption c v d (resolve table c.satp v) (rw q (g.entries d v e)))
      ])
    ]

    replay-Agrees :
        (rs : List Request) (t : Tlb) (w : W)
        → Agrees t w
        → (replay m victim satp rs t w).0 ≡ map (λ r. sv32 table (access satp r) r.vaddr) rs
    unfolding replay
    replay-Agrees [] t w g = refl
    replay-Agrees (r ∷ rs) t w g =
        let c : Access = access satp r in
        let one : Translation W = translate m victim c r.vaddr t w in
        rw
          (
            translate-answer c r.vaddr t w refl g,
            replay-Agrees rs one.tlb one.world (translate-Keeps c r.vaddr t w refl g),
          )
          refl

    replay-words :
        (rs : List Request) (t : Tlb) (w : W)
        → Agrees t w
        → SameTable (table_of m (replay m victim satp rs t w).1) table
    unfolding replay
    replay-words [] t w g = g.words
    replay-words (r ∷ rs) t w g =
        let c : Access = access satp r in
        let one : Translation W = translate m victim c r.vaddr t w in
        replay-words rs one.tlb one.world (translate-Keeps c r.vaddr t w refl g)

module _ {W : Type 0} (m : PageMemory W) (memory : IsMemory m) (victim : Tlb → ℕ) (satp : ℕ) where
  flushed-Agrees : (w : W) → Agrees m memory (table_of m w) satp flushed w
  unfolding find
  flushed-Agrees w = record {
    words = λ a _. SameEntry-refl (table_of m w a);
    entries = λ e v q. absurd (some-ne-none e (sym q));
  }

  -- For a memory of 32-bit words that reads do not change, a value of `satp` and any choice of
  -- the entry to evict, each call of a sequence of translations that starts with a flushed
  -- buffer, with its own kind of access, privilege and `mstatus`, returns what Sv32 asks for with
  -- the page table that the memory held before the sequence: the physical address, or the page
  -- fault.
  pub replay-sv32 :
      (rs : List Request) (w : W)
      → (replay m victim satp rs flushed w).0
        ≡ map (λ r. sv32 (table_of m w) (access satp r) r.vaddr) rs
  replay-sv32 rs w =
      replay-Agrees m memory (table_of m w) satp victim rs flushed w (flushed-Agrees w)

  -- For such a memory, a sequence of translations that starts with a flushed buffer changes no
  -- aligned word of the memory but in its A and D bits.
  pub replay-SameTable :
      (rs : List Request) (w : W)
      → SameTable (table_of m (replay m victim satp rs flushed w).1) (table_of m w)
  replay-SameTable rs w =
      replay-words m memory (table_of m w) satp victim rs flushed w (flushed-Agrees w)
