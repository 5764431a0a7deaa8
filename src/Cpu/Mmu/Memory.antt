-- ===== src/Cpu/Mmu/Memory.antt =====
-- Page tables in a memory: what a walk needs of it, and what setting A and D leaves alone.
use virtual_so_c.Prelude.{
  ℕ, ◌+◌, ◌*◌, ◌/◌, ◌%◌, ◌^◌, ◌<◌, Bool, true, false, ◌==◌, if◌then◌else◌, ◌|||◌, ◌≡◌, refl, arith,
  inl, inr, Bool-cases, ◌&&◌, Option, none, some,
}
use virtual_so_c.Prelude.Bits.{bit, bit_or_step, bit_or-zero}
use virtual_so_c.Cpu.Mmu.Permissions.{AccessType, fetch, load, store}
use virtual_so_c.Cpu.Mmu.Walk.{PageMemory, required_bits}
use virtual_so_c.Cpu.Mmu.Sv32.{Leaf, is_leaf, well_formed, leaf_at, resolve, second_level}

-- The memory behind `mem_read` and `mem_write`: aligned 32-bit words, that reads do not change.
pub record IsMemory {W : Type 0} (m : PageMemory W) : Type 0 where
  pub read_keeps : (a : ℕ) (w : W) → (m.read a w).1 ≡ w
  pub read-lt : (a : ℕ) (w : W) → (m.read a w).0 < 2 ^ 32
  pub read-write :
      (a b v : ℕ) (w : W)
      → a % 4 ≡ 0
      → b % 4 ≡ 0
      → v < 2 ^ 32
      → (m.read b (m.write a v w)).0 ≡ (if a == b then v else (m.read b w).0)

-- The words of a world.
abbrev pub table_of : {W : Type 0} → PageMemory W → W → ℕ → ℕ
table_of m w a = (m.read a w).0

-- Entries that differ in A and D only.
pub record SameEntry (p q : ℕ) : Type 0 where
  pub low : p % 64 ≡ q % 64
  pub high : p / 256 ≡ q / 256

abbrev pub SameTable : (ℕ → ℕ) → (ℕ → ℕ) → Type 0
SameTable f g = (a : ℕ) → a % 4 ≡ 0 → SameEntry (f a) (g a)

pub SameEntry-refl : (p : ℕ) → SameEntry p p
SameEntry-refl p = record { low = refl; high = refl }

-- Three bits at a time.
or_64_low : (p : ℕ) → (p ||| 64) ≡ p % 8 + 8 * (p / 2 / 2 / 2 ||| 8)
or_64_low p = omega (arith, bit_or_step p 64, bit_or_step (p / 2) 32, bit_or_step (p / 2 / 2) 16)

or_8_low : (p : ℕ) → (p ||| 8) ≡ p % 8 + 8 * (p / 2 / 2 / 2 ||| 1)
or_8_low p = omega (arith, bit_or_step p 8, bit_or_step (p / 2) 4, bit_or_step (p / 2 / 2) 2)

or_192_low : (p : ℕ) → (p ||| 192) ≡ p % 8 + 8 * (p / 2 / 2 / 2 ||| 24)
or_192_low p = omega (arith, bit_or_step p 192, bit_or_step (p / 2) 96, bit_or_step (p / 2 / 2) 48)

or_24_low : (p : ℕ) → (p ||| 24) ≡ p % 8 + 8 * (p / 2 / 2 / 2 ||| 3)
or_24_low p = omega (arith, bit_or_step p 24, bit_or_step (p / 2) 12, bit_or_step (p / 2 / 2) 6)

or_1 : (x : ℕ) → (x ||| 1) ≡ x / 2 * 2 + 1
or_1 x = omega (arith, bit_or_step x 1, bit_or-zero (x / 2))

or_64_sum : (p : ℕ) → (p ||| 64) ≡ p % 64 + 64 * (p / 128 * 2 + 1)
or_64_sum p = omega (arith, or_64_low p, or_8_low (p / 2 / 2 / 2), or_1 (p / 2 / 2 / 2 / 2 / 2 / 2))

or_64 :
    (p : ℕ) → ((p ||| 64) % 256 ≡ p % 64 + (64 + p / 128 % 2 * 128)) × ((p ||| 64) / 256 ≡ p / 256)
or_64 p = (omega (arith, or_64_sum p), omega (arith, or_64_sum p))

or_3 : (x : ℕ) → ((x ||| 3) % 4 ≡ 3) × ((x ||| 3) / 4 ≡ x / 4)
or_3 x = omega (arith, bit_or_step x 3, bit_or_step (x / 2) 1, bit_or-zero (x / 2 / 2))

or_high : (p : ℕ) → (p ||| 192) ≡ p % 64 + 64 * (p / 2 / 2 / 2 / 2 / 2 / 2 ||| 3)
or_high p = omega (arith, or_192_low p, or_24_low (p / 2 / 2 / 2))

or_192 : (p : ℕ) → ((p ||| 192) % 256 ≡ p % 64 + 192) × ((p ||| 192) / 256 ≡ p / 256)
or_192 p = omega (arith, or_high p, or_3 (p / 2 / 2 / 2 / 2 / 2 / 2))

-- Setting the required bits of an entry.
pub required-SameEntry : (type : AccessType) (p : ℕ) → SameEntry (p ||| required_bits type) p
required-SameEntry fetch p = record { low = omega (arith, or_64 p); high = omega (arith, or_64 p) }
required-SameEntry load p = record { low = omega (arith, or_64 p); high = omega (arith, or_64 p) }
required-SameEntry store p = record {
  low = omega (arith, or_192 p);
  high = omega (arith, or_192 p);
}

-- The code and the architecture see the same in such entries.
record SameView (p q : ℕ) : Type 0 where
  formed : well_formed p ≡ well_formed q
  leafness : is_leaf p ≡ is_leaf q
  number : p / 2 ^ 10 ≡ q / 2 ^ 10

SameEntry-SameView : (p q : ℕ) → SameEntry p q → SameView p q
unfolding bit
SameEntry-SameView p q h = record {
  formed = ground (arith, h.low);
  leafness = ground (arith, h.low);
  number = omega (arith, h.high);
}

-- Leaves that differ in A and D only.
abbrev pub SameLeaf : Option Leaf → Option Leaf → Type 0
SameLeaf none none = Unit {0}
SameLeaf (some k) (some l) = SameEntry k.pte l.pte × (k.mega ≡ l.mega)
SameLeaf _ _ = ⊥

leaf_at-SameLeaf :
    (mega : Bool) (p q : ℕ) → SameEntry p q → SameLeaf (leaf_at mega p) (leaf_at mega q)
leaf_at-SameLeaf true p q h = elim (Bool-cases (p / 2 ^ 10 % 2 ^ 10 == 0)) [
  | inl z ↦
      (let z' : (q / 2 ^ 10 % 2 ^ 10 == 0) ≡ true = ground (arith, h.high) in rw (z, z') (h, refl))
  | inr n ↦ (let n' : (q / 2 ^ 10 % 2 ^ 10 == 0) ≡ false = ground (arith, h.high) in rw (n, n') tt)
]
leaf_at-SameLeaf false p q h = (h, refl)

second-SameLeaf :
    (f g : ℕ → ℕ) (vaddr p q : ℕ)
    → SameTable f g
    → SameEntry p q
    → SameLeaf (second_level f vaddr p) (second_level g vaddr q)
unfolding second_level
second-SameLeaf f g vaddr p q h e =
    let v : SameView p q = SameEntry-SameView p q e in
    let at : ℕ = q / 2 ^ 10 % 2 ^ 20 * 2 ^ 12 + vaddr / 2 ^ 12 % 2 ^ 10 * 4 in
    let k : SameEntry (f at) (g at) = h at (omega arith) in
    let u : SameView (f at) (g at) = SameEntry-SameView (f at) (g at) k in
    rw (v.number, u.formed, u.leafness)
      (elim (Bool-cases (well_formed (g at) && is_leaf (g at))) [
        | inl y ↦ rw y (k, refl)
        | inr n ↦ rw n tt
      ])

pub resolve-SameLeaf :
    (f g : ℕ → ℕ) (satp vaddr : ℕ)
    → SameTable f g
    → SameLeaf (resolve f satp vaddr) (resolve g satp vaddr)
unfolding resolve
resolve-SameLeaf f g satp vaddr h =
    let at : ℕ = satp % 2 ^ 20 * 2 ^ 12 + vaddr / 2 ^ 22 % 2 ^ 10 * 4 in
    let k : SameEntry (f at) (g at) = h at (omega arith) in
    let u : SameView (f at) (g at) = SameEntry-SameView (f at) (g at) k in
    rw (u.formed, u.leafness)
      (elim (Bool-cases (well_formed (g at))) [
        | inr n ↦ rw n tt
        | inl y ↦ rw y (elim (Bool-cases (is_leaf (g at))) [
          | inl m ↦ rw m (leaf_at-SameLeaf true (f at) (g at) k)
          | inr p ↦ rw p (second-SameLeaf f g vaddr (f at) (g at) h k)
        ])
      ])
