-- ===== src/Debug/Patches.antt =====
-- A program with breakpoints in it: the map `breakpoints_` of src/debug/gdb_server.cpp, with the
-- RAM alone behind the core's port.
use virtual_so_c.Prelude.{
  ℕ, ◌+◌, ◌<◌, ◌≤◌, List, [], ◌∷◌, none, some, ◌==◌, if◌then◌else◌, length, get_or, ◌≡◌, sym, ap,
  ◌∙◌, arith, ◌⊎◌, inl, inr, Bool-cases,
}
use mathlib.Core.Path.{subst}
use mathlib.Core.Option.{some-injective, some-ne-none}
use virtual_so_c.Tlm.{load_le}
use virtual_so_c.Mem.Ram.{fetch}
use virtual_so_c.Mem.Blocks.{length-fetch}
use virtual_so_c.Debug.Server.{Server, lookup, erase, port_of}
use virtual_so_c.Debug.Memory.{IsRamPort}
use virtual_so_c.Debug.Bytes.{get_or-fetch, list_ext}

-- Two words that do not meet, and a byte outside a word.
abbrev pub Apart : ℕ → ℕ → Type 0
Apart a b = (a + 4 ≤ b) ⊎ (b + 4 ≤ a)

abbrev pub Off : ℕ → ℕ → Type 0
Off j a = (j < a) ⊎ (a + 4 ≤ j)

unfoldable pub ApartFrom : ℕ → List (ℕ × ℕ) → Type 0
ApartFrom a [] = Unit
ApartFrom a (b ∷ bs) = Apart a b.0 × ApartFrom a bs

-- A byte that no breakpoint covers.
unfoldable pub Free : ℕ → List (ℕ × ℕ) → Type 0
Free j [] = Unit
Free j (b ∷ bs) = Off j b.0 × Free j bs

-- Each breakpoint has kept the word of the program that it replaces.
unfoldable pub Saved : List ℕ → List (ℕ × ℕ) → Type 0
Saved program [] = Unit
Saved program (b ∷ bs) =
    (b.0 + 4 ≤ length program)
    × (b.1 ≡ load_le 4 (fetch program b.0 4))
    × ApartFrom b.0 bs
    × Saved program bs

unfoldable pub AllSpots : (ℕ → Type 0) → List (ℕ × ℕ) → Type 0
AllSpots Spot [] = Unit
AllSpots Spot (b ∷ bs) = Spot b.0 × AllSpots Spot bs

-- The memory is the program but for the breakpoints.
pub record IsPatched (program : List ℕ) (s : Server (List ℕ)) : Type 0 where
  pub port : IsRamPort (port_of s)
  pub size : length (port_of s).bus ≡ length program
  pub saved : Saved program s.breakpoints
  pub same : (j : ℕ) → Free j s.breakpoints → get_or (port_of s).bus j 0 ≡ get_or program j 0

pub Off-cases : (j a : ℕ) → Off j a ⊎ ((a ≤ j) × (j < a + 4))
Off-cases j a = grind arith

-- A byte of a word apart from the breakpoints is free.
ApartFrom-Free : (a k : ℕ) (bs : List (ℕ × ℕ)) → ApartFrom a bs → k < 4 → Free (a + k) bs
unfolding ApartFrom Free
ApartFrom-Free a k [] o l = tt
ApartFrom-Free a k (b ∷ bs) (o, os) l = (ground arith, ApartFrom-Free a k bs os l)

pub Free-erase : (j a : ℕ) (bs : List (ℕ × ℕ)) → Off j a → Free j (erase a bs) → Free j bs
unfolding Free erase
Free-erase j a [] o f = tt
Free-erase j a (b ∷ bs) o f = elim (Bool-cases (b.0 == a)) [
  | inl y ↦
      (let here : b.0 ≡ a = ground (arith, y) in
        let rest : Free j (erase a bs) =
          subst (λ c. Free j (if c then erase a bs else b ∷ erase a bs)) y f in
        (rw here o, Free-erase j a bs o rest))
  | inr n ↦
      (let rest : Free j (b ∷ erase a bs) =
          subst (λ c. Free j (if c then erase a bs else b ∷ erase a bs)) n f in
        (rest.0, Free-erase j a bs o rest.1))
]

ApartFrom-erase : (x a : ℕ) (bs : List (ℕ × ℕ)) → ApartFrom x bs → ApartFrom x (erase a bs)
unfolding ApartFrom erase
ApartFrom-erase x a [] o = tt
ApartFrom-erase x a (b ∷ bs) (o, os) = elim (Bool-cases (b.0 == a)) [
  | inl y ↦ rw y (ApartFrom-erase x a bs os)
  | inr n ↦ rw n (o, ApartFrom-erase x a bs os)
]

pub Saved-erase :
    (a : ℕ) (program : List ℕ) (bs : List (ℕ × ℕ)) → Saved program bs → Saved program (erase a bs)
unfolding Saved erase
Saved-erase a program [] k = tt
Saved-erase a program (b ∷ bs) (i, w, o, k) = elim (Bool-cases (b.0 == a)) [
  | inl y ↦ rw y (Saved-erase a program bs k)
  | inr n ↦ rw n (i, w, ApartFrom-erase b.0 a bs o, Saved-erase a program bs k)
]

pub lookup-Saved :
    (a orig : ℕ) (program : List ℕ) (bs : List (ℕ × ℕ))
    → Saved program bs
    → lookup a bs ≡ some orig
    → (a + 4 ≤ length program) × (orig ≡ load_le 4 (fetch program a 4))
unfolding Saved lookup
lookup-Saved a orig program [] k h = absurd (some-ne-none orig (sym h))
lookup-Saved a orig program (b ∷ bs) (i, w, o, k) h = elim (Bool-cases (b.0 == a)) [
  | inl y ↦
      (let here : b.0 ≡ a = ground (arith, y) in
        let first : b.1 ≡ orig =
          some-injective b.1 orig
            (subst (λ c. (if c then some b.1 else lookup a bs) ≡ some orig) y h) in
        (rw (← here) i, sym first ∙ w ∙ ap (λ x. load_le 4 (fetch program x 4)) here))
  | inr n ↦
      lookup-Saved a orig program bs k
        (subst (λ c. (if c then some b.1 else lookup a bs) ≡ some orig) n h)
]

-- An address that no breakpoint has, among words that do not meet.
pub lookup-ApartFrom :
    (a : ℕ) (bs : List (ℕ × ℕ)) (Spot : ℕ → Type 0)
    → ((x y : ℕ) → Spot x → Spot y → (x ≡ y) ⊎ Apart x y)
    → Spot a
    → AllSpots Spot bs
    → lookup a bs ≡ none
    → ApartFrom a bs
unfolding lookup ApartFrom AllSpots
lookup-ApartFrom a [] Spot d s k h = tt
lookup-ApartFrom a (b ∷ bs) Spot d s (t, ts) h = elim (Bool-cases (b.0 == a)) [
  | inl y ↦
      absurd (some-ne-none b.1 (subst (λ c. (if c then some b.1 else lookup a bs) ≡ none) y h))
  | inr n ↦ (
    elim (d a b.0 s t) [ inl e ↦ absurd (ground (arith, n, e)) | inr o ↦ o ],
    lookup-ApartFrom a bs Spot d s ts
        (subst (λ c. (if c then some b.1 else lookup a bs) ≡ none) n h),
  )
]

-- The word at a free address is the program's.
pub fetch-program :
    (mem program : List ℕ) (a : ℕ) (bs : List (ℕ × ℕ))
    → length mem ≡ length program
    → a + 4 ≤ length program
    → ApartFrom a bs
    → ((j : ℕ) → Free j bs → get_or mem j 0 ≡ get_or program j 0)
    → fetch mem a 4 ≡ fetch program a 4
fetch-program mem program a bs e f o same =
    let n : length (fetch mem a 4) ≡ 4 = length-fetch mem a 4 (omega (arith, e)) in
    list_ext (fetch mem a 4) (fetch program a 4) (n ∙ sym (length-fetch program a 4 f)) λ j l.
      let l4 : j < 4 = omega (arith, n, l) in
      get_or-fetch mem a 4 j l4
      ∙ same (a + j) (ApartFrom-Free a j bs o l4)
      ∙ sym (get_or-fetch program a 4 j l4)
