-- ===== src/Debug/Breakpoints.antt =====
-- Breakpoints come off as they went on: `handle_insert_bp` and `handle_remove_bp` of
-- src/debug/gdb_server.cpp, with the RAM alone behind the core's port.
use virtual_so_c.Prelude.{
  ℕ, ◌+◌, ◌-◌, ◌<◌, ◌≤◌, List, [], ◌∷◌, true, false, some, ◌==◌, length, get_or, ◌≡◌, refl, sym, ap,
  ◌∙◌, arith, ◌⊎◌, inl, inr, Bool-cases, Option-cases,
}
use mathlib.Core.Path.{subst}
use virtual_so_c.Tlm.{load_le, store_le}
use virtual_so_c.Cpu.Iss.Port.{Port, bus_read, bus_write}
use virtual_so_c.Mem.Ram.{put, fetch, length-put, get_or-put}
use virtual_so_c.Mem.Blocks.{length-fetch}
use virtual_so_c.Mem.Host.{ram, length-store_le}
use virtual_so_c.Debug.Server.{Server, ebreak_insn, lookup, erase, port_of, insert_bp, remove_bp}
use virtual_so_c.Debug.Memory.{IsRamPort, bus_read-fetch, bus_write-put}
use virtual_so_c.Debug.Bytes.{
  IsBytes, get_or-put_in, get_or-fetch, list_ext, store_le-load_le, fetch-IsBytes,
}
use virtual_so_c.Debug.Patches.{
  Apart, ApartFrom, Free, Saved, AllSpots, IsPatched, Off-cases, Free-erase, Saved-erase,
  lookup-Saved, lookup-ApartFrom, fetch-program,
}

-- Requests of the debugger, on addresses.
pub data Request : Type 0 where
  inserts removes : ℕ → Request

unfoldable pub requested : List Request → Server (List ℕ) → Server (List ℕ)
requested [] s = s
requested (inserts a ∷ rs) s = requested rs (insert_bp ram a s)
requested (removes a ∷ rs) s = requested rs (remove_bp ram a s)

unfoldable pub AllAt : (ℕ → Type 0) → List Request → Type 0
AllAt Spot [] = Unit
AllAt Spot (inserts a ∷ rs) = Spot a × AllAt Spot rs
AllAt Spot (removes a ∷ rs) = Spot a × AllAt Spot rs

unfoldable pub cleared : List (ℕ × ℕ) → Server (List ℕ) → Server (List ℕ)
cleared [] s = s
cleared (b ∷ bs) s = cleared bs (remove_bp ram b.0 s)

erase-ApartFrom : (a : ℕ) (bs : List (ℕ × ℕ)) → ApartFrom a bs → erase a bs ≡ bs
unfolding erase ApartFrom
erase-ApartFrom a [] o = refl
erase-ApartFrom a (b ∷ bs) (o, os) =
    let other : (b.0 == a) ≡ false = ground arith in
    rw other (ap (λ t. b ∷ t) (erase-ApartFrom a bs os))

remove_bp-erase :
    (a orig : ℕ) (s : Server (List ℕ))
    → lookup a s.breakpoints ≡ some orig
    → (remove_bp ram a s).breakpoints ≡ erase a s.breakpoints
unfolding remove_bp
remove_bp-erase a orig s e = rw (remove_bp, e) refl

-- The first of the breakpoints, when they do not meet.
erase-first :
    (b : ℕ × ℕ) (bs : List (ℕ × ℕ)) (program : List ℕ)
    → Saved program (b ∷ bs)
    → (lookup b.0 (b ∷ bs) ≡ some b.1) × (erase b.0 (b ∷ bs) ≡ bs)
unfolding erase lookup Saved
erase-first b bs program (i, w, o, k) =
    let same : (b.0 == b.0) ≡ true = ground arith in rw same (refl, erase-ApartFrom b.0 bs o)

-- A word is written over.
overwritten :
    (a v : ℕ) (p : Port (List ℕ))
    → a + 4 ≤ length p.bus
    → IsRamPort p
    → let q = bus_write ram a v 4 p in
      (q.bus ≡ put p.bus a (store_le 4 v)) × (length q.bus ≡ length p.bus) × IsRamPort q
overwritten a v p f k =
    let w = bus_write-put a v 4 p (omega arith) (omega arith) f k in
    (w.0, ap length w.0 ∙ length-put p.bus a (store_le 4 v), w.1)

module _ (program : List ℕ) (Spot : ℕ → Type 0)
    (apart : (x y : ℕ) → Spot x → Spot y → (x ≡ y) ⊎ Apart x y)
    (inside : (x : ℕ) → Spot x → x + 4 ≤ length program) (bytes : IsBytes program) where
  insert_bp-IsPatched :
      (a : ℕ) (s : Server (List ℕ))
      → Spot a
      → AllSpots Spot s.breakpoints
      → IsPatched program s
      → IsPatched program (insert_bp ram a s) × AllSpots Spot (insert_bp ram a s).breakpoints
  unfolding insert_bp Saved AllSpots Free
  insert_bp-IsPatched a s spot spots k = elim (Option-cases (lookup a s.breakpoints)) [
    | inr (orig, e) ↦ rw (insert_bp, e) (k, spots)
    | inl e ↦
        (let p : Port (List ℕ) = port_of s in
          let fits : a + 4 ≤ length p.bus = omega (arith, k.size, inside a spot) in
          let off : ApartFrom a s.breakpoints =
            lookup-ApartFrom a s.breakpoints Spot apart spot spots e in
          let r = bus_read-fetch a 4 p (omega arith) (omega arith) fits k.port in
          let p' : Port (List ℕ) = (bus_read ram a 4 p).1 in
          let size' : length p'.bus ≡ length program = ap length r.1 ∙ k.size in
          let w = overwritten a ebreak_insn p' (omega (arith, size', inside a spot)) r.2 in
          rw (insert_bp, e)
            (
              record {
                port = w.2;
                size = w.1 ∙ size';
                saved = (
                  inside a spot,
                  r.0
                      ∙ ap (load_le 4) (
                          fetch-program p.bus program a s.breakpoints k.size (inside a spot) off
                            k.same),
                  off,
                  k.saved,
                );
                same = λ j f.
                    ap (λ m. get_or m j 0) w.0
                    ∙ get_or-put p'.bus a (store_le 4 ebreak_insn) j
                        (rw (length-store_le 4 ebreak_insn) f.0)
                    ∙ ap (λ m. get_or m j 0) r.1
                    ∙ k.same j f.1;
              },
              (spot, spots),
            ))
  ]

  AllSpots-erase : (a : ℕ) (bs : List (ℕ × ℕ)) → AllSpots Spot bs → AllSpots Spot (erase a bs)
  unfolding AllSpots erase
  AllSpots-erase a [] k = tt
  AllSpots-erase a (b ∷ bs) (t, ts) = elim (Bool-cases (b.0 == a)) [
    | inl y ↦ rw y (AllSpots-erase a bs ts)
    | inr n ↦ rw n (t, AllSpots-erase a bs ts)
  ]

  -- A byte of the word that is put back.
  restored_byte :
      (mem : List ℕ) (a j : ℕ)
      → length mem ≡ length program
      → a + 4 ≤ length program
      → a ≤ j
      → j < a + 4
      → get_or (put mem a (store_le 4 (load_le 4 (fetch program a 4)))) j 0 ≡ get_or program j 0
  restored_byte mem a j e f l h =
      let word : List ℕ = fetch program a 4 in
      let n : length word ≡ 4 = length-fetch program a 4 f in
      let back : store_le 4 (load_le 4 word) ≡ word =
        store_le-load_le 4 word n (fetch-IsBytes program a 4 bytes) in
      let at : a + (j - a) ≡ j = omega arith in
      rw back (
        ap (λ i. get_or (put mem a word) i 0) (sym at)
        ∙ get_or-put_in mem a (j - a) word (omega (arith, n)) (omega (arith, n, e))
        ∙ get_or-fetch program a 4 (j - a) (omega arith)
        ∙ ap (λ i. get_or program i 0) at)

  remove_bp-IsPatched :
      (a : ℕ) (s : Server (List ℕ))
      → AllSpots Spot s.breakpoints
      → IsPatched program s
      → IsPatched program (remove_bp ram a s) × AllSpots Spot (remove_bp ram a s).breakpoints
  unfolding remove_bp
  remove_bp-IsPatched a s spots k = elim (Option-cases (lookup a s.breakpoints)) [
    | inl e ↦ rw (remove_bp, e) (k, spots)
    | inr (orig, e) ↦
        (let p : Port (List ℕ) = port_of s in
          let (f, word) = lookup-Saved a orig program s.breakpoints k.saved e in
          let fits : a + 4 ≤ length p.bus = omega (arith, k.size, f) in
          let w = overwritten a orig p fits k.port in
          rw (remove_bp, e)
            (
              record {
                port = w.2;
                size = w.1 ∙ k.size;
                saved = Saved-erase a program s.breakpoints k.saved;
                same = λ j free. ap (λ m. get_or m j 0) w.0 ∙ (elim (Off-cases j a) [
                  | inl off ↦
                      get_or-put p.bus a (store_le 4 orig) j (rw (length-store_le 4 orig) off)
                      ∙ k.same j (Free-erase j a s.breakpoints off free)
                  | inr (l, h) ↦ rw word (restored_byte p.bus a j k.size f l h)
                ]);
              },
              AllSpots-erase a s.breakpoints spots,
            ))
  ]

  after_requests :
      (rs : List Request) (s : Server (List ℕ))
      → AllAt Spot rs
      → AllSpots Spot s.breakpoints
      → IsPatched program s
      → IsPatched program (requested rs s) × AllSpots Spot (requested rs s).breakpoints
  unfolding requested AllAt
  after_requests [] s at spots k = (k, spots)
  after_requests (inserts a ∷ rs) s (spot, at) spots k =
      let (k', spots') = insert_bp-IsPatched a s spot spots k in
      after_requests rs (insert_bp ram a s) at spots' k'
  after_requests (removes a ∷ rs) s (spot, at) spots k =
      let (k', spots') = remove_bp-IsPatched a s spots k in
      after_requests rs (remove_bp ram a s) at spots' k'

  first_removed :
      (b : ℕ × ℕ) (bs : List (ℕ × ℕ)) (s : Server (List ℕ))
      → s.breakpoints ≡ b ∷ bs
      → Saved program (b ∷ bs)
      → (remove_bp ram b.0 s).breakpoints ≡ bs
  first_removed b bs s e k =
      let (found, rest) = erase-first b bs program k in
      remove_bp-erase b.0 b.1 s (ap (lookup b.0) e ∙ found) ∙ ap (erase b.0) e ∙ rest

  -- Taking off the breakpoints that are left, first to last.
  after_clearing :
      (bs : List (ℕ × ℕ)) (s : Server (List ℕ))
      → s.breakpoints ≡ bs
      → IsPatched program s
      → AllSpots Spot s.breakpoints
      → (port_of (cleared bs s)).bus ≡ program
  unfolding cleared Free
  after_clearing [] s e k spots = list_ext (port_of s).bus program k.size λ j l. k.same j (rw e tt)
  after_clearing (b ∷ bs) s e k spots =
      let (k', spots') = remove_bp-IsPatched b.0 s spots k in
      after_clearing bs (remove_bp ram b.0 s)
        (first_removed b bs s e (subst (Saved program) e k.saved)) k' spots'

  -- From a server without breakpoints, whatever breakpoints are set and removed, in any order and
  -- any number of times, at words that lie in the program and are equal or do not meet: every
  -- byte that no breakpoint covers stays the program's, and once the breakpoints that are left
  -- have been removed, first to last, the memory is the program again.
  pub cleared-requested :
      (rs : List Request) (s : Server (List ℕ))
      → AllAt Spot rs
      → IsRamPort (port_of s)
      → s.breakpoints ≡ []
      → (port_of s).bus ≡ program
      → let t = requested rs s in
        ((j : ℕ) → Free j t.breakpoints → get_or (port_of t).bus j 0 ≡ get_or program j 0)
        × ((port_of (cleared t.breakpoints t)).bus ≡ program)
  unfolding Saved AllSpots
  cleared-requested rs s at port e m =
      let none : IsPatched program s = record {
        port = port;
        size = ap length m;
        saved = rw e tt;
        same = λ j f. ap (λ p. get_or p j 0) m;
      } in
      let (k, spots) = after_requests rs s at (rw e tt) none in
      (k.same, after_clearing (requested rs s).breakpoints (requested rs s) refl k spots)
