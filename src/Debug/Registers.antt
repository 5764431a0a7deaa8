-- ===== src/Debug/Registers.antt =====
-- The registers are written back as they were read: `handle_read_regs` and `handle_write_regs` of
-- src/debug/gdb_server.cpp.
use virtual_so_c.Prelude.{
  ℕ, zero, suc, ◌+◌, ◌*◌, ◌^◌, ◌<◌, List, [], ◌∷◌, ◌++◌, true, some, leb, length, set,
  length-append, ◌≡◌, refl, sym, ap, ◌∙◌, arith,
}
use mathlib.Core.List.{append_assoc, append-nil}
use virtual_so_c.Mem.Ram.{put}
use virtual_so_c.Mem.Blocks.{put-none}
use virtual_so_c.Cpu.State.{CpuState}
use virtual_so_c.Debug.Hex.{to_hex32_le, from_hex32_le}
use virtual_so_c.Debug.Digits.{length-to_hex32_le, from_hex32_le-to_hex32_le}
use virtual_so_c.Debug.Server.{
  Server, ok_text, print_regs, read_regs, read_pc, with_state, handle_read_regs, handle_write_regs,
}

-- Every register is a word.
unfoldable pub AllWords : List ℕ → Type 0
AllWords [] = Unit
AllWords (r ∷ rs) = (r < 2 ^ 32) × AllWords rs

put-set : (old : List ℕ) (i v : ℕ) (rs : List ℕ) → put (set old i v) (i + 1) rs ≡ put old i (v ∷ rs)
unfolding put
put-set [] i v rs = refl
put-set (x ∷ xs) zero v rs = refl
put-set (x ∷ xs) (suc i) v rs =
    let on : suc i + 1 ≡ suc (i + 1) = omega arith in rw on (ap (λ t. x ∷ t) (put-set xs i v rs))

put_whole : (old rs : List ℕ) → length old ≡ length rs → put old 0 rs ≡ rs
unfolding put
put_whole [] [] h = refl
put_whole [] (r ∷ rs) h = absurd (omega arith)
put_whole (x ∷ xs) [] h = absurd (omega arith)
put_whole (x ∷ xs) (r ∷ rs) h = ap (λ t. r ∷ t) (put_whole xs rs (omega arith))

length-print_regs : (rs : List ℕ) → length (print_regs rs) ≡ 8 * length rs
unfolding print_regs
length-print_regs [] = omega arith
length-print_regs (r ∷ rs) = omega (
  arith,
  length-append (to_hex32_le r) (print_regs rs),
  length-to_hex32_le r,
  length-print_regs rs,
)

read_regs-next :
    (n i v : ℕ) (text regs : List ℕ)
    → leb (i * 8 + 8) (length text) ≡ true
    → from_hex32_le text (i * 8) ≡ some v
    → read_regs (suc n) i text regs ≡ read_regs n (i + 1) text (set regs i v)
unfolding read_regs
read_regs-next n i v text regs room word = rw (read_regs, room, word) refl

-- The loop over the digits of the registers `rs`, with `pre` before them and `post` after.
read_regs-print_regs :
    (rs : List ℕ) (i : ℕ) (text pre post old : List ℕ)
    → AllWords rs
    → text ≡ pre ++ (print_regs rs ++ post)
    → length pre ≡ i * 8
    → read_regs (length rs) i text old ≡ some (put old i rs)
unfolding read_regs print_regs AllWords
read_regs-print_regs [] i text pre post old k e l = ap some (sym (put-none old i))
read_regs-print_regs (r ∷ rs) i text pre post old (k, ks) e l =
    let digits : List ℕ = to_hex32_le r in
    let rest : List ℕ = print_regs rs ++ post in
    let split : text ≡ pre ++ (digits ++ rest) =
      e ∙ ap (λ t. pre ++ t) (append_assoc digits (print_regs rs) post) in
    let long : length text ≡ i * 8 + (8 + length rest) =
      ap length split
      ∙ omega (
        arith,
        length-append pre (digits ++ rest),
        length-append digits rest,
        length-to_hex32_le r,
        l,
      ) in
    let room : leb (i * 8 + 8) (length text) ≡ true = ground (arith, long) in
    let word : from_hex32_le text (i * 8) ≡ some r =
      ap (λ t. from_hex32_le t (i * 8)) split ∙ from_hex32_le-to_hex32_le pre rest r (i * 8) k l in
    read_regs-next (length rs) i r text old room word
    ∙ (read_regs-print_regs rs (i + 1) text (pre ++ digits) post (set old i r) ks
          (split ∙ sym (append_assoc pre digits rest))
          (omega (arith, length-append pre digits, length-to_hex32_le r, l))
        ∙ ap some (put-set old i r rs))

-- What reads as the registers.
abbrev pub printed : CpuState → List ℕ
printed c = print_regs c.regs ++ to_hex32_le c.pc

module _ {B : Type 0} where
  -- With 32 registers and a program counter that are words, the answer to `g` is a text that,
  -- given back with `G` to a server in any state with 32 registers, is accepted and restores them
  -- all, with register 0 set to 0, and the program counter; nothing else of the server changes.
  pub handle_write_regs-handle_read_regs :
      (s t : Server B)
      → length s.iss.state.regs ≡ 32
      → length t.iss.state.regs ≡ 32
      → AllWords s.iss.state.regs
      → s.iss.state.pc < 2 ^ 32
      → (text : List ℕ) × (handle_read_regs s ≡ some (s, text))
        × (handle_write_regs text t
            ≡ some (
              with_state
                  (record (t.iss.state) { regs = set s.iss.state.regs 0 0; pc = s.iss.state.pc })
                  t,
              ok_text,
            ))
  unfolding handle_read_regs handle_write_regs read_pc
  handle_write_regs-handle_read_regs s t n m k p =
      let regs : List ℕ = s.iss.state.regs in
      let pc : ℕ = s.iss.state.pc in
      let text : List ℕ = printed s.iss.state in
      let all : read_regs 32 0 text t.iss.state.regs ≡ some regs =
        ap (λ c. read_regs c 0 text t.iss.state.regs) (sym n)
        ∙ read_regs-print_regs regs 0 text [] (to_hex32_le pc) t.iss.state.regs k refl refl
        ∙ ap some (put_whole t.iss.state.regs regs (m ∙ sym n)) in
      let long : length text ≡ 33 * 8 = omega (
        arith,
        length-append (print_regs regs) (to_hex32_le pc),
        length-print_regs regs,
        length-to_hex32_le pc,
        n,
      ) in
      let room : leb (33 * 8) (length text) ≡ true = ground (arith, long) in
      let counter : from_hex32_le text (32 * 8) ≡ some pc =
        ap (λ d. from_hex32_le (print_regs regs ++ d) (32 * 8)) (sym (append-nil (to_hex32_le pc)))
        ∙ from_hex32_le-to_hex32_le (print_regs regs) [] pc (32 * 8) p
            (omega (arith, length-print_regs regs, n)) in
      (text, refl, rw (all, room, counter) refl)
