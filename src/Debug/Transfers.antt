-- ===== src/Debug/Transfers.antt =====
-- What the debugger writes to memory it reads back: `handle_write_mem` and `handle_read_mem` of
-- src/debug/gdb_server.cpp, with the RAM alone behind the core's port.
use virtual_so_c.Prelude.{
  ℕ, suc, ◌+◌, ◌^◌, ◌<◌, ◌≤◌, List, [], ◌∷◌, ◌++◌, true, false, some, ◌==◌, u8, u32, ◌&&&◌, take,
  drop, length, get_or, ◌≡◌, refl, sym, ap, ◌∙◌, arith,
}
use mathlib.Core.Path.{subst}
use mathlib.Core.List.{append_assoc}
use virtual_so_c.Prelude.Bits.{bit_and_mask}
use virtual_so_c.Tlm.{load_le, store_le}
use virtual_so_c.Cpu.Iss.Port.{Port, bus_read, bus_write}
use virtual_so_c.Mem.Ram.{put, fetch, length-put, fetch-put}
use virtual_so_c.Mem.Blocks.{put-none, put-append, take-append}
use virtual_so_c.Mem.Host.{ram, fetch-next}
use virtual_so_c.Debug.Hex.{hex_byte}
use virtual_so_c.Debug.Digits.{stoul-hex_byte}
use virtual_so_c.Debug.Packet.{Lacks}
use virtual_so_c.Debug.Server.{
  Server, ok_text, find, number, port_of, with_port, read_bytes, write_bytes, handle_read_mem,
  handle_write_mem,
}
use virtual_so_c.Debug.Memory.{IsRamPort, bus_read-fetch, bus_write-put}

-- The digits of bytes.
unfoldable pub print_bytes : List ℕ → List ℕ
print_bytes [] = []
print_bytes (b ∷ bs) = hex_byte b ++ print_bytes bs

unfoldable pub AllBytes : List ℕ → Type 0
AllBytes [] = Unit
AllBytes (b ∷ bs) = (b < 256) × AllBytes bs

find-append :
    (mark : ℕ) (pre post : List ℕ)
    → Lacks mark pre
    → find mark (pre ++ mark ∷ post) ≡ some (length pre)
unfolding find Lacks
find-append mark [] post k = let here : (mark == mark) ≡ true = ground arith in rw here refl
find-append mark (c ∷ cs) post (ne, k) =
    let other : (c == mark) ≡ false = ground (arith, ne) in
    rw (other, find-append mark cs post k) refl

after_mark : (mark : ℕ) (pre post : List ℕ) → drop (length pre + 1) (pre ++ mark ∷ post) ≡ post
after_mark mark [] post = refl
after_mark mark (c ∷ cs) post =
    let on : suc (length cs) + 1 ≡ suc (length cs + 1) = omega arith in
    rw on (after_mark mark cs post)

write_bytes-next :
    (a b : ℕ) (cs : List ℕ) (p : Port (List ℕ))
    → b < 256
    → write_bytes ram a (hex_byte b ++ cs) p
      ≡ write_bytes ram (u32 (a + 1)) cs (bus_write ram a (u8 b) 1 p)
unfolding hex_byte write_bytes
write_bytes-next a b cs p l = rw (write_bytes, stoul-hex_byte b l) refl

one_byte : (b : ℕ) → b < 256 → store_le 1 (u8 b) ≡ b ∷ []
unfolding store_le
one_byte b l = ap (λ x. x ∷ []) (omega arith)

write_bytes-put :
    (bs : List ℕ) (a : ℕ) (p : Port (List ℕ))
    → AllBytes bs
    → a + length bs ≤ length p.bus
    → IsRamPort p
    → (q : Port (List ℕ)) × (write_bytes ram a (print_bytes bs) p ≡ some q)
      × (q.bus ≡ put p.bus a bs)
      × IsRamPort q
unfolding print_bytes AllBytes write_bytes
write_bytes-put [] a p k f r = (p, refl, sym (put-none p.bus a), r)
write_bytes-put (b ∷ bs) a p (k, ks) f r =
    let w = bus_write-put a (u8 b) 1 p (omega arith) (omega arith) (omega arith) r in
    let p' : Port (List ℕ) = bus_write ram a (u8 b) 1 p in
    let once : p'.bus ≡ put p.bus a (b ∷ []) = w.0 ∙ ap (put p.bus a) (one_byte b k) in
    let size : length p'.bus ≡ length p.bus = ap length once ∙ length-put p.bus a (b ∷ []) in
    let small : length p.bus < 2 ^ 32 = r.valid.1 in
    let on : u32 (a + 1) ≡ a + 1 = omega (arith, f, small) in
    let (q, e, m, v) = write_bytes-put bs (a + 1) p' ks (omega (arith, size, f)) w.1 in
    (
      q,
      write_bytes-next a b (print_bytes bs) p k
          ∙ ap (λ x. write_bytes ram x (print_bytes bs) p') on
          ∙ e,
      m ∙ ap (λ t. put t (a + 1) bs) once ∙ put-append p.bus a (b ∷ []) bs,
      v,
    )

load_one : (b : ℕ) → load_le 1 (b ∷ []) ≡ b
unfolding load_le
load_one b = omega arith

read_bytes-next :
    (a n b : ℕ) (p : Port (List ℕ))
    → b < 256
    → u32 (a + 1) ≡ suc a
    → (bus_read ram a 1 p).0 ≡ b
    → read_bytes ram a (suc n) p ≡ (
      hex_byte b ++ (read_bytes ram (suc a) n (bus_read ram a 1 p).1).0,
      (read_bytes ram (suc a) n (bus_read ram a 1 p).1).1,
    )
unfolding read_bytes
read_bytes-next a n b p l on word =
    let rest : ℕ → List ℕ × Port (List ℕ) = λ x. read_bytes ram x n (bus_read ram a 1 p).1 in
    let byte : ((bus_read ram a 1 p).0 &&& 0xFF) ≡ b =
      bit_and_mask 8 (bus_read ram a 1 p).0 ∙ omega (arith, word, l) in
    ap (λ x. (hex_byte ((bus_read ram a 1 p).0 &&& 0xFF) ++ (rest x).0, (rest x).1)) on
    ∙ ap (λ y. (hex_byte y ++ (rest (suc a)).0, (rest (suc a)).1)) byte

read_bytes-fetch :
    (bs : List ℕ) (a : ℕ) (p : Port (List ℕ))
    → AllBytes bs
    → a + length bs ≤ length p.bus
    → IsRamPort p
    → fetch p.bus a (length bs) ≡ bs
    → let r = read_bytes ram a (length bs) p in
      (r.0 ≡ print_bytes bs) × (r.1.bus ≡ p.bus) × IsRamPort r.1
unfolding print_bytes AllBytes read_bytes
read_bytes-fetch [] a p k f r e = (refl, refl, r)
read_bytes-fetch (b ∷ bs) a p (k, ks) f r e =
    let small : length p.bus < 2 ^ 32 = r.valid.1 in
    let on : u32 (a + 1) ≡ suc a = omega (arith, f, small) in
    let here : a < length p.bus = omega arith in
    let p' : Port (List ℕ) = (bus_read ram a 1 p).1 in
    let first = bus_read-fetch a 1 p (omega arith) (omega arith) (omega arith) r in
    let split : get_or p.bus a 0 ∷ fetch p.bus (suc a) (length bs) ≡ b ∷ bs =
      sym (fetch-next p.bus a (length bs) here) ∙ e in
    let head : get_or p.bus a 0 ≡ b = ap (λ t. get_or t 0 0) split in
    let tail : fetch p'.bus (suc a) (length bs) ≡ bs =
      ap (λ m. fetch m (suc a) (length bs)) first.1 ∙ ap (drop 1) split in
    let word : (bus_read ram a 1 p).0 ≡ b =
      first.0 ∙ ap (load_le 1) (fetch-next p.bus a 0 here) ∙ load_one (get_or p.bus a 0) ∙ head in
    let next = read_bytes-next a (length bs) b p k on word in
    let (digits, kept, v) =
      read_bytes-fetch bs (suc a) p' ks (omega (arith, ap length first.1, f)) first.2 tail in
    (
      ap (λ r. r.0) next ∙ ap (λ t. hex_byte b ++ t) digits,
      ap (λ r. r.1.bus) next ∙ kept ∙ first.1,
      subst (λ r. IsRamPort r.1) (sym next) v,
    )

Lacks-append : (mark : ℕ) (xs ys : List ℕ) → Lacks mark xs → Lacks mark ys → Lacks mark (xs ++ ys)
unfolding Lacks
Lacks-append mark [] ys k l = l
Lacks-append mark (x ∷ xs) ys (ne, k) l = (ne, Lacks-append mark xs ys k l)

handle_write_mem-parts :
    (s : Server (List ℕ)) (text at hex : List ℕ) (comma colon a : ℕ) (q : Port (List ℕ))
    → find 44 text ≡ some comma
    → find 58 text ≡ some colon
    → take comma text ≡ at
    → drop (colon + 1) text ≡ hex
    → number at ≡ some a
    → write_bytes ram a hex (port_of s) ≡ some q
    → handle_write_mem ram text s ≡ some (with_port q s, ok_text)
unfolding handle_write_mem
handle_write_mem-parts s text at hex comma colon a q c d t h n w =
    rw (handle_write_mem, c, d, t, h, n, w) refl

handle_read_mem-parts :
    (s : Server (List ℕ)) (text at len : List ℕ) (comma a n : ℕ)
    → find 44 text ≡ some comma
    → take comma text ≡ at
    → drop (comma + 1) text ≡ len
    → number at ≡ some a
    → number len ≡ some n
    → let r = read_bytes ram a n (port_of s) in
      handle_read_mem ram text s ≡ some (with_port r.1 s, r.0)
unfolding handle_read_mem
handle_read_mem-parts s text at len comma a n c t h k l = rw (handle_read_mem, c, t, h, k, l) refl

-- Where `at` and `len` are texts of the address `a` and of the number of `bs`, without the marks
-- that end them, and the range lies in the RAM: the request to write the digits of the bytes `bs`
-- there is accepted and leaves the RAM with them and nothing else changed, and the request to
-- read that range is then answered with the same digits, and leaves the RAM as it is.
pub handle_read_mem-handle_write_mem :
    (s : Server (List ℕ)) (bs at len : List ℕ) (a : ℕ)
    → number at ≡ some a
    → number len ≡ some (length bs)
    → Lacks 44 at
    → Lacks 58 at
    → Lacks 58 len
    → AllBytes bs
    → a + length bs ≤ length (port_of s).bus
    → IsRamPort (port_of s)
    → let request : List ℕ = at ++ 44 ∷ len in
      (p : Port (List ℕ)) × (q : Port (List ℕ)) × (handle_write_mem ram
          (request ++ 58 ∷ print_bytes bs)
          s
        ≡ some (with_port p s, ok_text))
      × (p.bus ≡ put (port_of s).bus a bs)
      × (handle_read_mem ram request (with_port p s) ≡ some (with_port q s, print_bytes bs))
      × (q.bus ≡ p.bus)
unfolding Lacks
handle_read_mem-handle_write_mem s bs at len a n m c d e k f r =
    let request : List ℕ = at ++ 44 ∷ len in
    let text : List ℕ = request ++ 58 ∷ print_bytes bs in
    let tail : List ℕ = len ++ 58 ∷ print_bytes bs in
    let split : text ≡ at ++ 44 ∷ tail = append_assoc at (44 ∷ len) (58 ∷ print_bytes bs) in
    let comma : find 44 text ≡ some (length at) = ap (find 44) split ∙ find-append 44 at tail c in
    let before : take (length at) text ≡ at =
      ap (take (length at)) split ∙ take-append (length at) at (44 ∷ tail) refl in
    let colon : find 58 text ≡ some (length request) =
      find-append 58 request (print_bytes bs)
        (Lacks-append 58 at (44 ∷ len) d ((λ h. absurd (omega (arith, h))), e)) in
    let (p, w, bus, v) = write_bytes-put bs a (port_of s) k f r in
    let size : length p.bus ≡ length (port_of s).bus =
      ap length bus ∙ length-put (port_of s).bus a bs in
    let held : fetch p.bus a (length bs) ≡ bs =
      ap (λ t. fetch t a (length bs)) bus ∙ fetch-put (port_of s).bus a bs f in
    let (digits, kept, _) = read_bytes-fetch bs a p k (omega (arith, size, f)) v held in
    let q : Port (List ℕ) = (read_bytes ram a (length bs) p).1 in
    (
      p,
      q,
      handle_write_mem-parts s text at (print_bytes bs) (length at) (length request) a p comma colon
          before (after_mark 58 request (print_bytes bs)) n w,
      bus,
      handle_read_mem-parts (with_port p s) request at len (length at) a (length bs)
            (find-append 44 at len c) (take-append (length at) at (44 ∷ len) refl)
            (after_mark 44 at len) n m
          ∙ ap (λ t. some (with_port q s, t)) digits,
      kept,
    )
