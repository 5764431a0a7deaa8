-- ===== src/Mem/Host.antt =====
-- Direct access to the RAM: `get_direct_mem_ptr` of src/mem/memory.cpp. A pointer into the host's
-- memory is an index of `mem_`.
use virtual_so_c.Prelude.{
  ℕ, zero, suc, ◌+◌, ◌-◌, ◌*◌, ◌/◌, ◌^◌, ◌<◌, ◌≤◌, List, [], ◌∷◌, ◌++◌, true, false, Option, some,
  ltb, u32, replicate, take, drop, length, get_or, ◌≡◌, refl, arith, ap, ◌∙◌, sym, if-ind,
}
use mathlib.Core.Path.{subst}
use mathlib.Core.Option.{some-injective}
use virtual_so_c.Tlm.{Payload, load_le, store_le}
use virtual_so_c.Bus.Router.{Dmi}
use virtual_so_c.Cpu.Iss.Port.{Socket, within, host_bytes, host_copy}
use virtual_so_c.Cpu.Iss.Direct.{IsAccess, IsHonest, IsDirect, read_of, write_of}
use virtual_so_c.Mem.Ram.{put, fetch, b_transport, length-put, in_bounds}
use virtual_so_c.Mem.Blocks.{put-none, take-append, length-fetch}

unfoldable pub get_direct_mem_ptr : List ℕ → ℕ → Option Dmi
get_direct_mem_ptr mem addr =
    some (record { dmi_ptr = 0; start_address = 0; end_address = u32 (length mem + (2 ^ 32 - 1)) })

-- The RAM alone behind the core's socket.
abbrev pub ram : Socket (List ℕ)
ram = record {
  b_transport = b_transport;
  get_direct_mem_ptr = get_direct_mem_ptr;
  host_read = λ mem at. get_or mem at 0;
  host_write = λ mem at x. put mem at (x ∷ []);
  lines = λ mem h. h;
}

-- A RAM that is not empty and whose size is a 32-bit word.
abbrev pub Sized : List ℕ → Type 0
Sized mem = (0 < length mem) × (length mem < 2 ^ 32)

pub fetch-next :
    (mem : List ℕ) (at n : ℕ)
    → at < length mem
    → fetch mem at (suc n) ≡ get_or mem at 0 ∷ fetch mem (suc at) n
fetch-next [] at n h = absurd (omega arith)
fetch-next (x ∷ xs) zero n h = refl
fetch-next (x ∷ xs) (suc at) n h = fetch-next xs at n (omega arith)

host_bytes-fetch :
    (mem : List ℕ) (at n : ℕ) → at + n ≤ length mem → host_bytes ram mem at n ≡ fetch mem at n
unfolding host_bytes
host_bytes-fetch mem at zero h = refl
host_bytes-fetch mem at (suc n) h =
    let next : at + 1 ≡ suc at = omega arith in
    rw next (ap (λ t. get_or mem at 0 ∷ t) (host_bytes-fetch mem (suc at) n (omega arith)))
    ∙ sym (fetch-next mem at n (omega arith))

put-put :
    (mem : List ℕ) (at x : ℕ) (xs : List ℕ)
    → put (put mem at (x ∷ [])) (suc at) xs ≡ put mem at (x ∷ xs)
unfolding put
put-put [] at x xs = refl
put-put (y ∷ ys) zero x xs = ap (λ t. x ∷ put t zero xs) (put-none ys zero)
put-put (y ∷ ys) (suc at) x xs = ap (λ t. y ∷ t) (put-put ys at x xs)

pub host_copy-put : (mem : List ℕ) (at : ℕ) (xs : List ℕ) → host_copy ram mem at xs ≡ put mem at xs
unfolding host_copy
host_copy-put mem at [] = sym (put-none mem at)
host_copy-put mem at (x ∷ xs) =
    let next : at + 1 ≡ suc at = omega arith in
    rw next (host_copy-put (put mem at (x ∷ [])) (suc at) xs) ∙ put-put mem at x xs

pub load_le-append : (n : ℕ) (xs ys : List ℕ) → length xs ≡ n → load_le n (xs ++ ys) ≡ load_le n xs
unfolding load_le
load_le-append zero xs ys h = refl
load_le-append (suc n) [] ys h = absurd (omega arith)
load_le-append (suc n) (x ∷ xs) ys h =
    ap (λ v. x + v * 2 ^ 8) (load_le-append n xs ys (omega arith))

pub length-store_le : (n v : ℕ) → length (store_le n v) ≡ n
unfolding store_le
length-store_le zero v = refl
length-store_le (suc n) v = ap suc (length-store_le n (v / 2 ^ 8))

last-byte :
    (mem : List ℕ) (a n : ℕ)
    → Sized mem
    → IsAccess a n
    → within 0 (u32 (length mem + (2 ^ 32 - 1))) a n ≡ true
    → a + n ≤ length mem
last-byte mem a n s i w =
    let size : u32 (length mem + (2 ^ 32 - 1)) ≡ length mem - 1 = omega (arith, s.0, s.1) in
    let one : 1 ≤ n = i.some_byte in let top : a + n ≤ 2 ^ 32 = i.no_wrap in ground (arith, size, w)

-- Transactions of the core with the RAM.
pub read_of-keeps : (a n : ℕ) (mem : List ℕ) → (read_of ram a n mem).0 ≡ mem
unfolding b_transport
read_of-keeps a n mem =
    if-ind (λ (r : List ℕ × Payload). r.0 ≡ mem) (ltb (length mem) (u32 (u32 a + n))) (mem, _)
      (mem, _) refl refl

pub length-write_of : (a v n : ℕ) (mem : List ℕ) → length (write_of ram a v n mem).0 ≡ length mem
unfolding b_transport
length-write_of a v n mem =
    let bs : List ℕ = take n (store_le n v ++ drop n (replicate 4 0)) in
    if-ind (λ (r : List ℕ × Payload). length r.0 ≡ length mem) (ltb (length mem) (u32 (u32 a + n)))
      (mem, _) (put mem (u32 a) bs, _) refl (length-put mem (u32 a) bs)

module _ (mem : List ℕ) (a n : ℕ) (fits : a + n ≤ length mem) (size : length mem < 2 ^ 32) where
  here : u32 a ≡ a
  here = omega arith

  accepted : ltb (length mem) (u32 (u32 a + n)) ≡ false
  accepted = in_bounds mem a n (omega arith) fits

  pub read_of-bytes : (read_of ram a n mem).1.bytes ≡ fetch mem a n ++ drop n (replicate 4 0)
  unfolding b_transport
  read_of-bytes = rw (accepted, here) refl

  pub write_of-put : (v : ℕ) → (write_of ram a v n mem).0 ≡ put mem a (store_le n v)
  unfolding b_transport
  write_of-put v =
      rw
        (
          accepted,
          here,
          take-append n (store_le n v) (drop n (replicate 4 0)) (length-store_le n v),
        )
        refl

-- The whole RAM is honest about its own bytes.
ram-IsHonest : (mem : List ℕ) → Sized mem → IsHonest ram mem 0 0 (u32 (length mem + (2 ^ 32 - 1)))
ram-IsHonest mem s = record {
  read_keeps = λ a n i w. read_of-keeps a n mem;
  read-bytes = λ a n i w.
      let fits : a + n ≤ length mem = last-byte mem a n s i w in
      let from : 0 + (a - 0) ≡ a = omega arith in
      let size : length (fetch mem a n) ≡ n = length-fetch mem a n fits in
      rw (from, host_bytes-fetch mem a n fits, read_of-bytes mem a n fits s.1)
        (sym (load_le-append n (fetch mem a n) (drop n (replicate 4 0)) size));
  write-bytes = λ a v n i w.
      let fits : a + n ≤ length mem = last-byte mem a n s i w in
      let from : 0 + (a - 0) ≡ a = omega arith in
      rw (from, write_of-put mem a n fits s.1 v) (host_copy-put mem a (store_le n v));
}

pub ram-IsDirect : IsDirect ram Sized
unfolding get_direct_mem_ptr
ram-IsDirect = record {
  grants = λ a mem d s g.
      subst (λ e. IsHonest ram mem e.dmi_ptr e.start_address e.end_address) (some-injective _ d g)
        (ram-IsHonest mem s);
  read-Valid = λ a n mem s. subst Sized (sym (read_of-keeps a n mem)) s;
  write-Valid = λ a v n mem s.
      let l : length (write_of ram a v n mem).0 ≡ length mem = length-write_of a v n mem in rw l s;
  read_granted = λ a n x mem s. ap (λ m. get_direct_mem_ptr m x) (read_of-keeps a n mem);
  write_granted = λ a v n x mem s. rw (length-write_of a v n mem) refl;
}
