-- ===== src/Mem/Ram.antt =====
-- The RAM: src/mem/memory.h and src/mem/memory.cpp, without direct memory access. The bytes are
-- `mem_`, whose length is `size_`; the report of an access out of bounds is not modelled.
use virtual_so_c.Prelude.{
  ℕ, zero, suc, ◌+◌, ◌^◌, ◌<◌, ◌≤◌, List, [], ◌∷◌, ◌++◌, ltb, if◌then◌else◌, u32, length, get_or,
  take, drop, ◌≡◌, refl, ap, arith, ◌⊎◌, false,
}
use virtual_so_c.Tlm.{Command, Response, Payload}

-- `memcpy` into the memory at `at`, and out of it.
unfoldable pub put : List ℕ → ℕ → List ℕ → List ℕ
put [] at bs = []
put (x ∷ xs) zero [] = x ∷ xs
put (x ∷ xs) zero (b ∷ bs) = b ∷ put xs zero bs
put (x ∷ xs) (suc at) bs = x ∷ put xs at bs

abbrev pub fetch : List ℕ → ℕ → ℕ → List ℕ
fetch xs at n = take n (drop at xs)

unfoldable pub b_transport : List ℕ → Payload → List ℕ × Payload
b_transport mem p =
    let at = u32 p.address in
    if ltb (length mem) (u32 (at + p.length))
    then (mem, record p { status = Response.address_error })
    else elim (p.command) [
      | Command.read_command ↦ (
        mem,
        record p {
          bytes = fetch mem at p.length ++ drop p.length p.bytes;
          status = Response.ok_response;
        },
      )
      | Command.write_command ↦
          (put mem at (take p.length p.bytes), record p { status = Response.ok_response })
      | Command.ignore_command ↦ (mem, record p { status = Response.command_error })
    ]

pub length-put : (xs : List ℕ) (at : ℕ) (bs : List ℕ) → length (put xs at bs) ≡ length xs
unfolding put
length-put [] at bs = refl
length-put (x ∷ xs) zero [] = refl
length-put (x ∷ xs) zero (b ∷ bs) = ap suc (length-put xs zero bs)
length-put (x ∷ xs) (suc at) bs = ap suc (length-put xs at bs)

pub fetch-put :
    (xs : List ℕ) (at : ℕ) (bs : List ℕ)
    → at + length bs ≤ length xs
    → fetch (put xs at bs) at (length bs) ≡ bs
unfolding put
fetch-put [] zero [] h = refl
fetch-put [] zero (b ∷ bs) h = absurd (omega arith)
fetch-put [] (suc at) bs h = absurd (omega arith)
fetch-put (x ∷ xs) zero [] h = refl
fetch-put (x ∷ xs) zero (b ∷ bs) h = ap (λ t. b ∷ t) (fetch-put xs zero bs (omega arith))
fetch-put (x ∷ xs) (suc at) bs h = fetch-put xs at bs (omega arith)

pub length-take : (n : ℕ) (bs : List ℕ) → n ≤ length bs → length (take n bs) ≡ n
length-take zero bs h = refl
length-take (suc n) [] h = absurd (omega arith)
length-take (suc n) (b ∷ bs) h = omega (arith, length-take n bs (omega arith))

pub get_or-put :
    (xs : List ℕ) (at : ℕ) (bs : List ℕ) (j : ℕ)
    → (j < at) ⊎ (at + length bs ≤ j)
    → get_or (put xs at bs) j 0 ≡ get_or xs j 0
unfolding put
get_or-put [] at bs j h = refl
get_or-put (x ∷ xs) zero [] j h = refl
get_or-put (x ∷ xs) zero (b ∷ bs) zero h = absurd (omega arith)
get_or-put (x ∷ xs) zero (b ∷ bs) (suc j) h = get_or-put xs zero bs j (ground arith)
get_or-put (x ∷ xs) (suc at) bs zero h = refl
get_or-put (x ∷ xs) (suc at) bs (suc j) h = get_or-put xs at bs j (ground arith)

-- A transfer of `n` bytes at `at`.
abbrev pub transfer : Command → ℕ → ℕ → List ℕ → Payload
transfer c at n bs = record {
  command = c;
  address = at;
  bytes = bs;
  length = n;
  status = Response.incomplete;
}

pub in_bounds :
    (mem : List ℕ) (at n : ℕ)
    → at + n < 2 ^ 32
    → at + n ≤ length mem
    → ltb (length mem) (u32 (u32 at + n)) ≡ false
in_bounds mem at n w h =
    let same : u32 (u32 at + n) ≡ at + n = omega arith in rw same (ground arith)

-- A write of `n` bytes inside the RAM, at an address that does not wrap in 32 bits, is followed
-- by a read of the same range that returns those bytes and leaves the rest of the reader's
-- buffer; both succeed, the size of the RAM is kept, and so is each byte outside the range.
pub read-write :
    (mem bs old : List ℕ) (at n j : ℕ)
    → at + n < 2 ^ 32
    → at + n ≤ length mem
    → n ≤ length bs
    → (j < at) ⊎ (at + n ≤ j)
    → let written = b_transport mem (transfer Command.write_command at n bs) in
      let back = b_transport written.0 (transfer Command.read_command at n old) in
      (back.1.bytes ≡ take n bs ++ drop n old)
      × (written.1.status ≡ Response.ok_response)
      × (back.1.status ≡ Response.ok_response)
      × (length back.0 ≡ length mem)
      × (get_or back.0 j 0 ≡ get_or mem j 0)
unfolding b_transport
read-write mem bs old at n j w h b o =
    let image : List ℕ = take n bs in
    let size : length image ≡ n = length-take n bs b in
    let at_32 : u32 at ≡ at = omega arith in
    let first : ltb (length mem) (u32 (at + n)) ≡ false = rw at_32 at (in_bounds mem at n w h) in
    let kept : length (put mem at image) ≡ length mem = length-put mem at image in
    let whole : at + length image ≤ length mem = omega (arith, size) in
    let apart : (j < at) ⊎ (at + length image ≤ j) = rw size o in
    let read_back : fetch (put mem at image) at n ≡ image =
      rw size at (fetch-put mem at image whole) in
    rw (at_32, first, kept, first)
      (ap (λ t. t ++ drop n old) read_back, refl, refl, kept, get_or-put mem at image j apart)
