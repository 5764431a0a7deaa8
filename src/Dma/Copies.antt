-- ===== src/Dma/Copies.antt =====
-- What a transfer of the DMA engine does to the RAM behind the bus.
use virtual_so_c.Prelude.{
  ℕ, zero, suc, ◌+◌, ◌-◌, ◌^◌, ◌<◌, ◌≤◌, List, ◌++◌, true, false, some, ◌==◌, u32, length, take,
  drop, ◌≡◌, refl, arith, ap, ◌∙◌, sym, ◌⊎◌, inl, inr, Bool-cases,
}
use virtual_so_c.Tlm.{Command, Response}
use virtual_so_c.Mem.Ram.{put, fetch, b_transport, in_bounds, length-put}
use virtual_so_c.Mem.Blocks.{
  put-none, put-append, fetch-append, fetch-put_apart, take-append, length-fetch,
}
use virtual_so_c.Dma.{burst, chunk_of, request}

-- A transaction inside the RAM.
module _ (mem : List ℕ) (at n : ℕ) (buf : List ℕ) (top : at + n < 2 ^ 32)
    (fits : at + n ≤ length mem) where
  here : u32 at ≡ at
  here = omega arith

  read_inside : b_transport mem (request Command.read_command at n buf) ≡ (
    mem,
    record (request Command.read_command at n buf) {
      bytes = fetch mem at n ++ drop n buf;
      status = Response.ok_response;
    },
  )
  unfolding b_transport
  read_inside = rw (in_bounds mem at n top fits, here) refl

  pub write_inside : b_transport mem (request Command.write_command at n buf) ≡ (
    put mem at (take n buf),
    record (request Command.write_command at n buf) { status = Response.ok_response },
  )
  unfolding b_transport
  write_inside = rw (in_bounds mem at n top fits, here) refl

-- One burst.
block_moved :
    (mem : List ℕ) (src dst c n : ℕ)
    → c ≤ n
    → src + n ≤ length mem
    → (src + n ≤ dst) ⊎ (dst + n ≤ src)
    → let once = put mem dst (fetch mem src c) in
      put once (dst + c) (fetch once (src + c) (n - c)) ≡ put mem dst (fetch mem src n)
block_moved mem src dst c n l f o =
    let bs : List ℕ = fetch mem src c in
    let size : length bs ≡ c = length-fetch mem src c (omega (arith, l, f)) in
    let apart : (src + c + (n - c) ≤ dst) ⊎ (dst + length bs ≤ src + c) =
      ground (arith, o, l, size) in
    let all : c + (n - c) ≡ n = omega (arith, l) in
    let later : fetch (put mem dst bs) (src + c) (n - c) ≡ fetch mem (src + c) (n - c) =
      fetch-put_apart mem dst (src + c) (n - c) bs apart in
    rw later (
      ap (λ k. put (put mem dst bs) (dst + k) (fetch mem (src + c) (n - c))) (sym size)
      ∙ put-append mem dst bs (fetch mem (src + c) (n - c))
      ∙ ap (put mem dst) (fetch-append mem src c (n - c))
      ∙ ap (λ k. put mem dst (fetch mem src k)) all)

-- The transfer of `n` bytes between parts of the RAM that do not meet.
module _ (fresh : List ℕ) where
  burst-chunk :
      (fuel n src dst : ℕ) (mem : List ℕ)
      → (n == 0) ≡ false
      → chunk_of n ≤ n
      → src + n < 2 ^ 32
      → dst + n < 2 ^ 32
      → src + n ≤ length mem
      → dst + n ≤ length mem
      → let c = chunk_of n in
        burst b_transport fresh (suc fuel) n src dst mem
        ≡ burst b_transport fresh fuel (n - c) (src + c) (dst + c) (put mem dst (fetch mem src c))
  unfolding burst
  burst-chunk fuel n src dst mem m l s d f g =
      let c : ℕ = chunk_of n in
      let block : List ℕ = fetch mem src c in
      let size : length block ≡ c = length-fetch mem src c (omega arith) in
      let bytes : take c (block ++ drop c fresh) ≡ block =
        take-append c block (drop c fresh) size in
      let src_on : u32 (src + c) ≡ src + c = omega arith in
      let dst_on : u32 (dst + c) ≡ dst + c = omega arith in
      let left : u32 (n + (2 ^ 32 - c)) ≡ n - c = omega arith in
      rw
        (
          m,
          read_inside mem src c fresh (omega arith) (omega arith),
          write_inside mem dst c (block ++ drop c fresh) (omega arith) (omega arith),
          bytes,
          src_on,
          dst_on,
          left,
        )
        refl

  burst_nothing :
      (fuel n src dst : ℕ) (mem : List ℕ)
      → (n == 0) ≡ true
      → burst b_transport fresh fuel n src dst mem ≡ some (put mem dst (fetch mem src n), true)
  unfolding burst
  burst_nothing zero n src dst mem y =
      let z : n ≡ 0 = ground (arith, y) in rw (y, z, put-none mem dst) refl
  burst_nothing (suc fuel) n src dst mem y =
      let z : n ≡ 0 = ground (arith, y) in rw (y, z, put-none mem dst) refl

  -- With a RAM behind the bus, a transfer of `n` bytes between ranges that fit in it, do not wrap
  -- in 32 bits and do not meet succeeds, and leaves the RAM with the source's bytes at the
  -- destination and nothing else changed.
  pub burst-put :
      (fuel n src dst : ℕ) (mem : List ℕ)
      → n ≤ fuel
      → src + n < 2 ^ 32
      → dst + n < 2 ^ 32
      → src + n ≤ length mem
      → dst + n ≤ length mem
      → (src + n ≤ dst) ⊎ (dst + n ≤ src)
      → burst b_transport fresh fuel n src dst mem ≡ some (put mem dst (fetch mem src n), true)
  burst-put zero n src dst mem h s d f g o = burst_nothing zero n src dst mem (ground (arith, h))
  burst-put (suc fuel) n src dst mem h s d f g o = elim (Bool-cases (n == 0)) [
    | inl y ↦ burst_nothing (suc fuel) n src dst mem y
    | inr m ↦
        (let c : ℕ = chunk_of n in
          let le : c ≤ n = ground arith in
          let less : n - c ≤ fuel = ground (arith, h, m) in
          let once : List ℕ = put mem dst (fetch mem src c) in
          let kept : length once ≡ length mem = length-put mem dst (fetch mem src c) in
          burst-chunk fuel n src dst mem m le s d f g
          ∙ burst-put fuel (n - c) (src + c) (dst + c) once less (omega arith) (omega arith)
              (omega (arith, kept)) (omega (arith, kept)) (ground (arith, o, le))
          ∙ ap (λ t. some (t, true)) (block_moved mem src dst c n le f o))
  ]
