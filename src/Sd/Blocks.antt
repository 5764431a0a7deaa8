-- ===== src/Sd/Blocks.antt =====
-- What a transfer of the SD controller does to the RAM behind the bus.
use virtual_so_c.Prelude.{
  ℕ, zero, suc, ◌+◌, ◌*◌, ◌^◌, ◌<◌, ◌≤◌, List, [], ◌++◌, true, some, u32, length, take, ◌≡◌, refl,
  arith, ap, ◌∙◌, sym,
}
use mathlib.Core.List.{append-nil}
use virtual_so_c.Mem.Ram.{put, b_transport, length-put}
use virtual_so_c.Mem.Blocks.{put-none, put-append, take-append}
use virtual_so_c.Dma.Copies.{write_inside}
use virtual_so_c.Sd.{read_blocks}

module _ (card : ℕ → List ℕ) (sized : (block : ℕ) → length (card block) ≡ 512) where
  -- The bytes of `n` blocks in a row.
  unfoldable pub image : ℕ → ℕ → List ℕ
  image block zero = []
  image block (suc n) = card block ++ image (u32 (block + 1)) n

  whole : (block : ℕ) → take 512 (card block) ≡ card block
  whole block =
      ap (take 512) (sym (append-nil (card block))) ∙ take-append 512 (card block) [] (sized block)

  -- With a card whose blocks all read, as 512 bytes each, and a RAM behind the bus, a transfer of
  -- `n` blocks to a range that fits in the RAM and does not wrap in 32 bits succeeds, and leaves
  -- the RAM with the blocks in a row at the destination and nothing else changed.
  pub read_blocks-put :
      (n block dest : ℕ) (mem : List ℕ)
      → dest + 512 * n < 2 ^ 32
      → dest + 512 * n ≤ length mem
      → read_blocks b_transport (λ k. some (card k)) n block dest mem
        ≡ (put mem dest (image block n), true)
  unfolding read_blocks image
  read_blocks-put zero block dest mem t f = rw (put-none mem dest) refl
  read_blocks-put (suc n) block dest mem t f =
      let once : List ℕ = put mem dest (card block) in
      let kept : length once ≡ length mem = length-put mem dest (card block) in
      let on : u32 (dest + 512) ≡ dest + 512 = omega (arith, t) in
      let rest : List ℕ = image (u32 (block + 1)) n in
      rw
        (
          write_inside mem dest 512 (card block) (omega (arith, t)) (omega (arith, f)),
          whole block,
          on,
        )
        (read_blocks-put n (u32 (block + 1)) (dest + 512) once (omega (arith, t))
            (omega (arith, f, kept))
          ∙ ap (λ m. (m, true))
              (ap (λ k. put once (dest + k) rest) (sym (sized block))
                ∙ put-append mem dest (card block) rest))
