-- ===== src/Sd/Card.antt =====
-- The SD card: src/sd/sd_card_model.h and src/sd/sd_card_model.cpp. The stream `file_` is the bytes of
-- the image, none while it is not open, and its failbit. A read of fewer bytes than were asked for
-- sets the failbit, and `seekg` and `read` do nothing while it is set.
use virtual_so_c.Prelude.{
  ℕ, zero, suc, ◌+◌, ◌*◌, ◌^◌, ◌<◌, ◌≤◌, List, ◌++◌, Bool, true, false, Option, none, some, ltb,
  if◌then◌else◌, u32, length, take, ◌≡◌, refl, sym, ap, ◌∙◌, arith, [], ◌∷◌, leb, drop, map,
  Bool-cases, inl, inr,
}
use mathlib.Core.List.{append-nil}
use virtual_so_c.Mem.Ram.{put, fetch, b_transport, length-put}
use virtual_so_c.Mem.Blocks.{put-none, put-append, fetch-append, length-fetch, take-append}
use virtual_so_c.Dma.Copies.{write_inside}
use virtual_so_c.Sd.{read_blocks}

pub record SdCardModel : Type 0 where
  pub file : Option (List ℕ)
  pub fail : Bool

abbrev pub block_size : ℕ
block_size = 512

abbrev pub closed : SdCardModel
closed = record { file = none; fail = false }

-- The image at a path, none where it does not open; a stream that is open does not open again.
unfoldable pub open_image : Option (List ℕ) → SdCardModel → Bool × SdCardModel
open_image image c = elim (c.file) [
  | some bs ↦ (true, record c { fail = true })
  | none ↦ elim image [
    | none ↦ (false, record c { fail = true })
    | some bs ↦ (true, record { file = some bs; fail = false })
  ]
]

-- The block, none where the source returns false.
unfoldable pub read_block : ℕ → SdCardModel → Option (List ℕ) × SdCardModel
read_block block_addr c = elim (c.file) [
  | none ↦ (none, c)
  | some bs ↦
      if c.fail
      then (none, c)
      else if ltb (length bs) (block_addr * block_size + block_size)
      then (none, record c { fail = true })
      else (some (fetch bs (block_addr * block_size) block_size), c)
]

-- An image that is open and has not failed.
abbrev pub opened : List ℕ → SdCardModel
opened bs = record { file = some bs; fail = false }

read_block-fetch :
    (bs : List ℕ) (k : ℕ)
    → k * 512 + 512 ≤ length bs
    → read_block k (opened bs) ≡ (some (fetch bs (k * 512) 512), opened bs)
unfolding read_block
read_block-fetch bs k f =
    let fits : ltb (length bs) (k * 512 + 512) ≡ false = ground arith in rw fits refl

read_block-short :
    (bs : List ℕ) (k : ℕ)
    → length bs < k * 512 + 512
    → read_block k (opened bs) ≡ (none, record { file = some bs; fail = true })
unfolding read_block
read_block-short bs k l =
    let past : ltb (length bs) (k * 512 + 512) ≡ true = ground arith in rw past refl

-- A block that is read goes to the RAM.
read_blocks-next :
    (card : ℕ → Option (List ℕ)) (n block dest : ℕ) (buf mem : List ℕ)
    → card block ≡ some buf
    → take 512 buf ≡ buf
    → dest + 512 < 2 ^ 32
    → dest + 512 ≤ length mem
    → read_blocks b_transport card (suc n) block dest mem
      ≡ read_blocks b_transport card n (u32 (block + 1)) (u32 (dest + 512)) (put mem dest buf)
unfolding read_blocks
read_blocks-next card n block dest buf mem e w t f =
    rw (read_blocks, e, write_inside mem dest 512 buf t f, w) refl

-- With an image in the card and a RAM behind the bus, a transfer of `n` blocks that lie in the
-- image, to a range that fits in the RAM and does not wrap in 32 bits, succeeds, and leaves the
-- RAM with that part of the image at the destination and nothing else changed.
pub read_blocks-fetch :
    (bs : List ℕ) (n block dest : ℕ) (mem : List ℕ)
    → block + n < 2 ^ 32
    → block * 512 + 512 * n ≤ length bs
    → dest + 512 * n < 2 ^ 32
    → dest + 512 * n ≤ length mem
    → read_blocks b_transport (λ k. (read_block k (opened bs)).0) n block dest mem
      ≡ (put mem dest (fetch bs (block * 512) (512 * n)), true)
unfolding read_blocks
read_blocks-fetch bs zero block dest mem b i t f = rw (put-none mem dest) refl
read_blocks-fetch bs (suc n) block dest mem b i t f =
    let at : ℕ = block * 512 in
    let first : List ℕ = fetch bs at 512 in
    let rest : List ℕ = fetch bs (at + 512) (512 * n) in
    let size : length first ≡ 512 = length-fetch bs at 512 (omega (arith, i)) in
    let once : List ℕ = put mem dest first in
    let kept : length once ≡ length mem = length-put mem dest first in
    let whole : take 512 first ≡ first =
      ap (take 512) (sym (append-nil first)) ∙ take-append 512 first _ size in
    let next : u32 (block + 1) ≡ block + 1 = omega (arith, b) in
    let on : u32 (dest + 512) ≡ dest + 512 = omega (arith, t) in
    let later : (block + 1) * 512 ≡ at + 512 = omega arith in
    let all : first ++ rest ≡ fetch bs at (512 * suc n) =
      fetch-append bs at 512 (512 * n) ∙ ap (fetch bs at) (omega arith) in
    let card : ℕ → Option (List ℕ) = λ k. (read_block k (opened bs)).0 in
    read_blocks-next card n block dest first mem
      (ap (λ r. r.0) (read_block-fetch bs block (omega (arith, i)))) whole (omega (arith, t))
      (omega (arith, f))
    ∙ ap (λ k. read_blocks b_transport card n k (u32 (dest + 512)) once) next
    ∙ ap (λ d. read_blocks b_transport card n (block + 1) d once) on
    ∙ read_blocks-fetch bs n (block + 1) (dest + 512) once (omega (arith, b)) (omega (arith, i))
        (omega (arith, t)) (omega (arith, f, kept))
    ∙ ap (λ k. (put once (dest + 512) (fetch bs k (512 * n)), true)) later
    ∙ ap (λ m. (m, true))
        (ap (λ k. put once (dest + k) rest) (sym size)
          ∙ put-append mem dest first rest
          ∙ ap (put mem dest) all)

-- A sequence of reads.
unfoldable pub read_all : List ℕ → SdCardModel → List (Option (List ℕ))
read_all [] c = []
read_all (k ∷ ks) c = let r = read_block k c in r.0 ∷ read_all ks r.1

-- The blocks of the image, up to the first number that is not one of a whole block.
unfoldable pub blocks_until_short : List ℕ → List ℕ → List (Option (List ℕ))
blocks_until_short bs [] = []
blocks_until_short bs (k ∷ ks) =
    let rest = blocks_until_short bs ks in
    if leb (512 * (k + 1)) (length bs)
    then some (take 512 (drop (512 * k) bs)) ∷ rest
    else map (λ _. none) (k ∷ ks)

read_all-failed :
    (bs ks : List ℕ) → read_all ks (record { file = some bs; fail = true }) ≡ map (λ _. none) ks
unfolding read_all read_block
read_all-failed bs [] = refl
read_all-failed bs (k ∷ ks) = ap (λ t. none ∷ t) (read_all-failed bs ks)

-- Any sequence of reads of an image that is open and has not failed returns the image's blocks up
-- to the first read that runs past its end, and fails from there on, whatever the blocks.
pub read_all-blocks_until_short :
    (bs ks : List ℕ) → read_all ks (opened bs) ≡ blocks_until_short bs ks
unfolding read_all blocks_until_short
read_all-blocks_until_short bs [] = refl
read_all-blocks_until_short bs (k ∷ ks) = elim (Bool-cases (leb (512 * (k + 1)) (length bs))) [
  | inl y ↦
      (let at : k * 512 ≡ 512 * k = omega arith in
        rw (y, read_block-fetch bs k (ground (arith, y)), at)
          (ap (λ t. some (take 512 (drop (512 * k) bs)) ∷ t) (read_all-blocks_until_short bs ks)))
  | inr n ↦
      rw (n, read_block-short bs k (ground (arith, n))) (ap (λ t. none ∷ t) (read_all-failed bs ks))
]
