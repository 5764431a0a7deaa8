-- ===== src/Mem/Blocks.antt =====
-- Blocks of bytes in the RAM: `put` and `fetch` side by side.
use virtual_so_c.Prelude.{
  ℕ, zero, suc, ◌+◌, ◌-◌, ◌≤◌, List, [], ◌∷◌, ◌++◌, length, take, drop, ◌≡◌, refl, arith, ap, ◌⊎◌,
}
use virtual_so_c.Mem.Ram.{put, fetch, length-take}

pub put-none : (mem : List ℕ) (at : ℕ) → put mem at [] ≡ mem
unfolding put
put-none [] at = refl
put-none (x ∷ xs) zero = refl
put-none (x ∷ xs) (suc at) = ap (λ t. x ∷ t) (put-none xs at)

-- Two blocks in a row.
pub put-append :
    (mem : List ℕ) (at : ℕ) (xs ys : List ℕ)
    → put (put mem at xs) (at + length xs) ys ≡ put mem at (xs ++ ys)
unfolding put
put-append [] at xs ys = refl
put-append (m ∷ ms) zero [] ys = refl
put-append (m ∷ ms) zero (x ∷ xs) ys =
    let after : zero + length (x ∷ xs) ≡ suc (zero + length xs) = omega arith in
    rw after (ap (λ t. x ∷ t) (put-append ms zero xs ys))
put-append (m ∷ ms) (suc at) xs ys =
    let count : suc at + length xs ≡ suc (at + length xs) = omega arith in
    rw count (ap (λ t. m ∷ t) (put-append ms at xs ys))

take-none : (n : ℕ) → take {A = ℕ} n [] ≡ []
take-none zero = refl
take-none (suc n) = refl

drop-none : (n : ℕ) → drop {A = ℕ} n [] ≡ []
drop-none zero = refl
drop-none (suc n) = refl

take-split : (m n : ℕ) (xs : List ℕ) → take m xs ++ take n (drop m xs) ≡ take (m + n) xs
take-split zero n xs = ap (λ k. take k xs) (omega arith)
take-split (suc m) n [] = let more : suc m + n ≡ suc (m + n) = omega arith in rw more (take-none n)
take-split (suc m) n (x ∷ xs) =
    let more : suc m + n ≡ suc (m + n) = omega arith in
    rw more (ap (λ t. x ∷ t) (take-split m n xs))

drop-drop : (m n : ℕ) (xs : List ℕ) → drop n (drop m xs) ≡ drop (m + n) xs
drop-drop zero n xs = ap (λ k. drop k xs) (omega arith)
drop-drop (suc m) n [] = let more : suc m + n ≡ suc (m + n) = omega arith in rw more (drop-none n)
drop-drop (suc m) n (x ∷ xs) =
    let more : suc m + n ≡ suc (m + n) = omega arith in rw more (drop-drop m n xs)

pub fetch-append :
    (mem : List ℕ) (at m n : ℕ) → fetch mem at m ++ fetch mem (at + m) n ≡ fetch mem at (m + n)
fetch-append mem at m n = rw (← drop-drop at m mem) (take-split m n (drop at mem))

-- A block read beside the one written.
pub fetch-put_apart :
    (mem : List ℕ) (at a n : ℕ) (bs : List ℕ)
    → (a + n ≤ at) ⊎ (at + length bs ≤ a)
    → fetch (put mem at bs) a n ≡ fetch mem a n
unfolding put
fetch-put_apart mem at a zero bs h = refl
fetch-put_apart [] at a n bs h = refl
fetch-put_apart (x ∷ xs) zero a n [] h = refl
fetch-put_apart (x ∷ xs) zero zero (suc n) (b ∷ bs) h = absurd (ground arith)
fetch-put_apart (x ∷ xs) zero (suc a) n (b ∷ bs) h = fetch-put_apart xs zero a n bs (ground arith)
fetch-put_apart (x ∷ xs) (suc at) zero (suc n) bs h =
    ap (λ t. x ∷ t) (fetch-put_apart xs at zero n bs (ground arith))
fetch-put_apart (x ∷ xs) (suc at) (suc a) n bs h = fetch-put_apart xs at a n bs (ground arith)

pub take-append : (n : ℕ) (xs ys : List ℕ) → length xs ≡ n → take n (xs ++ ys) ≡ xs
take-append zero [] ys h = refl
take-append zero (x ∷ xs) ys h = absurd (omega arith)
take-append (suc n) [] ys h = absurd (omega arith)
take-append (suc n) (x ∷ xs) ys h = ap (λ t. x ∷ t) (take-append n xs ys (omega arith))

length-drop : (n : ℕ) (mem : List ℕ) → length (drop n mem) ≡ length mem - n
length-drop zero mem = omega arith
length-drop (suc n) [] = omega arith
length-drop (suc n) (x ∷ xs) = omega (arith, length-drop n xs)

pub length-fetch : (mem : List ℕ) (at n : ℕ) → at + n ≤ length mem → length (fetch mem at n) ≡ n
length-fetch mem at n h = length-take n (drop at mem) (omega (arith, length-drop at mem))
