-- ===== src/Debug/Bytes.antt =====
-- Bytes of a memory one by one, for the debugger's changes of words.
use virtual_so_c.Prelude.{
  ℕ, zero, suc, ◌+◌, ◌*◌, ◌/◌, ◌%◌, ◌^◌, ◌<◌, ◌≤◌, List, [], ◌∷◌, length, get_or, take, drop, ◌≡◌,
  refl, ap, ◌∙◌, arith,
}
use virtual_so_c.Tlm.{load_le, store_le}
use virtual_so_c.Mem.Ram.{put, fetch}

-- Every byte is one.
abbrev pub IsBytes : List ℕ → Type 0
IsBytes bs = (j : ℕ) → get_or bs j 0 < 256

pub get_or-put_in :
    (xs : List ℕ) (at k : ℕ) (bs : List ℕ)
    → k < length bs
    → at + length bs ≤ length xs
    → get_or (put xs at bs) (at + k) 0 ≡ get_or bs k 0
unfolding put
get_or-put_in xs at k [] l h = absurd (omega arith)
get_or-put_in [] at k (b ∷ bs) l h = absurd (omega arith)
get_or-put_in (x ∷ xs) zero zero (b ∷ bs) l h = refl
get_or-put_in (x ∷ xs) zero (suc k) (b ∷ bs) l h =
    let next : zero + suc k ≡ suc (zero + k) = omega arith in
    rw next (get_or-put_in xs zero k bs (omega arith) (omega arith))
get_or-put_in (x ∷ xs) (suc at) k (b ∷ bs) l h =
    let next : suc at + k ≡ suc (at + k) = omega arith in
    rw next (get_or-put_in xs at k (b ∷ bs) l (omega arith))

pub get_or-take : (n k : ℕ) (xs : List ℕ) → k < n → get_or (take n xs) k 0 ≡ get_or xs k 0
get_or-take zero k xs l = absurd (omega arith)
get_or-take (suc n) k [] l = refl
get_or-take (suc n) zero (x ∷ xs) l = refl
get_or-take (suc n) (suc k) (x ∷ xs) l = get_or-take n k xs (omega arith)

get_or-drop : (at k : ℕ) (xs : List ℕ) → get_or (drop at xs) k 0 ≡ get_or xs (at + k) 0
get_or-drop zero k xs = ap (λ n. get_or xs n 0) (omega arith)
get_or-drop (suc at) k [] = refl
get_or-drop (suc at) k (x ∷ xs) =
    let next : suc at + k ≡ suc (at + k) = omega arith in rw next (get_or-drop at k xs)

pub get_or-fetch :
    (xs : List ℕ) (at n k : ℕ) → k < n → get_or (fetch xs at n) k 0 ≡ get_or xs (at + k) 0
get_or-fetch xs at n k l = get_or-take n k (drop at xs) l ∙ get_or-drop at k xs

-- Lists of one length that agree everywhere.
pub list_ext :
    (xs ys : List ℕ)
    → length xs ≡ length ys
    → ((j : ℕ) → j < length xs → get_or xs j 0 ≡ get_or ys j 0)
    → xs ≡ ys
list_ext [] [] h k = refl
list_ext [] (y ∷ ys) h k = absurd (omega arith)
list_ext (x ∷ xs) [] h k = absurd (omega arith)
list_ext (x ∷ xs) (y ∷ ys) h k =
    let first : x ≡ y = k 0 (omega arith) in
    let rest : xs ≡ ys = list_ext xs ys (omega arith) (λ j l. k (suc j) (omega arith)) in
    λ i. first i ∷ rest i

-- A word of bytes, there and back.
pub store_le-load_le :
    (n : ℕ) (bs : List ℕ) → length bs ≡ n → IsBytes bs → store_le n (load_le n bs) ≡ bs
unfolding store_le load_le
store_le-load_le zero [] h b = refl
store_le-load_le zero (x ∷ xs) h b = absurd (omega arith)
store_le-load_le (suc n) [] h b = absurd (omega arith)
store_le-load_le (suc n) (x ∷ xs) h b =
    let byte : x < 256 = b 0 in
    let low : (x + load_le n xs * 2 ^ 8) % 2 ^ 8 ≡ x = omega arith in
    let high : (x + load_le n xs * 2 ^ 8) / 2 ^ 8 ≡ load_le n xs = omega arith in
    rw (low, high) (ap (λ t. x ∷ t) (store_le-load_le n xs (omega arith) (λ j. b (suc j))))

take-IsBytes : (n : ℕ) (xs : List ℕ) → IsBytes xs → IsBytes (take n xs)
take-IsBytes zero xs b j = omega arith
take-IsBytes (suc n) [] b j = omega arith
take-IsBytes (suc n) (x ∷ xs) b zero = b 0
take-IsBytes (suc n) (x ∷ xs) b (suc j) = take-IsBytes n xs (λ i. b (suc i)) j

pub fetch-IsBytes : (xs : List ℕ) (at n : ℕ) → IsBytes xs → IsBytes (fetch xs at n)
fetch-IsBytes xs at n b = take-IsBytes n (drop at xs) (λ j. rw (get_or-drop at j xs) (b (at + j)))
