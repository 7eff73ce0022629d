-- ===== src/Simhash/Crc/Shingles.antt =====
-- The shingles of a file, its runs of consecutive bytes, and how a ring buffer goes through them.
use mathlib.Core.List.{append_assoc}
use binsort.Base.{
  ℕ, zero, suc, ◌+◌, ◌%◌, ◌<◌, ◌≡◌, refl, sym, ap, ◌∙◌, List, [], ◌∷◌, ◌++◌, Cells, update, leb,
  if◌then◌else◌, arith,
}
use binsort.Simhash.Crc.Ring.{ring, ring_push}

abbrev pub length {ℓ} : {A : Type ℓ} → List A → ℕ
length [] = 0
length (x ∷ xs) = suc (length xs)

abbrev pub take {ℓ} : {A : Type ℓ} → ℕ → List A → List A
take zero xs = []
take (suc n) [] = []
take (suc n) (x ∷ xs) = x ∷ take n xs

-- The runs of `n` consecutive bytes, the shingles, in the order of the file.
unfoldable pub shingles : ℕ → List ℕ → List (List ℕ)
shingles n [] = []
shingles n (b ∷ bs) =
    let rest = shingles n bs in if leb n (suc (length bs)) then take n (b ∷ bs) ∷ rest else []

pub take_whole : (n : ℕ) (xs ys : List ℕ) → length xs ≡ n → take n (xs ++ ys) ≡ xs
take_whole zero [] ys h = refl
take_whole zero (x ∷ xs) ys h = absurd (omega arith)
take_whole (suc n) [] ys h = absurd (omega arith)
take_whole (suc n) (x ∷ xs) ys h = ap (◌∷◌ x) (take_whole n xs ys (omega arith))

pub length-append : (xs ys : List ℕ) → length (xs ++ ys) ≡ length xs + length ys
length-append [] ys = omega arith
length-append (x ∷ xs) ys = omega (arith, length-append xs ys)

pub shingles_short : (n : ℕ) (l : List ℕ) → length l < n → shingles n l ≡ []
unfolding shingles
shingles_short n [] h = refl
shingles_short n (b ∷ bs) h = ground arith

shingles_cons :
    (n x : ℕ) (xs ys : List ℕ)
    → length (x ∷ xs) ≡ n
    → shingles n (x ∷ xs ++ ys) ≡ (x ∷ xs) ∷ shingles n (xs ++ ys)
unfolding shingles
shingles_cons n x xs ys h = ground (arith, length-append xs ys, take_whole n (x ∷ xs) ys)

pub length-ring : (k : ℕ) (buf : Cells ℕ) (n i : ℕ) → length (ring buf n i k) ≡ k
unfolding ring
length-ring zero buf n i = refl
length-ring (suc k) buf n i = ap suc (length-ring k buf n ((i + 1) % n))

-- The shingles from a full ring buffer on: the one in the buffer, and those after the next byte.
pub ring-shingles_last :
    (k : ℕ) (buf : Cells ℕ) (i : ℕ)
    → shingles (suc k) (ring buf (suc k) i (suc k) ++ []) ≡ ring buf (suc k) i (suc k) ∷ []
unfolding ring
ring-shingles_last k buf i =
    let n = suc k in
    let tail = ring buf n ((i + 1) % n) k in
    shingles_cons n (buf i) tail [] (ap suc (length-ring k buf n ((i + 1) % n)))
    ∙ ap (◌∷◌ (buf i ∷ tail)) (
        shingles_short n (tail ++ [])
          (omega (arith, length-append tail [], length-ring k buf n ((i + 1) % n))))

pub ring-shingles_more :
    (k : ℕ) (buf : Cells ℕ) (i c : ℕ) (f : List ℕ)
    → i < suc k
    → shingles (suc k) (ring buf (suc k) i (suc k) ++ c ∷ f)
      ≡ ring buf (suc k) i (suc k)
        ∷ shingles (suc k) (ring (update buf i c) (suc k) ((i + 1) % suc k) (suc k) ++ f)
unfolding ring
ring-shingles_more k buf i c f h =
    let n = suc k in
    let tail = ring buf n ((i + 1) % n) k in
    let shifted : ring (update buf i c) n ((i + 1) % n) n ++ f ≡ tail ++ c ∷ f =
      ap (λ l. l ++ f) (ring_push k n i c buf refl h) ∙ append_assoc tail (c ∷ []) f in
    shingles_cons n (buf i) tail (c ∷ f) (ap suc (length-ring k buf n ((i + 1) % n)))
    ∙ ap (λ l. (buf i ∷ tail) ∷ shingles n l) (sym shifted)
