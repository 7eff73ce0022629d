-- ===== src/Binsort/Distances/Matrix.antt =====
-- What a message fills in, and that the whole matrix is symmetric.
use native.Mathlib.Decide.{ℕ_discrete, dec_lt}
use native.Mathlib.Nat.{mod-eq_of_lt, add-mul-mod_self_right, mul-le-mul_right}
use binsort.Base.{
  ℕ, zero, suc, ◌+◌, ◌-◌, ◌*◌, ◌%◌, ◌<◌, ◌≤◌, ◌≡◌, ◌≢◌, ◌⊎◌, min, refl, sym, ap, ap₂, ◌∙◌, inl, inr,
  Cells, Bool-cases, ◌==◌, arith,
}
use Prim.Native.Nat.{bit_and}
use binsort.Simhash.Score.{Score}
use binsort.Binsort.Order.Delta.{IsSymmetric}
use binsort.Binsort.Distances.{
  HashNode, Work, distance, set_pair, count_pair, column_loop, row_loop, calcdist,
}

pair_injective :
    (num a b x y : ℕ) → a < num → x < num → a + b * num ≡ x + y * num → (a ≡ x) × (b ≡ y)
pair_injective num a b x y p q e =
    let same : a ≡ x =
      sym (add-mul-mod_self_right a b num ∙ mod-eq_of_lt p)
      ∙ ap (λ k. k % num) e
      ∙ add-mul-mod_self_right x y num
      ∙ mod-eq_of_lt q in
    elim (dec_lt b y) [
      | yes less ↦ absurd (omega (arith, mul-le-mul_right {m = b + 1} {n = y} num (omega arith)))
      | no nl ↦ elim (dec_lt y b) [
        | yes more ↦ absurd (omega (arith, mul-le-mul_right {m = y + 1} {n = b} num (omega arith)))
        | no nm ↦ (same, omega arith)
      ]
    ]

set_pair_at :
    (num : ℕ) (array : Cells ℕ) (x y v : ℕ)
    → (set_pair num array x y v (x + y * num) ≡ v) × (set_pair num array x y v (y + x * num) ≡ v)
unfolding set_pair
set_pair_at num array x y v = (ground arith, ground arith)

set_pair_other :
    (num : ℕ) (array : Cells ℕ) (x y v a b : ℕ)
    → x < num
    → y < num
    → a < num
    → (a ≢ x) ⊎ (b ≢ y)
    → (a ≢ y) ⊎ (b ≢ x)
    → set_pair num array x y v (a + b * num) ≡ array (a + b * num)
unfolding set_pair
set_pair_other num array x y v a b p q r n m =
    let first : a + b * num ≢ x + y * num =
      λ e. let (s, t) = pair_injective num a b x y r p e in elim n [ inl f ↦ f s | inr f ↦ f t ] in
    let second : a + b * num ≢ y + x * num =
      λ e. let (s, t) = pair_injective num a b y x r q e in elim m [ inl f ↦ f s | inr f ↦ f t ] in
    ground arith

count_pair-array : (w : Work) → (count_pair w).array ≡ w.array
unfolding count_pair
count_pair-array w = elim (Bool-cases (bit_and (w.pairs + 1) 262143 == 0)) [
  | inl full ↦ rw full refl
  | inr more ↦ rw more refl
]

module _ (num : ℕ) (scale : Score → ℕ) (hashes : Cells HashNode) where
  -- The matrix has the distance of each pair of a row from `lo` to below `hi`, in both cells.
  abbrev pub IsFilled : ℕ → ℕ → Cells ℕ → Type 0
  IsFilled lo hi array =
      (x y : ℕ)
      → x < y
      → lo ≤ y
      → y < hi
      → (array (x + y * num) ≡ distance scale (hashes y) (hashes x))
        × (array (y + x * num) ≡ distance scale (hashes y) (hashes x))

  -- Both cells of each pair of a row below `lo`, or from `hi` on, are as they were.
  abbrev pub IsKept : ℕ → ℕ → Cells ℕ → Cells ℕ → Type 0
  IsKept lo hi array array' =
      (x y : ℕ)
      → x < y
      → y < num
      → (y < lo) ⊎ (hi ≤ y)
      → (array' (x + y * num) ≡ array (x + y * num)) × (array' (y + x * num) ≡ array (y + x * num))

  column_loop_kept :
      (k x y a b : ℕ) (w : Work)
      → x + k ≤ y
      → y < num
      → a < num
      → (b ≢ y) ⊎ (a < x) ⊎ (x + k ≤ a)
      → (a ≢ y) ⊎ (b < x) ⊎ (x + k ≤ b)
      → (column_loop k x y num scale hashes w).array (a + b * num) ≡ w.array (a + b * num)
  unfolding column_loop
  column_loop_kept zero x y a b w h p q n m = refl
  column_loop_kept (suc k) x y a b w h p q n m =
      let v = distance scale (hashes y) (hashes x) in
      let array = set_pair num w.array x y v in
      column_loop_kept k (x + 1) y a b _ (omega arith) p q
        (elim n [
          | inl f ↦ inl f
          | inr (inl f) ↦ inr (inl (omega arith))
          | inr (inr f) ↦ inr (inr (omega arith))
        ])
        (elim m [
          | inl f ↦ inl f
          | inr (inl f) ↦ inr (inl (omega arith))
          | inr (inr f) ↦ inr (inr (omega arith))
        ])
      ∙ ap (λ f. f (a + b * num)) (count_pair-array (record w { array = array }))
      ∙ set_pair_other num w.array x y v a b (omega arith) p q
          (elim n [
            | inl f ↦ inr f
            | inr (inl f) ↦ inl (omega arith)
            | inr (inr f) ↦ inl (omega arith)
          ])
          (elim m [
            | inl f ↦ inl f
            | inr (inl f) ↦ inr (omega arith)
            | inr (inr f) ↦ inr (omega arith)
          ])

  column_loop_filled :
      (k x y a : ℕ) (w : Work)
      → x + k ≤ y
      → y < num
      → x ≤ a
      → a < x + k
      → ((column_loop k x y num scale hashes w).array (a + y * num)
          ≡ distance scale (hashes y) (hashes a))
        × ((column_loop k x y num scale hashes w).array (y + a * num)
            ≡ distance scale (hashes y) (hashes a))
  unfolding column_loop
  column_loop_filled zero x y a w h p l u = absurd (omega arith)
  column_loop_filled (suc k) x y a w h p l u = elim (ℕ_discrete a x) [
    | no ne ↦ column_loop_filled k (x + 1) y a _ (omega arith) p (omega arith) (omega arith)
    | yes here ↦
        let v = distance scale (hashes y) (hashes x) in
        let w' = record w { array = set_pair num w.array x y v } in
        let (s, t) = set_pair_at num w.array x y v in
        rw here (
          column_loop_kept k (x + 1) y x y (count_pair w') (omega arith) p (omega arith)
                (inr (inl (omega arith))) (inl (omega arith))
              ∙ ap (λ f. f (x + y * num)) (count_pair-array w')
              ∙ s,
          column_loop_kept k (x + 1) y y x (count_pair w') (omega arith) p p (inl (omega arith))
                (inr (inl (omega arith)))
              ∙ ap (λ f. f (y + x * num)) (count_pair-array w')
              ∙ t,
        )
  ]

  row_loop-IsKept :
      (k y : ℕ) (w : Work)
      → y + k ≤ num
      → IsKept y (y + k) w.array (row_loop k y num scale hashes w).array
  unfolding row_loop
  row_loop-IsKept zero y w h a b lt p out = (refl, refl)
  row_loop-IsKept (suc k) y w h a b lt p out =
      let w' = column_loop (min y num) 0 y num scale hashes w in
      let ne : b ≢ y = omega arith in
      let mirror : (a ≢ y) ⊎ (b < 0) ⊎ (0 + min y num ≤ b) = elim (ℕ_discrete a y) [
        | yes e ↦ inr (inr (omega arith))
        | no na ↦ inl na
      ] in
      let above : (b < y + 1) ⊎ (y + 1 + k ≤ b) = omega arith in
      let (s, t) = row_loop-IsKept k (y + 1) w' (omega arith) a b lt p above in
      (
        s
            ∙ column_loop_kept (min y num) 0 y a b w (omega arith) (omega arith) (omega arith)
                (inl ne) mirror,
        t ∙ column_loop_kept (min y num) 0 y b a w (omega arith) (omega arith) p mirror (inl ne),
      )

  row_loop-IsFilled :
      (k y : ℕ) (w : Work)
      → y + k ≤ num
      → IsFilled y (y + k) (row_loop k y num scale hashes w).array
  unfolding row_loop
  row_loop-IsFilled zero y w h a b lt l u = absurd (omega arith)
  row_loop-IsFilled (suc k) y w h a b lt l u =
      let w' = column_loop (min y num) 0 y num scale hashes w in
      elim (ℕ_discrete b y) [
        | no ne ↦ row_loop-IsFilled k (y + 1) w' (omega arith) a b lt (omega arith) (omega arith)
        | yes here ↦
            let (s, t) =
              row_loop-IsKept k (y + 1) w' (omega arith) a b lt (omega arith) (inl (omega arith)) in
            let (c, d) =
              column_loop_filled (min y num) 0 y a w (omega arith) (omega arith) (omega arith)
                (omega arith) in
            let back : distance scale (hashes y) (hashes a) ≡ distance scale (hashes b) (hashes a) =
              ap (λ j. distance scale (hashes j) (hashes a)) (sym here) in
            (
              s ∙ ap (λ j. w'.array (a + j * num)) here ∙ c ∙ back,
              t ∙ ap (λ j. w'.array (j + a * num)) here ∙ d ∙ back,
            )
      ]

  -- A message for rows that exist fills in the distance of each pair of these rows with one before
  -- it, in both of its cells, and changes no pair of another row.
  pub calcdist_correct :
      (first last : ℕ) (w : Work)
      → first ≤ last
      → last < num
      → IsFilled first (last + 1) (calcdist first last num scale hashes w).array
        × IsKept first (last + 1) w.array (calcdist first last num scale hashes w).array
  unfolding calcdist
  calcdist_correct first last w le lt =
      let rounds = min (last + 1) num - first in
      let start = record w { pairs = 0 } in
      let end : first + rounds ≡ last + 1 = omega arith in
      (
        λ x y p l u. row_loop-IsFilled rounds first start (omega arith) x y p l (omega arith),
        λ x y p l out. row_loop-IsKept rounds first start (omega arith) x y p l (omega arith),
      )

  -- A matrix in which both cells of each pair are filled in is symmetric.
  pub filled-IsSymmetric :
      (array : Cells ℕ)
      → IsFilled 0 num array
      → IsSymmetric (record { array = array; arrnum = num })
  filled-IsSymmetric array filled a b p q =
      let here : a * num + b ≡ b + a * num = omega arith in
      let there : b * num + a ≡ a + b * num = omega arith in
      ap array here
      ∙ elim (dec_lt a b) [
        | yes less ↦ let (s, t) = filled a b less (omega arith) (omega arith) in t ∙ sym s
        | no nl ↦ elim (dec_lt b a) [
          | yes more ↦ let (s, t) = filled b a more (omega arith) (omega arith) in s ∙ sym t
          | no nm ↦
              let same : a ≡ b = omega arith in ap array (ap₂ (λ i j. i + j * num) (sym same) same)
        ]
      ]
      ∙ ap array (sym there)

  -- A message for all rows makes the matrix symmetric.
  pub calcdist-IsSymmetric :
      (w : Work)
      → 0 < num
      → IsSymmetric
          (record { array = (calcdist 0 (num - 1) num scale hashes w).array; arrnum = num })
  calcdist-IsSymmetric w some_hash =
      let all : num - 1 + 1 ≡ num = omega arith in
      filled-IsSymmetric (calcdist 0 (num - 1) num scale hashes w).array
        (rw all at (calcdist_correct 0 (num - 1) w (omega arith) (omega arith)).0)
