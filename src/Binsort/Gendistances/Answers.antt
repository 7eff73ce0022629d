-- ===== src/Binsort/Gendistances/Answers.antt =====
-- The answers to the messages fill in the whole matrix, in any order.
use native.Mathlib.Decide.{ℕ_discrete, dec_lt}
use binsort.Base.{
  ℕ, zero, suc, ◌+◌, ◌-◌, ◌<◌, ◌≤◌, ◌≡◌, ◌⊎◌, ap, ◌∙◌, inl, inr, List, [], ◌∷◌, map, Cells, IsAmong,
  arith,
}
use binsort.Simhash.Score.{Score}
use binsort.Binsort.Distances.{HashNode, Work, calcdist}
use binsort.Binsort.Distances.Matrix.{IsFilled, IsKept, calcdist_correct}
use binsort.Binsort.Gendistances.{answer}
use binsort.Binsort.Gendistances.Rows.{IsDivision, share}

-- All of `js` are below `n`.
abbrev pub AllBelow : ℕ → List ℕ → Type 0
AllBelow n [] = Unit {0}
AllBelow n (j ∷ js) = (j < n) × AllBelow n js

module _ (num n : ℕ) (t : ℕ → ℕ) (d : IsDivision num n t) where
  -- The first row of a message is behind all rows of those before.
  in_order : (k i : ℕ) → i + k ≤ n → t i ≤ t (i + k)
  in_order zero i h = let same : i ≡ i + 0 = omega arith in omega (arith, ap t same)
  in_order (suc k) i h =
      let same : suc (i + k) ≡ i + suc k = omega arith in
      omega (arith, in_order k i (omega arith), d.grows (i + k) (omega arith), ap t same)

  in_order_of_le : (i j : ℕ) → i ≤ j → j ≤ n → t i ≤ t j
  in_order_of_le i j h l =
      let same : i + (j - i) ≡ j = omega arith in
      omega (arith, in_order (j - i) i (omega arith), ap t same)

  -- Each row belongs to a message.
  row_owner : (m y : ℕ) → m ≤ n → y < t m → (i : ℕ) × (i < m) × (t i ≤ y) × (y < t (suc i))
  row_owner zero y l h = absurd (omega (arith, d.first))
  row_owner (suc m) y l h = elim (dec_lt y (t m)) [
    | yes low ↦ let (i, im, lo, hi) = row_owner m y (omega arith) low in (i, omega arith, lo, hi)
    | no high ↦ (m, omega arith, omega arith, h)
  ]

  module _ (scale : Score → ℕ) (hashes : Cells HashNode) where
    abbrev one_answer : ℕ → Work → Work
    one_answer j w = calcdist (share t j).first ((share t j).behind - 1) num scale hashes w

    last_row :
        (j : ℕ)
        → j < n
        → ((t j ≤ t (suc j) - 1) × (t (suc j) - 1 < num)) × (t (suc j) - 1 + 1 ≡ t (suc j))
    last_row j h =
        let grows = d.grows j h in
        let below = in_order_of_le (suc j) n h (omega arith) in
        ((omega arith, omega (arith, d.whole)), omega arith)

    one_answer_correct :
        (j : ℕ) (w : Work)
        → j < n
        → IsFilled num scale hashes (t j) (t (suc j)) (one_answer j w).array
          × IsKept num scale hashes (t j) (t (suc j)) w.array (one_answer j w).array
    one_answer_correct j w h =
        let ((some_rows, inside), same) = last_row j h in
        rw same at (calcdist_correct num scale hashes (t j) (t (suc j) - 1) w some_rows inside)

    -- The rows of message `i` are filled in, if they were or if it is answered.
    answer-IsFilled :
        (js : List ℕ) (i : ℕ) (w : Work)
        → AllBelow n js
        → i < n
        → IsFilled num scale hashes (t i) (t (suc i)) w.array ⊎ IsAmong i js
        → IsFilled num scale hashes
            (t i)
            (t (suc i))
            (answer (map (share t) js) num scale hashes w).array
    unfolding answer
    answer-IsFilled [] i w low h (inl filled) = filled
    answer-IsFilled [] i w low h (inr among) = absurd among
    answer-IsFilled (j ∷ js) i w (jn, low) h state =
        let (now, kept) = one_answer_correct j w jn in
        answer-IsFilled js i (one_answer j w) low h (elim (ℕ_discrete i j) [
          | yes same ↦ inl (rw same now)
          | no other ↦ elim state [
            | inl filled ↦ inl (λ x y lt lo hi.
                let outside : (y < t j) ⊎ (t (suc j) ≤ y) = elim (dec_lt i j) [
                  | yes before ↦ inl (omega (arith, in_order_of_le (suc i) j before (omega arith)))
                  | no behind ↦
                      inr (omega (arith, in_order_of_le (suc j) i (omega arith) (omega arith)))
                ] in
                let inside : y < num =
                  omega (arith, in_order_of_le (suc i) n h (omega arith), d.whole) in
                let (up, down) = filled x y lt lo hi in
                let (up', down') = kept x y lt inside outside in (up' ∙ up, down' ∙ down))
            | inr (inl same) ↦ absurd (other same)
            | inr (inr later) ↦ inr later
          ]
        ])

    -- When every message has been answered, in whatever order, the matrix has the distance of each pair
    -- of files in both of its cells.
    pub answer_all :
        (js : List ℕ) (w : Work)
        → AllBelow n js
        → ((i : ℕ) → i < n → IsAmong i js)
        → IsFilled num scale hashes 0 num (answer (map (share t) js) num scale hashes w).array
    answer_all js w low all x y lt lo hi =
        let (i, im, from, to) = row_owner n y (omega arith) (omega (arith, d.whole)) in
        answer-IsFilled js i w low im (inr (all i im)) x y lt from to
