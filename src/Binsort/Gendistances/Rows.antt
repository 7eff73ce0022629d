-- ===== src/Binsort/Gendistances/Rows.antt =====
-- Each row of the matrix is dealt out to exactly one worker, and the answers fill in the whole matrix.
use native.Mathlib.Decide.{ℕ_discrete, dec_lt}
use native.Mathlib.Nat.{div-mul-le_self}
use binsort.Base.{
  ℕ, zero, suc, ◌+◌, ◌-◌, ◌*◌, ◌/◌, ◌<◌, ◌≤◌, ◌≡◌, ◌⊎◌, refl, sym, ap, ◌∙◌, inl, inr, true, false,
  some, List, [], ◌∷◌, ltb, ◌==◌, if◌then◌else◌, arith,
}
use binsort.Binsort.Gendistances.{HashMessage, limit_workers, behind_last, send_loop, send_rows}
use binsort.Binsort.Gendistances.Root.{IsRoot, root_lt, root_grows, root_zero}

-- Row `t i` is the first of message `i`, for `n` messages that have all of `num` rows, each at least one.
pub record IsDivision (num n : ℕ) (t : ℕ → ℕ) : Type 0 where
  pub first : t 0 ≡ 0
  pub whole : t n ≡ num
  pub below : (i : ℕ) → i < n → t i < num
  pub grows : (i : ℕ) → i < n → t i < t (suc i)

-- Message `i` of a division.
abbrev pub share : (ℕ → ℕ) → ℕ → HashMessage
share t i = record { first = t i; behind = t (suc i) }

-- The messages from the `i`-th on.
unfoldable pub shares : (ℕ → ℕ) → ℕ → ℕ → List HashMessage
shares t i zero = []
shares t i (suc j) = share t i ∷ shares t (suc i) j

module _ (root : ℕ → ℕ) (num n : ℕ) where
  abbrev pub first_row : ℕ → ℕ
  first_row i = if ltb i n then root (i * (num * num / n)) else num

  behind_last-first_row : (i : ℕ) → i < n → behind_last root num n i ≡ first_row (suc i)
  unfolding behind_last
  behind_last-first_row i h = elim (dec_lt i (n - 1)) [
    | yes low ↦
        let e : i + 1 ≡ suc i = omega arith in
        ground (arith, ap (λ j. root (j * (num * num / n))) e)
    | no last ↦ ground arith
  ]

  first_row-IsDivision :
      IsRoot root → 0 < num → 0 < n → (n ≡ 1) ⊎ (10 * n ≤ num) → IsDivision num n first_row
  first_row-IsDivision is_root some_row some_worker size =
      let none_yet : root (0 * (num * num / n)) ≡ 0 =
        ap root (omega arith) ∙ root_zero root is_root in
      record {
        first = ground (arith, none_yet);
        whole = ground arith;
        below = λ i h. ground (arith, low i h);
        grows = λ i h. elim (dec_lt (suc i) n) [
          | yes inside ↦ ground (arith, more i inside)
          | no last ↦ ground (arith, low i h)
        ];
      }
    where
      low : (i : ℕ) → i < n → root (i * (num * num / n)) < num
      low i h = elim size [
        | inl one ↦
            let at : i ≡ 0 = omega arith in
            let none_yet : root (0 * (num * num / n)) ≡ 0 =
              ap root (omega arith) ∙ root_zero root is_root in
            omega (arith, ap (λ j. root (j * (num * num / n))) at, none_yet)
        | inr enough ↦ root_lt root num n is_root some_worker enough i h
      ]

      more : (i : ℕ) → suc i < n → root (i * (num * num / n)) < root (suc i * (num * num / n))
      more i h = elim size [
        | inl one ↦ absurd (omega arith)
        | inr enough ↦ root_grows root num n is_root some_worker enough i (omega arith)
      ]

module _ (root : ℕ → ℕ) (num n : ℕ) (t : ℕ → ℕ) (d : IsDivision num n t)
    (next : (i : ℕ) → i < n → behind_last root num n i ≡ t (suc i)) where
  send_loop-shares :
      (k y i i0 : ℕ)
      → y + k ≡ num
      → i ≤ n
      → i0 ≡ t i
      → y ≤ t i
      → send_loop k root num n y i i0 ≡ shares t i (n - i)
  unfolding send_loop shares
  send_loop-shares zero y i i0 rows low at h = elim (dec_lt i n) [
    | yes more ↦ absurd (omega (arith, d.below i more))
    | no done ↦ let none_left : n - i ≡ 0 = omega arith in ap (shares t i) (sym none_left)
  ]
  send_loop-shares (suc k) y i i0 rows low at h = elim (dec_lt i n) [
    | no done ↦
        let last : i ≡ n = omega arith in
        elim (ℕ_discrete y i0) [
          | yes here ↦ absurd (omega (arith, ap t last, d.whole))
          | no later ↦
              let off : (y == i0) ≡ false = ground arith in
              rw off (send_loop-shares k (y + 1) i i0 (omega arith) low at (omega arith))
        ]
    | yes more ↦ elim (ℕ_discrete y i0) [
      | yes here ↦
          let on : (y == i0) ≡ true = ground arith in
          let left : n - i ≡ suc (n - suc i) = omega arith in
          let step : i + 1 ≡ suc i = omega arith in
          rw (on, left, at, next i more, step)
            (ap (λ l. share t i ∷ l)
              (send_loop-shares k (y + 1) (suc i) (t (suc i)) (omega arith) (omega arith) refl
                (omega (arith, d.grows i more))))
      | no later ↦
          let off : (y == i0) ≡ false = ground arith in
          rw off (send_loop-shares k (y + 1) i i0 (omega arith) low at (omega arith))
    ]
  ]

limit_workers-cases :
    (num numworkers : ℕ)
    → 0 < numworkers
    → (0 < limit_workers num numworkers)
      × ((limit_workers num numworkers ≡ 1) ⊎ (10 * limit_workers num numworkers ≤ num))
unfolding limit_workers
limit_workers-cases num numworkers h = ground (arith, div-mul-le_self num 10)

-- With memory, as many messages are sent as replies are waited for, and they share out the rows: the first
-- begins at row 0, each next one behind the last row of the one before, and the last ends at the last row;
-- each has at least one row.
pub send_rows_correct :
    (root : ℕ → ℕ) (num numworkers : ℕ)
    → IsRoot root
    → 0 < num
    → 0 < numworkers
    → let n = limit_workers num numworkers in
      (t : ℕ → ℕ) × IsDivision num n t
      × (send_rows true true root num numworkers ≡ some (shares t 0 n, n))
unfolding send_rows
send_rows_correct root num numworkers is_root some_row some_worker =
    let n = limit_workers num numworkers in
    let (positive, size) = limit_workers-cases num numworkers some_worker in
    let all : n - 0 ≡ n = omega arith in
    let d = first_row-IsDivision root num n is_root some_row positive size in
    (
      first_row root num n,
      d,
      ap (λ l. some (l, n))
          ((send_loop-shares root num n (first_row root num n) d (behind_last-first_row root num n)
              num 0 0 0 (omega arith) (omega arith) (sym d.first) (omega arith))
            ∙ ap (shares (first_row root num n) 0) all),
    )
