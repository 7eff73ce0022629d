-- ===== src/Simhash/Score/Merge.antt =====
-- hashinfo_score counts the features that two prints have in common.
use native.Mathlib.Decide.{ℕ_discrete, dec_lt}
use binsort.Base.{
  ℕ, zero, suc, ◌+◌, ◌*◌, ◌<◌, ◌≤◌, min, ◌≡◌, refl, sym, ap, ◌∙◌, Cells, bit, count, count-zero,
  count-suc, mem_of_count, find_of_count, ltb, Bool-cases, inl, inr, arith,
}
use binsort.Simhash.Global.{Simhash}
use binsort.Simhash.Score.{match_loop, hashinfo_score}

-- Strictly descending.
abbrev pub IsStrict : Cells ℕ → ℕ → Type 0
IsStrict a n = (j : ℕ) → suc j < n → a (suc j) < a j

-- How many of the first `n1` values of `f1` stand among the first `n2` of `f2`.
pub common : Cells ℕ → ℕ → Cells ℕ → ℕ → ℕ
common f1 zero f2 n2 = 0
common f1 (suc n1) f2 n2 = bit (ltb 0 (count f2 n2 (f1 n1))) + common f1 n1 f2 n2

strict_last : (a : Cells ℕ) (n i : ℕ) → IsStrict a (suc n) → i < n → a n < a i
strict_last a zero i s h = absurd (omega arith)
strict_last a (suc n) i s h = elim (ℕ_discrete i n) [
  | yes e ↦ rw e (s n (omega arith))
  | no ne ↦
      let ih = strict_last a n i (λ j lt. s j (omega arith)) (omega arith) in
      let step = s n (omega arith) in omega arith
]

above_last : (a : Cells ℕ) (n i : ℕ) → IsStrict a (suc n) → i < suc n → a n ≤ a i
above_last a n i s h = elim (ℕ_discrete i n) [
  | yes e ↦ omega (arith, ap a e)
  | no ne ↦ omega (arith, strict_last a n i s (omega arith))
]

-- A value below all is not counted.
count_below : (a : Cells ℕ) (n v : ℕ) → ((i : ℕ) → i < n → v < a i) → count a n v ≡ 0
count_below a n v h = elim (dec_lt 0 (count a n v)) [
  | no none_left ↦ omega arith
  | yes found ↦ let (i, lt, e) = find_of_count a n v found in absurd (omega (arith, h i lt))
]

-- Of a value above the last one, the last one does not count.
common_drop :
    (f1 f2 : Cells ℕ) (n1 n2 : ℕ)
    → ((i : ℕ) → i < n1 → f2 n2 < f1 i)
    → common f1 n1 f2 (suc n2) ≡ common f1 n1 f2 n2
unfolding common
common_drop f1 f2 zero n2 h = refl
common_drop f1 f2 (suc n1) n2 h =
    ground
      (arith, count-suc f2 n2 (f1 n1), h n1, common_drop f1 f2 n1 n2 (λ i lt. h i (omega arith)))

common-zero : (f1 f2 : Cells ℕ) (n1 : ℕ) → common f1 n1 f2 0 ≡ 0
unfolding common
common-zero f1 f2 zero = refl
common-zero f1 f2 (suc n1) = ground (arith, count-zero f2 (f1 n1), common-zero f1 f2 n1)

IsStrict-init : (a : Cells ℕ) (n : ℕ) → IsStrict a (suc n) → IsStrict a n
IsStrict-init a n s j h = s j (omega arith)

match_loop-common :
    (k : ℕ) (f1 f2 : Cells ℕ) (n1 n2 m : ℕ)
    → n1 + n2 ≤ k
    → IsStrict f1 n1
    → IsStrict f2 n2
    → match_loop k f1 f2 n1 n2 m ≡ m + common f1 n1 f2 n2
unfolding match_loop common
match_loop-common zero f1 f2 zero n2 m h s1 s2 = omega arith
match_loop-common zero f1 f2 (suc i1) n2 m h s1 s2 = absurd (omega arith)
match_loop-common (suc k) f1 f2 zero n2 m h s1 s2 = omega arith
match_loop-common (suc k) f1 f2 (suc i1) zero m h s1 s2 = omega (arith, common-zero f1 f2 (suc i1))
match_loop-common (suc k) f1 f2 (suc i1) (suc i2) m h s1 s2 =
    let p1 = IsStrict-init f1 i1 s1 in
    let p2 = IsStrict-init f2 i2 s2 in
    elim (Bool-cases (ltb (f1 i1) (f2 i2))) [
      | inl less ↦
          let absent : count f2 (suc i2) (f1 i1) ≡ 0 =
            count_below f2 (suc i2) (f1 i1)
              λ i lt. let least = above_last f2 i2 i s2 lt in ground arith in
          rw less (
            omega (
              arith,
              match_loop-common k f1 f2 i1 (suc i2) m (omega arith) p1 s2,
              ap (λ c. bit (ltb 0 c)) absent,
            ))
      | inr not_less ↦ elim (Bool-cases (ltb (f2 i2) (f1 i1))) [
        | inl more ↦
            rw (not_less, more)
              (match_loop-common k f1 f2 (suc i1) i2 m (omega arith) s1 p2
                ∙ ap (λ c. m + c)
                    (sym (
                      common_drop f1 f2 (suc i1) i2
                        (λ i lt. let least = above_last f1 i1 i s1 lt in ground arith))))
        | inr same ↦
            let dropped =
              common_drop f1 f2 i1 i2
                (λ i lt. let least = strict_last f1 i1 i s1 lt in ground arith) in
            rw (not_less, same)
              (ground (
                arith,
                match_loop-common k f1 f2 i1 i2 (m + 1) (omega arith) p1 p2,
                dropped,
                count-suc f2 i2 (f1 i1),
              ))
      ]
    ]

match_loop_comm :
    (k : ℕ) (f1 f2 : Cells ℕ) (n1 n2 m : ℕ)
    → match_loop k f1 f2 n1 n2 m ≡ match_loop k f2 f1 n2 n1 m
unfolding match_loop
match_loop_comm zero f1 f2 n1 n2 m = refl
match_loop_comm (suc k) f1 f2 zero zero m = refl
match_loop_comm (suc k) f1 f2 zero (suc i2) m = refl
match_loop_comm (suc k) f1 f2 (suc i1) zero m = refl
match_loop_comm (suc k) f1 f2 (suc i1) (suc i2) m = ground (
  arith,
  match_loop_comm k f1 f2 i1 (suc i2) m,
  match_loop_comm k f1 f2 (suc i1) i2 m,
  match_loop_comm k f1 f2 i1 i2 (m + 1),
)

common-le : (f1 f2 : Cells ℕ) (n1 n2 : ℕ) → common f1 n1 f2 n2 ≤ n1
unfolding common
common-le f1 f2 zero n2 = omega arith
common-le f1 f2 (suc n1) n2 = ground (arith, common-le f1 f2 n1 n2)

common_all :
    (f1 f2 : Cells ℕ) (n1 n2 : ℕ)
    → ((i : ℕ) → i < n1 → 0 < count f2 n2 (f1 i))
    → common f1 n1 f2 n2 ≡ n1
unfolding common
common_all f1 f2 zero n2 h = refl
common_all f1 f2 (suc n1) n2 h =
    ground (arith, h n1, common_all f1 f2 n1 n2 (λ i lt. h i (omega arith)))

module _ (a b : Simhash) (sa : IsStrict a.feature a.nfeature)
    (sb : IsStrict b.feature b.nfeature) where
  intersect-common :
      (hashinfo_score a b).intersectsize ≡ common a.feature a.nfeature b.feature b.nfeature
  unfolding hashinfo_score
  intersect-common =
      match_loop-common (a.nfeature + b.nfeature) a.feature b.feature a.nfeature b.nfeature 0
        (omega arith) sa sb
      ∙ omega arith

  common_comm :
      common a.feature a.nfeature b.feature b.nfeature
      ≡ common b.feature b.nfeature a.feature a.nfeature
  common_comm =
      let k = a.nfeature + b.nfeature in
      omega (
        arith,
        match_loop-common k a.feature b.feature a.nfeature b.nfeature 0 (omega arith) sa sb,
        match_loop-common k b.feature a.feature b.nfeature a.nfeature 0 (omega arith) sb sa,
        match_loop_comm k a.feature b.feature a.nfeature b.nfeature 0,
      )

  -- For strictly descending prints the score is the number of common features over twice the smaller
  -- number of features less that, and at most one.
  pub hashinfo_score_correct :
      ((hashinfo_score a b).intersectsize ≡ common a.feature a.nfeature b.feature b.nfeature)
      × ((hashinfo_score a b).intersectsize + (hashinfo_score a b).unionsize
          ≡ 2 * min a.nfeature b.nfeature)
      × ((hashinfo_score a b).intersectsize ≤ (hashinfo_score a b).unionsize)
  unfolding hashinfo_score
  hashinfo_score_correct =
      let c = intersect-common in
      let first = common-le a.feature b.feature a.nfeature b.nfeature in
      let second = common-le b.feature a.feature b.nfeature a.nfeature in
      let sym_count = common_comm in (c, ground arith, ground arith)

-- The score does not depend on the order of the prints.
pub hashinfo_score_comm : (a b : Simhash) → hashinfo_score a b ≡ hashinfo_score b a
unfolding hashinfo_score
hashinfo_score_comm a b = ground (
  arith,
  match_loop_comm (a.nfeature + b.nfeature) a.feature b.feature a.nfeature b.nfeature 0,
  ap (λ k. match_loop k b.feature a.feature b.nfeature a.nfeature 0) (fuel a.nfeature b.nfeature),
)
  where
    fuel : (x y : ℕ) → x + y ≡ y + x
    fuel x y = omega arith

-- A print in strictly descending order has the score one with itself.
pub hashinfo_score_self :
    (a : Simhash)
    → IsStrict a.feature a.nfeature
    → ((hashinfo_score a a).intersectsize ≡ a.nfeature)
      × ((hashinfo_score a a).unionsize ≡ a.nfeature)
hashinfo_score_self a s =
    let all =
      common_all a.feature a.feature a.nfeature a.nfeature (mem_of_count a.feature a.nfeature) in
    let (c, sum, le) = hashinfo_score_correct a a s s in (omega arith, omega arith)
