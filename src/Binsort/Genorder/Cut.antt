-- ===== src/Binsort/Genorder/Cut.antt =====
-- The list that binsort_genorder makes is the round trip of the files, cut open at its farthest pair.
use native.Mathlib.Nat.{mod-eq_of_lt, mod-lt, add-mod_right, mod-add-mod}
use native.Mathlib.Decide.{ℕ_discrete}
use binsort.Base.{
  ℕ, zero, suc, ◌+◌, ◌-◌, ◌*◌, ◌%◌, ◌<◌, ◌≤◌, ◌≡◌, refl, sym, ap, ap₂, ◌∙◌, inl, inr, Option, none,
  some, List, [], ◌∷◌, Cells, ltb, Bool-cases, arith,
}
use binsort.Binsort.Order.{DirEntry, Distances, Survey, survey_pair, getdist_loop, getdist}
use binsort.Binsort.Order.Walk.{walk, walk-one, walk-append}
use binsort.Binsort.Genorder.Files.{listing}
use binsort.Binsort.Order.Delta.{index_weight, weight, tour, getdist-walk, tour_rotate}

-- The distance of the file at `j` from the next one, going round.
abbrev pub pair : Distances → Cells DirEntry → ℕ → ℕ → ℕ
pair dist o num j = weight dist (o j) (o ((j + 1) % num))

-- What the first `i` rounds know of the farthest pair: there is none with two hashes, or it stands at the
-- starting position.
abbrev IsFarthest : Distances → Cells DirEntry → ℕ → ℕ → ℕ → Option ℕ → Type 0
IsFarthest dist o num i startpos none = (startpos ≡ 0) × ((j : ℕ) → j < i → pair dist o num j ≡ 0)
IsFarthest dist o num i startpos (some w) =
    (startpos < i) × (pair dist o num startpos ≡ w) × ((j : ℕ) → j < i → pair dist o num j ≤ w)

-- A claim about all numbers below `i + 1`.
below_next : {P : ℕ → Type 0} → (i : ℕ) → ((j : ℕ) → j < i → P j) → P i → (j : ℕ) → j < i + 1 → P j
below_next {P} i before here j h = elim (ℕ_discrete j i) [
  | yes e ↦ rw e here
  | no ne ↦ before j (omega arith)
]

module _ (dist : Distances) (o : Cells DirEntry) (num : ℕ) where
  unknown-IsFarthest :
      (i startpos : ℕ) (w : Option ℕ)
      → pair dist o num i ≡ 0
      → IsFarthest dist o num i startpos w
      → IsFarthest dist o num (i + 1) startpos w
  unknown-IsFarthest i startpos none e (at, zeros) = (at, below_next i zeros e)
  unknown-IsFarthest i startpos (some w) e (low, at, most) =
      (omega arith, at, below_next i most (omega arith))

  known-IsFarthest :
      (i a b d startpos : ℕ) (w : Option ℕ)
      → pair dist o num i ≡ dist.array (a * dist.arrnum + b)
      → IsFarthest dist o num i startpos w
      → let s =
          survey_pair dist i
            (some a)
            (some b)
            (record { d = d; worstd = w; startpos = startpos }) in
        IsFarthest dist o num (i + 1) s.startpos s.worstd
  unfolding survey_pair
  known-IsFarthest i a b d startpos none e (at, zeros) =
      (omega arith, e, below_next i (λ j h. omega (arith, zeros j h)) (omega arith))
  known-IsFarthest i a b d startpos (some w) e (low, at, most) =
      elim (Bool-cases (ltb w (dist.array (a * dist.arrnum + b)))) [
        | inl more ↦
            rw more
              (omega arith, e, below_next i (λ j h. ground (arith, most j h, more)) (omega arith))
        | inr less ↦ rw less (omega arith, at, below_next i most (ground (arith, less)))
      ]

  survey_pair-IsFarthest :
      (i : ℕ) (s : Survey)
      → IsFarthest dist o num i s.startpos s.worstd
      → let s' = survey_pair dist i (o i).index (o ((i + 1) % num)).index s in
        IsFarthest dist o num (i + 1) s'.startpos s'.worstd
  unfolding survey_pair
  survey_pair-IsFarthest i s inv = by_index (o i).index (o ((i + 1) % num)).index refl
    where
      by_index :
          (p q : Option ℕ)
          → pair dist o num i ≡ index_weight dist p q
          → let s' = survey_pair dist i p q s in IsFarthest dist o num (i + 1) s'.startpos s'.worstd
      by_index none q e = unknown-IsFarthest i s.startpos s.worstd e inv
      by_index (some a) none e = unknown-IsFarthest i s.startpos s.worstd e inv
      by_index (some a) (some b) e = known-IsFarthest i a b s.d s.startpos s.worstd e inv

  getdist_loop-IsFarthest :
      (k i : ℕ) (s : Survey)
      → IsFarthest dist o num i s.startpos s.worstd
      → let s' = getdist_loop k i dist o num s in
        IsFarthest dist o num (i + k) s'.startpos s'.worstd
  unfolding getdist_loop
  getdist_loop-IsFarthest zero i s inv = let same : i ≡ i + 0 = omega arith in rw same at inv
  getdist_loop-IsFarthest (suc k) i s inv =
      let same : i + 1 + k ≡ i + suc k = omega arith in
      rw same at (
        getdist_loop-IsFarthest k (i + 1)
          (survey_pair dist i (o i).index (o ((i + 1) % num)).index s)
          (survey_pair-IsFarthest i s inv))

  -- The pair at the starting position is the farthest.
  startpos_farthest :
      0 < num
      → ((getdist dist o num).1 < num)
        × ((j : ℕ) → j < num → pair dist o num j ≤ pair dist o num (getdist dist o num).1)
  unfolding getdist
  startpos_farthest h =
      let s = getdist_loop num 0 dist o num (record { d = 0; worstd = none; startpos = 0 }) in
      by_worst s.startpos s.worstd
        (getdist_loop-IsFarthest num 0 _ (refl, λ j low. absurd (omega arith)))
    where
      by_worst :
          (sp : ℕ) (w : Option ℕ)
          → IsFarthest dist o num (0 + num) sp w
          → (sp < num) × ((j : ℕ) → j < num → pair dist o num j ≤ pair dist o num sp)
      by_worst sp none (at, zeros) = (omega arith, λ j low. omega (arith, zeros j (omega arith)))
      by_worst sp (some w) (low, at, most) =
          (omega arith, λ j l. omega (arith, most j (omega arith), at))

-- The length of the way through the files of a list.
unfoldable pub way_length : Distances → List DirEntry → ℕ
way_length dist [] = 0
way_length dist (a ∷ []) = 0
way_length dist (a ∷ b ∷ entries) = weight dist a b + way_length dist (b ∷ entries)

-- No two neighbours of a list are farther apart than `c`.
unfoldable pub IsWithin : Distances → ℕ → List DirEntry → Type 0
IsWithin dist c [] = Unit {0}
IsWithin dist c (a ∷ []) = Unit {0}
IsWithin dist c (a ∷ b ∷ entries) = (weight dist a b ≤ c) × IsWithin dist c (b ∷ entries)

-- The last of `a` and the files behind it.
abbrev pub last_entry : DirEntry → List DirEntry → DirEntry
last_entry a [] = a
last_entry a (b ∷ entries) = last_entry b entries

-- The step from the last file of a list back to its first.
unfoldable pub closing_length : Distances → List DirEntry → ℕ
closing_length dist [] = 0
closing_length dist (a ∷ entries) = weight dist (last_entry a entries) a

way_length-listing :
    (dist : Distances) (x : Cells DirEntry) (k i : ℕ)
    → way_length dist (listing x i (suc k)) ≡ walk (weight dist) x i k
unfolding way_length listing walk
way_length-listing dist x zero i = refl
way_length-listing dist x (suc k) i =
    ap (λ l. weight dist (x i) (x (suc i)) + l) (way_length-listing dist x k (suc i))

listing-IsWithin :
    (dist : Distances) (c : ℕ) (x : Cells DirEntry) (k i : ℕ)
    → ((j : ℕ) → i ≤ j → j < i + k → weight dist (x j) (x (suc j)) ≤ c)
    → IsWithin dist c (listing x i (suc k))
unfolding IsWithin listing
listing-IsWithin dist c x zero i h = tt
listing-IsWithin dist c x (suc k) i h = (
  h i (omega arith) (omega arith),
  listing-IsWithin dist c x k (suc i) (λ j l u. h j (omega arith) (omega arith)),
)

last_entry-listing :
    (x : Cells DirEntry) (k i : ℕ) → last_entry (x i) (listing x (suc i) k) ≡ x (i + k)
unfolding listing
last_entry-listing x zero i = ap x (omega arith)
last_entry-listing x (suc k) i = last_entry-listing x k (suc i) ∙ ap x (omega arith)

closing_length-listing :
    (dist : Distances) (x : Cells DirEntry) (k : ℕ)
    → closing_length dist (listing x 0 (suc k)) ≡ weight dist (x k) (x 0)
unfolding closing_length listing
closing_length-listing dist x k =
    ap (λ a. weight dist a (x 0)) (last_entry-listing x k 0 ∙ ap x (omega arith))

module _ (dist : Distances) (o : Cells DirEntry) (num : ℕ) (h : 0 < num) where
  abbrev last_place : ℕ
  last_place = num - 1

  abbrev startpos : ℕ
  startpos = (getdist dist o num).1

  abbrev out : Cells DirEntry
  out = tour o num (startpos + 1)

  size : num ≡ suc last_place
  size = omega (arith, h)

  -- The step behind the last file is the pair at the starting position.
  closing_step : weight dist (out last_place) (out num) ≡ pair dist o num startpos
  closing_step =
      let low = (startpos_farthest dist o num h).0 in
      let at_last : (startpos + 1 + last_place) % num ≡ startpos =
        ap (λ k. k % num) (omega (arith, size)) ∙ add-mod_right startpos num ∙ mod-eq_of_lt low in
      ap₂ (λ a b. weight dist (o a) (o b)) at_last (add-mod_right (startpos + 1) num)

  closing_length-out : closing_length dist (listing out 0 num) ≡ pair dist o num startpos
  closing_length-out =
      let around : (startpos + 1 + 0) % num ≡ (startpos + 1 + num) % num =
        ap (λ k. k % num) (omega arith) ∙ sym (add-mod_right (startpos + 1) num) in
      ap (λ n. closing_length dist (listing out 0 n)) size
      ∙ closing_length-listing dist out last_place
      ∙ ap (λ a. weight dist (out last_place) (o a)) around
      ∙ closing_step

  -- Every step of the list is a pair of the round trip.
  step-within : (j : ℕ) → weight dist (out j) (out (suc j)) ≤ pair dist o num startpos
  step-within j =
      let i = (startpos + 1 + j) % num in
      let next : (startpos + 1 + suc j) % num ≡ (i + 1) % num =
        ap (λ k. k % num) (omega arith) ∙ sym (mod-add-mod (startpos + 1 + j) num 1) in
      omega (
        arith,
        (startpos_farthest dist o num h).1 i (mod-lt (startpos + 1 + j) (omega (arith, h))),
        ap (λ b. weight dist (o i) (o b)) next,
      )

  pub listing-cut :
      let l = listing out 0 num in
      (way_length dist l + closing_length dist l ≡ (getdist dist o num).0)
      × IsWithin dist (closing_length dist l) l
  listing-cut =
      let whole : num ≡ last_place + 1 = omega (arith, size) in
      let last_step : weight dist (out (0 + last_place)) (out (suc (0 + last_place)))
          ≡ weight dist (out last_place) (out num) =
        ap₂ (λ a b. weight dist (out a) (out b)) (omega arith) (omega (arith, size)) in
      (
        omega (
          arith,
          ap (λ n. way_length dist (listing out 0 n)) size,
          way_length-listing dist out last_place 0,
          ap (walk (weight dist) out 0) whole,
          walk-append (weight dist) out last_place 1 0,
          walk-one (weight dist) out (0 + last_place),
          last_step,
          closing_step,
          closing_length-out,
          tour_rotate dist o num (startpos + 1) h,
          getdist-walk dist o num,
        ),
        rw closing_length-out (
            rw (sym size) at (
              listing-IsWithin dist (pair dist o num startpos) out last_place 0
                (λ j l u. step-within j))),
      )
