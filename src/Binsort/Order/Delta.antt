-- ===== src/Binsort/Order/Delta.antt =====
-- getdelta is by how much the reversal of a range changes getdist.
use native.Mathlib.Nat.{mod-eq_of_lt, add-mod_right, mod-lt}
use binsort.Base.{
  ℕ, zero, suc, ◌+◌, ◌-◌, ◌*◌, ◌%◌, ◌<◌, ◌≤◌, ◌≡◌, refl, sym, ap, ap₂, ◌∙◌, Option, none, some,
  Cells, arith,
}
use binsort.Base.Int.{ℤ, pos, pos_part, neg_part, ◌+ℤ◌, int_laws}
use binsort.Binsort.Order.{
  DirEntry, Distances, Survey, Span, survey_pair, getdist_loop, getdist, getdelta, first_delta,
  second_delta, before, reverse_range,
}
use binsort.Binsort.Order.Range.{IsSpan}
use binsort.Binsort.Order.Walk.{walk, walk-cong, walk_rotate, walk_turned}
use binsort.Binsort.Order.Places.{place, place_next, place_last}
use binsort.Binsort.Order.Reverse.{span_last, IsReversed, reverse_range-IsReversed}

-- The distance between two files, 0 if one has no hash.
abbrev pub index_weight : Distances → Option ℕ → Option ℕ → ℕ
index_weight dist none b = 0
index_weight dist (some a) none = 0
index_weight dist (some a) (some b) = dist.array (a * dist.arrnum + b)

abbrev pub weight : Distances → DirEntry → DirEntry → ℕ
weight dist p q = index_weight dist p.index q.index

-- The matrix of distances is symmetric.
abbrev pub IsSymmetric : Distances → Type 0
IsSymmetric dist =
    (a b : ℕ)
    → a < dist.arrnum
    → b < dist.arrnum
    → dist.array (a * dist.arrnum + b) ≡ dist.array (b * dist.arrnum + a)

abbrev pub IsRow : Distances → Option ℕ → Type 0
IsRow dist none = Unit {0}
IsRow dist (some a) = a < dist.arrnum

-- Every file has no index or one of a row of the matrix.
abbrev pub IsIndexed : Distances → Cells DirEntry → ℕ → Type 0
IsIndexed dist o num = (i : ℕ) → i < num → IsRow dist (o i).index

index_weight_comm :
    (dist : Distances) (a b : Option ℕ)
    → IsSymmetric dist
    → IsRow dist a
    → IsRow dist b
    → index_weight dist a b ≡ index_weight dist b a
index_weight_comm dist none none s p q = refl
index_weight_comm dist none (some b) s p q = refl
index_weight_comm dist (some a) none s p q = refl
index_weight_comm dist (some a) (some b) s p q = s a b p q

survey-d :
    (dist : Distances) (i : ℕ) (a b : Option ℕ) (s : Survey)
    → (survey_pair dist i a b s).d ≡ s.d + index_weight dist a b
unfolding survey_pair
survey-d dist i none b s = omega arith
survey-d dist i (some a) none s = omega arith
survey-d dist i (some a) (some b) s = ground arith

-- The files in turn from `i` on, going round.
abbrev pub tour : Cells DirEntry → ℕ → ℕ → Cells DirEntry
tour o num i k = o (place num i k)

module _ (dist : Distances) (o : Cells DirEntry) (num : ℕ) where
  getdist_loop-walk :
      (k i : ℕ) (s : Survey)
      → i + k ≤ num
      → (getdist_loop k i dist o num s).d ≡ s.d + walk (weight dist) (tour o num 0) i k
  unfolding getdist_loop walk
  getdist_loop-walk zero i s h = omega arith
  getdist_loop-walk (suc k) i s h =
      let a = (o i).index in
      let b = (o ((i + 1) % num)).index in
      let here : place num 0 i ≡ i = ap (λ j. j % num) (omega arith) ∙ mod-eq_of_lt (omega arith) in
      let next : place num 0 (suc i) ≡ (i + 1) % num = ap (λ j. j % num) (omega arith) in
      let step : i + 1 ≡ suc i = omega arith in
      omega (
        arith,
        getdist_loop-walk k (i + 1) (survey_pair dist i a b s) (omega arith),
        survey-d dist i a b s,
        ap (λ j. walk (weight dist) (tour o num 0) j k) step,
        ap₂ (λ p q. weight dist (o p) (o q)) here next,
      )

  pub getdist-walk : (getdist dist o num).0 ≡ walk (weight dist) (tour o num 0) 0 num
  unfolding getdist
  getdist-walk = getdist_loop-walk num 0 _ (omega arith) ∙ omega arith

  pub tour_rotate :
      (i : ℕ)
      → 0 < num
      → walk (weight dist) (tour o num i) 0 num ≡ walk (weight dist) (tour o num 0) 0 num
  tour_rotate zero h = refl
  tour_rotate (suc i) h =
      let n = num - 1 in
      let whole : num ≡ suc n = omega arith in
      let shifted =
        walk-cong (weight dist) (tour o num i) (tour o num (suc i)) num 0 1
          λ j lt. ap (λ k. o (k % num)) (omega arith) in
      let back : tour o num i (suc n) ≡ tour o num i 0 =
        ap (tour o num i) (sym whole)
        ∙ ap o (add-mod_right i num)
        ∙ ap (λ k. o (k % num)) (omega arith) in
      let back' : tour o num i (suc (suc n)) ≡ tour o num i 1 =
        let longer : i + suc (suc n) ≡ i + 1 + num = omega arith in
        ap (λ k. o (k % num)) longer ∙ ap o (add-mod_right (i + 1) num) in
      shifted
      ∙ ap (walk (weight dist) (tour o num i) 1) whole
      ∙ walk_rotate (weight dist) (tour o num i) n back back'
      ∙ ap (walk (weight dist) (tour o num i) 0) (sym whole)
      ∙ tour_rotate i h

first_parts :
    (dist : Distances) (a c d : Option ℕ)
    → pos_part (first_delta dist a c d) + index_weight dist a c
      ≡ neg_part (first_delta dist a c d) + index_weight dist a d
first_parts dist none c d = refl
first_parts dist (some a) none none = refl
first_parts dist (some a) none (some d) = omega int_laws
first_parts dist (some a) (some c) none = omega int_laws
first_parts dist (some a) (some c) (some d) = omega int_laws

second_parts :
    (dist : Distances) (delta : ℤ) (b c d : Option ℕ)
    → pos_part (second_delta dist delta b c d) + neg_part delta + index_weight dist b d
      ≡ neg_part (second_delta dist delta b c d) + pos_part delta + index_weight dist b c
second_parts dist delta none c d = omega arith
second_parts dist delta (some b) none none = omega arith
second_parts dist delta (some b) none (some d) = omega int_laws
second_parts dist delta (some b) (some c) none = omega int_laws
second_parts dist delta (some b) (some c) (some d) = omega int_laws

-- getdelta in weights: two new pairs less two old ones.
getdelta_parts :
    (o : Cells DirEntry) (dist : Distances) (i0 i1 i00 i11 : ℕ)
    → pos_part (getdelta o dist i0 i1 i00 i11)
        + weight dist (o i0) (o i00)
        + weight dist (o i1) (o i11)
      ≡ neg_part (getdelta o dist i0 i1 i00 i11)
        + weight dist (o i0) (o i11)
        + weight dist (o i1) (o i00)
unfolding getdelta
getdelta_parts o dist i0 i1 i00 i11 =
    let a = (o i0).index in
    let b = (o i1).index in
    let c = (o i00).index in
    let d = (o i11).index in
    omega (arith, first_parts dist a c d, second_parts dist (first_delta dist a c d) b c d)

module _ (dist : Distances) (o o' : Cells DirEntry) (num : ℕ) (r : Span) (s : IsSpan num r)
    (sym_dist : IsSymmetric dist) (rows : IsIndexed dist o num) (rev : IsReversed num r o o') where
  abbrev old : Cells DirEntry
  old = tour o num r.i0

  abbrev new : Cells DirEntry
  new = tour o' num r.i0

  old_comm : (j k : ℕ) → weight dist (old j) (old k) ≡ weight dist (old k) (old j)
  old_comm j k =
      index_weight_comm dist (old j).index (old k).index sym_dist
        (rows (place num r.i0 j) (mod-lt (r.i0 + j) (omega (arith, s.first))))
        (rows (place num r.i0 k) (mod-lt (r.i0 + k) (omega (arith, s.first))))

  round_trip : (f : Cells DirEntry) → tour f num r.i0 num ≡ tour f num r.i0 0
  round_trip f = ap f (add-mod_right r.i0 num) ∙ ap (λ k. f (k % num)) (omega arith)

  -- The walk round the reversed order, in terms of the last place `n` of the range and the number
  -- `m` of places behind the next one.
  reversed_walk :
      (n m : ℕ)
      → r.n ≡ suc n
      → num ≡ suc n + suc m
      → walk (weight dist) new 0 num
          + weight dist (old n) (old (suc n))
          + weight dist (old (suc n + m)) (old 0)
        ≡ walk (weight dist) old 0 num
          + weight dist (old 0) (old (suc n))
          + weight dist (old (suc n + m)) (old n)
  reversed_walk n m size whole =
      let turned =
        walk_turned (weight dist) old new n m old_comm
          (λ k h.
            let mirror : r.n - 1 - k ≡ n - k = omega arith in
            rev.turned k (omega arith) ∙ ap old mirror)
          (λ k b h. rev.kept k (omega arith) (omega arith)) (ap old (sym whole) ∙ round_trip o)
          (ap new (sym whole) ∙ round_trip o') in
      omega
        (arith, turned, ap (walk (weight dist) new 0) whole, ap (walk (weight dist) old 0) whole)

  -- The change of the distance, with the four places named as the code computes them.
  reversed_distance :
      pos_part (getdelta o dist r.i0 r.i1 (before num r.i0) ((r.i1 + 1) % num))
        + (getdist dist o num).0
      ≡ neg_part (getdelta o dist r.i0 r.i1 (before num r.i0) ((r.i1 + 1) % num))
        + (getdist dist o' num).0
  reversed_distance =
      let n = r.n - 1 in
      let m = num - r.n - 1 in
      let size : r.n ≡ suc n = omega (arith, s.some_position) in
      let whole : num ≡ suc n + suc m = omega (arith, s.half, s.some_position) in
      let e0 : old 0 ≡ o r.i0 = ap (λ k. o (k % num)) (omega arith) ∙ ap o (mod-eq_of_lt s.first) in
      let e1 : old n ≡ o r.i1 = ap o (sym (span_last num r s)) in
      let e11 : old (suc n) ≡ o ((r.i1 + 1) % num) =
        ap o (sym (place_next num r.i0 s.first n))
        ∙ ap (λ p. o ((p + 1) % num)) (sym (span_last num r s)) in
      let e00 : old (suc n + m) ≡ o (before num r.i0) =
        ap o (place_last num r.i0 s.first (suc n + m) (omega arith)) in
      omega (
        arith,
        reversed_walk n m size whole,
        getdelta_parts o dist r.i0 r.i1 (before num r.i0) ((r.i1 + 1) % num),
        getdist-walk dist o num,
        getdist-walk dist o' num,
        tour_rotate dist o num r.i0 (omega (arith, s.first)),
        tour_rotate dist o' num r.i0 (omega (arith, s.first)),
        old_comm (suc n + m) 0,
        old_comm (suc n + m) n,
        ap₂ (weight dist) e0 e11,
        ap₂ (weight dist) e0 e00,
        ap₂ (weight dist) e1 e11,
        ap₂ (weight dist) e1 e00,
      )

-- For symmetric distances, and files with no index or one of a row, the reversal of a range of at most
-- half of the files changes the length of the order by exactly what getdelta computes from four
-- positions.
pub reverse_range-getdelta :
    (dist : Distances) (o : Cells DirEntry) (num : ℕ) (r : Span)
    → IsSpan num r
    → IsSymmetric dist
    → IsIndexed dist o num
    → pos (getdist dist (reverse_range o num r) num).0
      ≡ pos (getdist dist o num).0 +ℤ getdelta o dist r.i0 r.i1 (before num r.i0) ((r.i1 + 1) % num)
reverse_range-getdelta dist o num r s sym_dist rows =
    let h =
      reversed_distance dist o (reverse_range o num r) num r s sym_dist rows
        (reverse_range-IsReversed o num r s) in
    omega int_laws
