-- ===== src/Binsort/Optimise/Accept.antt =====
-- An accepted range: the change of the kept distance is that of the order once all ranges are reversed.
use mathlib.Core.List.{map-append}
use native.Mathlib.Decide.{ℕ_discrete}
use native.Mathlib.Nat.{mod-lt}
use mathlib.Core.Option.{some-injective}
use binsort.Base.{
  ℕ, suc, ◌+◌, ◌-◌, ◌%◌, ◌<◌, ◌≡◌, refl, sym, ap, ◌∙◌, inl, inr, Bool, true, some, List, [], ◌∷◌,
  ◌++◌, map, Cells, swap, Bool-cases, ltb, arith,
}
use binsort.Base.Int.{ℤ, pos, ◌+ℤ◌}
use binsort.Binsort.Order.{DirEntry, Distances, Span, getdist, getdelta, before, reverse_range}
use binsort.Binsort.Order.Range.{IsSpan}
use binsort.Binsort.Order.Places.{place, before-place}
use binsort.Binsort.Order.Reverse.{span_last}
use binsort.Binsort.Order.Delta.{IsSymmetric, IsIndexed, reverse_range-getdelta}
use binsort.Binsort.Ranges
use binsort.Binsort.Ranges.{all_clear}
use binsort.Binsort.Ranges.Disjoint.{Covers}
use binsort.Binsort.Optimise.{Reversal, Shared, rangelock, begin_reversal, accept_range, try_range}
use binsort.Binsort.Optimise.Apart.{Covers-next, Covers-before}
use binsort.Binsort.Optimise.Commute.{IsUnderWay, finish, swap-IsIndexed}
use binsort.Binsort.Optimise.Completed.{
  completed, AllUnderWay, IsClear, IsEdge, IsEdge-of_IsClear, completed-append, completed_kept,
  completed-swap, completed-IsIndexed, IsClear-of_all, AllUnderWay-append,
}

-- What holds between the steps: the ranges are as the locked list allows, each is under way, every file has
-- no index or one of a row, and the kept distance is that of the order once all ranges are reversed.
pub record IsConsistent (dist : Distances) (num : ℕ) (s : Shared) : Type 0 where
  pub locks : Ranges.Reachable (map rangelock s.ranges)
  pub under_way : AllUnderWay num s.ranges
  pub rows : IsIndexed dist s.order num
  pub exact : pos (getdist dist (completed num s.ranges s.order) num).0 ≡ s.distance

pub rangelock-append :
    (js ks : List Reversal) → map rangelock (js ++ ks) ≡ map rangelock js ++ map rangelock ks
rangelock-append js ks = map-append rangelock js ks

Covers-first : (i0 i1 : ℕ) → Covers i0 i1 i0
Covers-first i0 i1 = ground arith

Covers-last : (i0 i1 : ℕ) → Covers i0 i1 i1
Covers-last i0 i1 = ground arith

-- The position behind one that is clear of all ranges is an edge of them.
next-IsEdge :
    (num : ℕ) (js : List Reversal) (x : ℕ)
    → AllUnderWay num js
    → x < num
    → IsClear x js
    → IsEdge ((x + 1) % num) js
next-IsEdge num [] x u h c = tt
next-IsEdge num (j ∷ js) x u h c = (
  elim (ℕ_discrete ((x + 1) % num) j.span.i0) [
    | yes e ↦ inl e
    | no ne ↦ inr (inr (λ d. ne (Covers-next num j.span u.0.span x h c.0 d)))
  ],
  next-IsEdge num js x u.1 h c.1,
)

before-IsEdge :
    (num : ℕ) (js : List Reversal) (x : ℕ)
    → AllUnderWay num js
    → x < num
    → IsClear x js
    → IsEdge (before num x) js
before-IsEdge num [] x u h c = tt
before-IsEdge num (j ∷ js) x u h c = (
  elim (ℕ_discrete (before num x) j.span.i1) [
    | yes e ↦ inr (inl e)
    | no ne ↦ inr (inr (λ d. ne (Covers-before num j.span u.0.span x h c.0 d)))
  ],
  before-IsEdge num js x u.1 h c.1,
)

getdelta-cong :
    (o o' : Cells DirEntry) (dist : Distances) (i0 i1 i00 i11 : ℕ)
    → o' i0 ≡ o i0
    → o' i1 ≡ o i1
    → o' i00 ≡ o i00
    → o' i11 ≡ o i11
    → getdelta o' dist i0 i1 i00 i11 ≡ getdelta o dist i0 i1 i00 i11
unfolding getdelta
getdelta-cong o o' dist i0 i1 i00 i11 a b c d = rw (a, b, c, d) refl

-- A range of more than three files is under way once its ends are exchanged.
pub begin-IsUnderWay :
    (num : ℕ) (r : Span) → IsSpan num r → 3 < r.n → IsUnderWay num (begin_reversal num r)
unfolding begin_reversal
begin-IsUnderWay num r s h =
    let last : suc (r.n - 2) ≡ r.n - 1 = omega arith in
    record {
      span = s;
      from_left = 1;
      from_right = r.n - 2;
      some_done = omega arith;
      mirrored = omega arith;
      rest = omega arith;
      at_p = refl;
      at_q =
          ap (before num) (span_last num r s ∙ ap (place num r.i0) (sym last))
          ∙ before-place num r.i0 s.first (r.n - 2) (omega (arith, s.half));
    }

module _ (dist : Distances) (num : ℕ) (s : Shared) (r : Span) (span : IsSpan num r)
    (clear : all_clear (map rangelock s.ranges) r.i0 r.i1 ≡ true)
    (inv : IsConsistent dist num s) where
  abbrev whole : Cells DirEntry
  whole = completed num s.ranges s.order

  first-IsClear : IsClear r.i0 s.ranges
  first-IsClear = IsClear-of_all s.ranges r.i0 r.i1 r.i0 clear (Covers-first r.i0 r.i1)

  last-IsClear : IsClear r.i1 s.ranges
  last-IsClear = IsClear-of_all s.ranges r.i0 r.i1 r.i1 clear (Covers-last r.i0 r.i1)

  abbrev delta : Cells DirEntry → ℤ
  delta o = getdelta o dist r.i0 r.i1 (before num r.i0) ((r.i1 + 1) % num)

  -- The change is the same for the order once all ranges are reversed.
  delta-whole : delta whole ≡ delta s.order
  delta-whole =
      let kept = λ (x : ℕ) (h : x < num) (e : IsEdge x s.ranges).
        completed_kept num s.ranges s.order x inv.under_way h e in
      getdelta-cong s.order whole dist r.i0 r.i1 (before num r.i0) ((r.i1 + 1) % num)
        (kept r.i0 span.first (IsEdge-of_IsClear r.i0 s.ranges first-IsClear))
        (kept r.i1 span.last (IsEdge-of_IsClear r.i1 s.ranges last-IsClear))
        (kept (before num r.i0) (ground (arith, span.first))
          (before-IsEdge num s.ranges r.i0 inv.under_way span.first first-IsClear))
        (kept ((r.i1 + 1) % num) (mod-lt (r.i1 + 1) (omega (arith, span.last)))
          (next-IsEdge num s.ranges r.i1 inv.under_way span.last last-IsClear))

  swapped_whole : completed num s.ranges (swap s.order r.i0 r.i1) ≡ swap whole r.i0 r.i1
  swapped_whole =
      completed-swap num s.ranges s.order r.i0 r.i1 inv.under_way first-IsClear last-IsClear

  -- The accepted range is reversed in the order once all ranges are.
  accepted_whole :
      completed num
        (accept_range num s r (delta s.order)).ranges
        (accept_range num s r (delta s.order)).order
      ≡ reverse_range whole num r
  unfolding accept_range reverse_range completed begin_reversal
  accepted_whole = elim (Bool-cases (ltb 3 r.n)) [
    | inl long ↦ rw long (
        completed-append num s.ranges (begin_reversal num r ∷ []) (swap s.order r.i0 r.i1)
        ∙ ap (λ o. finish num (begin_reversal num r) o) swapped_whole)
    | inr short ↦ rw short swapped_whole
  ]

  accepted_distance : (accept_range num s r (delta s.order)).distance ≡ s.distance +ℤ delta s.order
  unfolding accept_range
  accepted_distance = elim (Bool-cases (ltb 3 r.n)) [
    | inl long ↦ rw long refl
    | inr short ↦ rw short refl
  ]

  accepted_order : (accept_range num s r (delta s.order)).order ≡ swap s.order r.i0 r.i1
  unfolding accept_range
  accepted_order = elim (Bool-cases (ltb 3 r.n)) [
    | inl long ↦ rw long refl
    | inr short ↦ rw short refl
  ]

  accepted_ranges :
      Ranges.Reachable (map rangelock (accept_range num s r (delta s.order)).ranges)
      × AllUnderWay num (accept_range num s r (delta s.order)).ranges
  unfolding accept_range begin_reversal
  accepted_ranges = elim (Bool-cases (ltb 3 r.n)) [
    | inr short ↦ rw short (inv.locks, inv.under_way)
    | inl long ↦
        let b = begin_reversal num r in
        let entered : Ranges.Reachable (map rangelock s.ranges ++ (rangelock b ∷ [])) =
          Ranges.next _ _ inv.locks (Ranges.enter (map rangelock s.ranges) (rangelock b) clear) in
        rw long (
          rw (rangelock-append s.ranges (b ∷ [])) entered,
          AllUnderWay-append num s.ranges (b ∷ []) inv.under_way
              (begin-IsUnderWay num r span (ground arith), tt),
        )
  ]

  accept-IsConsistent :
      IsSymmetric dist → IsConsistent dist num (accept_range num s r (delta s.order))
  accept-IsConsistent sym_dist =
      let rows = completed-IsIndexed num s.ranges dist s.order inv.under_way inv.rows in
      record {
        locks = accepted_ranges.0;
        under_way = accepted_ranges.1;
        rows =
            rw accepted_order
              (swap-IsIndexed dist s.order num r.i0 r.i1 inv.rows span.first span.last);
        exact =
            ap (λ o. pos (getdist dist o num).0) accepted_whole
            ∙ reverse_range-getdelta dist whole num r span sym_dist rows
            ∙ ap (λ d. pos (getdist dist whole num).0 +ℤ d) delta-whole
            ∙ ap (λ d. d +ℤ delta s.order) inv.exact
            ∙ sym accepted_distance;
      }

-- An attempt at a range keeps the state consistent, whether it is accepted, refused, or waits.
pub attempt-IsConsistent :
    (dist : Distances) (num : ℕ) (s s' : Shared) (r : Span) (accept : ℤ → Bool)
    → IsSymmetric dist
    → IsSpan num r
    → IsConsistent dist num s
    → try_range dist num accept s r ≡ some s'
    → IsConsistent dist num s'
unfolding try_range
attempt-IsConsistent dist num s s' r accept sym_dist span inv e =
    let delta = getdelta s.order dist r.i0 r.i1 (before num r.i0) ((r.i1 + 1) % num) in
    elim (Bool-cases (all_clear (map rangelock s.ranges) r.i0 r.i1)) [
      | inr taken ↦ let again = rw taken at e in absurd cc
      | inl clear ↦ elim (Bool-cases (accept delta)) [
        | inl accepted ↦
            rw (some-injective _ s' (rw (clear, accepted) at e)) at
              (accept-IsConsistent dist num s r span clear inv sym_dist)
        | inr refused ↦ rw (some-injective s s' (rw (clear, refused) at e)) at inv
      ]
    ]
