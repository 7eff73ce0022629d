-- ===== src/Binsort/Optimise/Permute.antt =====
-- No file is lost or doubled, in any order of the steps of the workers.
use mathlib.Core.Option.{some-injective}
use binsort.Base.{
  ℕ, ◌+◌, ◌%◌, ◌<◌, ◌≡◌, refl, ◌∙◌, Bool, some, [], ◌∷◌, ◌++◌, map, Cells, swap, Bool-cases, inl,
  inr, ltb, ◌==◌, if◌then◌else◌, arith,
}
use binsort.Base.Int.{ℤ}
use binsort.Binsort.Order.{DirEntry, Distances, Span, getdelta, before}
use binsort.Binsort.Order.Range.{IsSpan, choose_range-IsSpan}
use binsort.Binsort.Ranges.{all_clear}
use binsort.Binsort.Optimise.Commute.{at-lt, advance-IsUnderWay}
use binsort.Binsort.Optimise.Completed.{AllUnderWay, AllUnderWay-append, AllUnderWay-split}
use binsort.Binsort.Optimise.Accept.{begin-IsUnderWay}
use binsort.Binsort.Optimise.{
  Shared, rangelock, begin_reversal, accept_range, try_range, advance, Step, attempt, exchange,
  remove, Reachable, start, next,
}

-- `o'` has the first `num` files of `o` in another order: its `i`-th is the `from i`-th of `o`, and no file of
-- `o` stands twice.
pub record IsReordered (num : ℕ) (o o' : Cells DirEntry) : Type 0 where
  pub from : ℕ → ℕ
  pub inside : (i : ℕ) → i < num → from i < num
  pub once : (i j : ℕ) → i < num → j < num → from i ≡ from j → i ≡ j
  pub same : (i : ℕ) → i < num → o' i ≡ o (from i)

pub IsReordered-refl : (num : ℕ) (o : Cells DirEntry) → IsReordered num o o
IsReordered-refl num o = record {
  from = λ i. i;
  inside = λ i h. h;
  once = λ i j h k e. e;
  same = λ i h. refl;
}

pub IsReordered-trans :
    {num : ℕ} {o o' o'' : Cells DirEntry}
    → IsReordered num o o'
    → IsReordered num o' o''
    → IsReordered num o o''
IsReordered-trans f g = record {
  from = λ i. f.from (g.from i);
  inside = λ i h. f.inside (g.from i) (g.inside i h);
  once = λ i j h k e. g.once i j h k (f.once (g.from i) (g.from j) (g.inside i h) (g.inside j k) e);
  same = λ i h. g.same i h ∙ f.same (g.from i) (g.inside i h);
}

abbrev exchanged : ℕ → ℕ → ℕ → ℕ
exchanged p q i = if i == q then p else if i == p then q else i

swap-IsReordered :
    (num : ℕ) (o : Cells DirEntry) (p q : ℕ) → p < num → q < num → IsReordered num o (swap o p q)
swap-IsReordered num o p q hp hq = record {
  from = exchanged p q;
  inside = λ i h. ground arith;
  once = λ i j h k e. ground arith;
  same = λ i h. ground arith;
}

-- Whether it has more than three files or not, an accepted range has its ends exchanged, and all ranges
-- stay under way.
module _ (num : ℕ) (s : Shared) (r : Span) (span : IsSpan num r) (delta : ℤ) where
  accept_range-order : (accept_range num s r delta).order ≡ swap s.order r.i0 r.i1
  unfolding accept_range
  accept_range-order = elim (Bool-cases (ltb 3 r.n)) [
    | inl long ↦ rw long refl
    | inr short ↦ rw short refl
  ]

  accept_range-AllUnderWay :
      AllUnderWay num s.ranges → AllUnderWay num (accept_range num s r delta).ranges
  unfolding accept_range
  accept_range-AllUnderWay u = elim (Bool-cases (ltb 3 r.n)) [
    | inl long ↦ rw long (
        AllUnderWay-append num s.ranges (begin_reversal num r ∷ []) u
          (begin-IsUnderWay num r span (ground arith), tt))
    | inr short ↦ rw short u
  ]

-- A state whose ranges are all under way and whose order is a reordering of `o`.
record IsShuffled (num : ℕ) (o : Cells DirEntry) (s : Shared) : Type 0 where
  under_way : AllUnderWay num s.ranges
  order : IsReordered num o s.order

module _ (dist : Distances) (num : ℕ) (o : Cells DirEntry) where
  accept_range-IsShuffled :
      (s : Shared) (r : Span) (delta : ℤ)
      → IsSpan num r
      → IsShuffled num o s
      → IsShuffled num o (accept_range num s r delta)
  accept_range-IsShuffled s r delta span inv = record {
    under_way = accept_range-AllUnderWay num s r span delta inv.under_way;
    order =
        rw (accept_range-order num s r span delta) (
          IsReordered-trans inv.order
            (swap-IsReordered num s.order r.i0 r.i1 span.first span.last));
  }

  attempt-IsShuffled :
      (s s' : Shared) (r : Span) (accept : ℤ → Bool)
      → IsSpan num r
      → IsShuffled num o s
      → try_range dist num accept s r ≡ some s'
      → IsShuffled num o s'
  unfolding try_range
  attempt-IsShuffled s s' r accept span inv e =
      let delta = getdelta s.order dist r.i0 r.i1 (before num r.i0) ((r.i1 + 1) % num) in
      elim (Bool-cases (all_clear (map rangelock s.ranges) r.i0 r.i1)) [
        | inr taken ↦ let again = rw taken at e in absurd cc
        | inl clear ↦ elim (Bool-cases (accept delta)) [
          | inl accepted ↦
              rw (some-injective _ s' (rw (clear, accepted) at e)) at
                (accept_range-IsShuffled s r delta span inv)
          | inr refused ↦ rw (some-injective s s' (rw (clear, refused) at e)) at inv
        ]
      ]

  step-IsShuffled : (s s' : Shared) → Step dist num s s' → IsShuffled num o s → IsShuffled num o s'
  unfolding advance
  step-IsShuffled s s' (attempt i0 i1 r accept h0 h1 chosen tried) inv =
      attempt-IsShuffled s s' r accept (choose_range-IsSpan num i0 i1 h0 h1 chosen) inv tried
  step-IsShuffled s s' (exchange left front j behind at e made) inv =
      let (before_j, (u, after_j)) =
        AllUnderWay-split num front (j ∷ behind) (rw at at inv.under_way) in
      let moved : IsShuffled num o (record s {
        order = swap s.order j.p j.q;
        ranges = front ++ (advance num left j ∷ behind);
      }) =
        record {
          under_way =
              AllUnderWay-append num front (advance num left j ∷ behind) before_j
                (advance-IsUnderWay num j u left e, after_j);
          order =
              IsReordered-trans inv.order
                (swap-IsReordered num s.order j.p j.q (at-lt num j u).0 (at-lt num j u).1);
        } in
      rw made moved
  step-IsShuffled s s' (remove front j behind at e made) inv =
      let (before_j, (u, after_j)) =
        AllUnderWay-split num front (j ∷ behind) (rw at at inv.under_way) in
      let gone : IsShuffled num o (record s { ranges = front ++ behind }) = record {
        under_way = AllUnderWay-append num front behind before_j after_j;
        order = inv.order;
      } in
      rw made gone

  Reachable-IsShuffled :
      {s t : Shared} → IsShuffled num o s → Reachable dist num s t → IsShuffled num o t
  Reachable-IsShuffled inv start = inv
  Reachable-IsShuffled inv (next r step) = step-IsShuffled _ _ step (Reachable-IsShuffled inv r)

-- Workers that start with no range under way only reorder the files: at each moment, with ranges under way
-- or without, each of the first files of the array is one of those at the start, and none is there twice.
pub workers_reorder :
    (dist : Distances) (num : ℕ) (s t : Shared)
    → s.ranges ≡ []
    → Reachable dist num s t
    → IsReordered num s.order t.order
workers_reorder dist num s t none_yet reached =
    let inv : IsShuffled num s.order s = record {
      under_way = rw none_yet tt;
      order = IsReordered-refl num s.order;
    } in
    (Reachable-IsShuffled dist num s.order inv reached).order
