-- ===== src/Binsort/Optimise/Exact.antt =====
-- The distance that the workers keep is exact, in every order of their steps.
use binsort.Base.{ℕ, suc, ◌≡◌, refl, sym, ap, ◌∙◌, List, [], ◌∷◌, ◌++◌, map, Cells, swap}
use binsort.Base.Int.{ℤ, pos}
use binsort.Binsort.Order.{DirEntry, Distances, getdist, reverse_loop}
use binsort.Binsort.Order.Range.{choose_range-IsSpan}
use binsort.Binsort.Order.Delta.{IsSymmetric, IsIndexed}
use binsort.Binsort.Ranges
use binsort.Binsort.Ranges.{all_clear}
use binsort.Binsort.Ranges.Disjoint.{AllApart, Reachable-AllApart}
use binsort.Binsort.Optimise.{
  Reversal, Shared, rangelock, advance, Step, attempt, exchange, remove, Reachable, start, next,
}
use binsort.Binsort.Optimise.Commute.{finish, swap-IsIndexed, at_covered, at-lt, advance-IsUnderWay}
use binsort.Binsort.Optimise.Completed.{
  completed, completed-append, completed-swap, apart_before, AllUnderWay-append, AllUnderWay-split,
}
use binsort.Binsort.Optimise.Accept.{IsConsistent, rangelock-append, attempt-IsConsistent}

-- What the next exchange makes of the rest of its reversal.
finish-advance :
    (num left : ℕ) (j : Reversal) (o : Cells DirEntry)
    → j.left ≡ suc left
    → finish num (advance num left j) (swap o j.p j.q) ≡ finish num j o
unfolding advance reverse_loop
finish-advance num left j o e = ap (λ k. reverse_loop k o num j.p j.q) (sym e)

finish_none : (num : ℕ) (j : Reversal) (o : Cells DirEntry) → j.left ≡ 0 → finish num j o ≡ o
unfolding reverse_loop
finish_none num j o e = ap (λ k. reverse_loop k o num j.p j.q) e

completed-middle :
    (num : ℕ) (front : List Reversal) (j : Reversal) (behind : List Reversal) (o : Cells DirEntry)
    → completed num (front ++ (j ∷ behind)) o
      ≡ completed num behind (finish num j (completed num front o))
unfolding completed
completed-middle num front j behind o = completed-append num front (j ∷ behind) o

module _ (dist : Distances) (num : ℕ) (order : Cells DirEntry) (distance : ℤ)
    (front : List Reversal) (j : Reversal) (behind : List Reversal) where
  abbrev at_work : Shared
  at_work = record { order = order; ranges = front ++ (j ∷ behind); distance = distance }

  moved_locks :
      (left : ℕ)
      → map rangelock (front ++ (advance num left j ∷ behind))
        ≡ map rangelock (front ++ (j ∷ behind))
  unfolding advance
  moved_locks left =
      rangelock-append front (advance num left j ∷ behind)
      ∙ sym (rangelock-append front (j ∷ behind))

  exchange-IsConsistent :
      (left : ℕ)
      → j.left ≡ suc left
      → IsConsistent dist num at_work
      → IsConsistent dist num (record {
        order = swap order j.p j.q;
        ranges = front ++ (advance num left j ∷ behind);
        distance = distance;
      })
  exchange-IsConsistent left e inv =
      let (before_j, (u, after_j)) = AllUnderWay-split num front (j ∷ behind) inv.under_way in
      let (cp, cq) = at_covered num j u in
      let (lp, lq) = at-lt num j u in
      let locked : AllApart (map rangelock front ++ (rangelock j ∷ map rangelock behind)) =
        rw (rangelock-append front (j ∷ behind)) at (Reachable-AllApart inv.locks) in
      let clear_p = apart_before front j (map rangelock behind) j.p locked cp in
      let clear_q = apart_before front j (map rangelock behind) j.q locked cq in
      let same : completed num (front ++ (advance num left j ∷ behind)) (swap order j.p j.q)
          ≡ completed num (front ++ (j ∷ behind)) order =
        completed-middle num front (advance num left j) behind (swap order j.p j.q)
        ∙ ap (λ o. completed num behind (finish num (advance num left j) o))
            (completed-swap num front order j.p j.q before_j clear_p clear_q)
        ∙ ap (completed num behind) (finish-advance num left j (completed num front order) e)
        ∙ sym (completed-middle num front j behind order) in
      record {
        locks = rw (moved_locks left) inv.locks;
        under_way =
            AllUnderWay-append num front (advance num left j ∷ behind) before_j
              (advance-IsUnderWay num j u left e, after_j);
        rows = swap-IsIndexed dist order num j.p j.q inv.rows lp lq;
        exact = ap (λ o. pos (getdist dist o num).0) same ∙ inv.exact;
      }

  remove-IsConsistent :
      j.left ≡ 0
      → IsConsistent dist num at_work
      → IsConsistent dist num
          (record { order = order; ranges = front ++ behind; distance = distance })
  remove-IsConsistent e inv =
      let (before_j, (u, after_j)) = AllUnderWay-split num front (j ∷ behind) inv.under_way in
      let same : completed num (front ++ behind) order
          ≡ completed num (front ++ (j ∷ behind)) order =
        completed-append num front behind order
        ∙ ap (completed num behind) (sym (finish_none num j (completed num front order) e))
        ∙ sym (completed-middle num front j behind order) in
      record {
        locks =
            let before_locks = rw (rangelock-append front (j ∷ behind)) at inv.locks in
            rw (rangelock-append front behind) (
              Ranges.next _ _ before_locks
                (Ranges.leave (map rangelock front) (rangelock j) (map rangelock behind)));
        under_way = AllUnderWay-append num front behind before_j after_j;
        rows = inv.rows;
        exact = ap (λ o. pos (getdist dist o num).0) same ∙ inv.exact;
      }

at_ranges :
    (dist : Distances) (num : ℕ) (s : Shared) (js : List Reversal)
    → s.ranges ≡ js
    → IsConsistent dist num s
    → IsConsistent dist num (record s { ranges = js })
at_ranges dist num s js e inv = record {
  locks = rw e at inv.locks;
  under_way = rw e at inv.under_way;
  rows = inv.rows;
  exact = ap (λ js. pos (getdist dist (completed num js s.order) num).0) (sym e) ∙ inv.exact;
}

step-IsConsistent :
    {dist : Distances} {num : ℕ} {s s' : Shared}
    → IsSymmetric dist
    → Step dist num s s'
    → IsConsistent dist num s
    → IsConsistent dist num s'
step-IsConsistent {dist} {num} {s} {s'} sym_dist (attempt i0 i1 r accept h0 h1 chosen tried) inv =
    attempt-IsConsistent dist num s s' r accept sym_dist
      (choose_range-IsSpan num i0 i1 h0 h1 chosen) inv tried
step-IsConsistent {dist} {num} {s} {s'} sym_dist (exchange left front j behind at e made) inv =
    rw made (
      exchange-IsConsistent dist num s.order s.distance front j behind left e
        (at_ranges dist num s (front ++ (j ∷ behind)) at inv))
step-IsConsistent {dist} {num} {s} {s'} sym_dist (remove front j behind at e made) inv = rw made (
    remove-IsConsistent dist num s.order s.distance front j behind e
      (at_ranges dist num s (front ++ (j ∷ behind)) at inv))

-- In every order of the steps of the workers, the distance that they keep is that of the order once all
-- ranges under way are reversed, if it was so at the start, the distances are symmetric, and every file has
-- no index or one of a row.
pub Reachable-IsConsistent :
    {dist : Distances} {num : ℕ} {s t : Shared}
    → IsSymmetric dist
    → IsConsistent dist num s
    → Reachable dist num s t
    → IsConsistent dist num t
Reachable-IsConsistent sym_dist inv start = inv
Reachable-IsConsistent sym_dist inv (next r step) =
    step-IsConsistent sym_dist step (Reachable-IsConsistent sym_dist inv r)

-- When workers that started with the distance of the order have no range under way, the distance that
-- they keep is that of the order that they have made, whatever the order of their steps and whatever
-- thresholds they had, if the distances are symmetric and every file has no index or one of a row.
pub workers_distance :
    (dist : Distances) (num : ℕ) (o : Cells DirEntry) (t : Shared)
    → IsSymmetric dist
    → IsIndexed dist o num
    → Reachable dist num
        (record { order = o; ranges = []; distance = pos (getdist dist o num).0 })
        t
    → t.ranges ≡ []
    → t.distance ≡ pos (getdist dist t.order num).0
unfolding completed
workers_distance dist num o t sym_dist rows reached done =
    let first : IsConsistent dist num
        (record { order = o; ranges = []; distance = pos (getdist dist o num).0 }) =
      record { locks = Ranges.start; under_way = tt; rows = rows; exact = refl } in
    let last = Reachable-IsConsistent sym_dist first reached in
    sym last.exact ∙ ap (λ js. pos (getdist dist (completed num js t.order) num).0) done
