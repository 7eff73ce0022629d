-- ===== src/Binsort/Optimise.antt =====
-- The workers of binsort_worker_optimize on the order that they share.
-- A worker's attempt at a range is one step: it happens with the lock held. So is each exchange of two
-- files in a range that is under way, which happens without the lock, and the end of a range, with it.
-- The threshold, computed in floating point, is a test on the change of the distance, and may be any.
-- (Nothing else is written between the reads and writes of one exchange that concerns its two places.)
pub mod Apart
pub mod Commute
pub mod Completed
pub mod Accept
pub mod Exact
pub mod Permute
use binsort.Base.{
  ℕ, zero, suc, ◌+◌, ◌-◌, ◌/◌, ◌%◌, ◌<◌, ◌≡◌, Bool, Option, none, some, List, [], ◌∷◌, ◌++◌, map,
  Cells, swap, ltb, if◌then◌else◌,
}
use binsort.Base.Int.{ℤ, ◌+ℤ◌}
use binsort.Binsort.Order.{DirEntry, Distances, Span, getdelta, before, choose_range, reverse_loop}
use binsort.Binsort.Ranges.{RangeNode, all_clear}

-- A range under way, in a worker's local variables: the next exchange is of `p` and `q`, and `left`
-- exchanges are left.
pub record Reversal : Type 0 where
  pub span : Span
  pub p : ℕ
  pub q : ℕ
  pub left : ℕ

-- `b_Order`, `b_RangeList` with the variables of the workers it belongs to, and `b_CurrentDistance`.
pub record Shared : Type 0 where
  pub order : Cells DirEntry
  pub ranges : List Reversal
  pub distance : ℤ

-- `rn_First` and `rn_Last`
abbrev pub rangelock : Reversal → RangeNode
rangelock j = record { first = j.span.i0; last = j.span.i1 }

-- A range of more than three files once its ends are exchanged.
unfoldable pub begin_reversal : ℕ → Span → Reversal
begin_reversal num r = record {
  span = r;
  p = (r.i0 + 1) % num;
  q = before num r.i1;
  left = r.n / 2 - 1;
}

-- What an accepted range does before the lock is given back.
unfoldable pub accept_range : ℕ → Shared → Span → ℤ → Shared
accept_range num s r delta =
    let order' = swap s.order r.i0 r.i1 in
    let distance' = s.distance +ℤ delta in
    if ltb 3 r.n
    then record {
      order = order';
      ranges = s.ranges ++ begin_reversal num r ∷ [];
      distance = distance';
    }
    else record s { order = order'; distance = distance' }

-- The attempt at a range, from taking the lock to giving it back; `none` is `goto again`.
unfoldable pub try_range : Distances → ℕ → (ℤ → Bool) → Shared → Span → Option Shared
try_range dist num accept s r =
    let delta = getdelta s.order dist r.i0 r.i1 (before num r.i0) ((r.i1 + 1) % num) in
    if all_clear (map rangelock s.ranges) r.i0 r.i1
    then some (if accept delta then accept_range num s r delta else s)
    else none

-- One exchange, after which both places move on.
unfoldable pub advance : ℕ → ℕ → Reversal → Reversal
advance num left j = record j { p = (j.p + 1) % num; q = before num j.q; left = left }

-- A step of some worker from `s` to `s'`.
pub data Step (dist : Distances) (num : ℕ) (s s' : Shared) : Type 0 where
  attempt :
      (i0 i1 : ℕ) (r : Span) (accept : ℤ → Bool)
      → i0 < num
      → i1 < num
      → choose_range num i0 i1 ≡ some r
      → try_range dist num accept s r ≡ some s'
      → Step dist num s s'
  exchange :
      (left : ℕ) (front : List Reversal) (j : Reversal) (behind : List Reversal)
      → s.ranges ≡ front ++ (j ∷ behind)
      → j.left ≡ suc left
      → s'
        ≡ record s { order = swap s.order j.p j.q; ranges = front ++ (advance num left j ∷ behind) }
      → Step dist num s s'
  remove :
      (front : List Reversal) (j : Reversal) (behind : List Reversal)
      → s.ranges ≡ front ++ (j ∷ behind)
      → j.left ≡ 0
      → s' ≡ record s { ranges = front ++ behind }
      → Step dist num s s'

-- The states that the workers reach from `s`, in any order of their steps.
pub data Reachable (dist : Distances) (num : ℕ) (s : Shared) : Shared → Type 0 where
  start : Reachable dist num s s
  next : {t u : Shared} → Reachable dist num s t → Step dist num t u → Reachable dist num s u
