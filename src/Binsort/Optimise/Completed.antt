-- ===== src/Binsort/Optimise/Completed.antt =====
-- The order as it will be when all ranges under way are reversed.
use binsort.Base.{
  ℕ, ◌<◌, ◌≡◌, ◌⊎◌, refl, ap, ◌∙◌, inl, inr, true, List, [], ◌∷◌, ◌++◌, map, Cells, swap,
  Bool-cases, arith,
}
use binsort.Binsort.Order.{DirEntry, Distances}
use binsort.Binsort.Order.Delta.{IsIndexed}
use binsort.Binsort.Ranges.{RangeNode, clear_of, all_clear}
use binsort.Binsort.Ranges.Disjoint.{Covers, AllApart, IsApart, clear_of-apart}
use binsort.Binsort.Optimise.{Reversal, rangelock}
use binsort.Binsort.Optimise.Commute.{
  IsUnderWay, finish, finish_kept, finish-swap, finish-IsIndexed,
}

unfoldable pub completed : ℕ → List Reversal → Cells DirEntry → Cells DirEntry
completed num [] o = o
completed num (j ∷ js) o = completed num js (finish num j o)

abbrev pub AllUnderWay : ℕ → List Reversal → Type 0
AllUnderWay num [] = Unit {0}
AllUnderWay num (j ∷ js) = IsUnderWay num j × AllUnderWay num js

-- No range covers the position.
abbrev pub IsClear : ℕ → List Reversal → Type 0
IsClear x [] = Unit {0}
IsClear x (j ∷ js) = (¬ Covers j.span.i0 j.span.i1 x) × IsClear x js

-- The position is an end of each range that covers it.
abbrev pub IsEdge : ℕ → List Reversal → Type 0
IsEdge x [] = Unit {0}
IsEdge x (j ∷ js) =
    ((x ≡ j.span.i0) ⊎ (x ≡ j.span.i1) ⊎ (¬ Covers j.span.i0 j.span.i1 x)) × IsEdge x js

pub IsEdge-of_IsClear : (x : ℕ) (js : List Reversal) → IsClear x js → IsEdge x js
IsEdge-of_IsClear x [] c = tt
IsEdge-of_IsClear x (j ∷ js) c = (inr (inr c.0), IsEdge-of_IsClear x js c.1)

pub completed-append :
    (num : ℕ) (js ks : List Reversal) (o : Cells DirEntry)
    → completed num (js ++ ks) o ≡ completed num ks (completed num js o)
unfolding completed
completed-append num [] ks o = refl
completed-append num (j ∷ js) ks o = completed-append num js ks (finish num j o)

pub completed_kept :
    (num : ℕ) (js : List Reversal) (o : Cells DirEntry) (x : ℕ)
    → AllUnderWay num js
    → x < num
    → IsEdge x js
    → completed num js o x ≡ o x
unfolding completed
completed_kept num [] o x u h e = refl
completed_kept num (j ∷ js) o x u h e =
    completed_kept num js (finish num j o) x u.1 h e.1 ∙ finish_kept num j u.0 o x h e.0

pub completed-swap :
    (num : ℕ) (js : List Reversal) (o : Cells DirEntry) (x y : ℕ)
    → AllUnderWay num js
    → IsClear x js
    → IsClear y js
    → completed num js (swap o x y) ≡ swap (completed num js o) x y
unfolding completed
completed-swap num [] o x y u cx cy = refl
completed-swap num (j ∷ js) o x y u cx cy =
    ap (completed num js) (finish-swap num j u.0 o x y cx.0 cy.0)
    ∙ completed-swap num js (finish num j o) x y u.1 cx.1 cy.1

pub completed-IsIndexed :
    (num : ℕ) (js : List Reversal) (dist : Distances) (o : Cells DirEntry)
    → AllUnderWay num js
    → IsIndexed dist o num
    → IsIndexed dist (completed num js o) num
unfolding completed
completed-IsIndexed num [] dist o u rows = rows
completed-IsIndexed num (j ∷ js) dist o u rows =
    completed-IsIndexed num js dist (finish num j o) u.1 (finish-IsIndexed num j u.0 dist o rows)

-- A new range that is clear of all others covers no position of theirs.
pub IsClear-of_all :
    (js : List Reversal) (i0 i1 x : ℕ)
    → all_clear (map rangelock js) i0 i1 ≡ true
    → Covers i0 i1 x
    → IsClear x js
unfolding all_clear
IsClear-of_all [] i0 i1 x clear c = tt
IsClear-of_all (j ∷ js) i0 i1 x clear c = elim (Bool-cases (clear_of (rangelock j) i0 i1)) [
  | inr taken ↦ absurd (ground arith)
  | inl free ↦ (
    λ d. clear_of-apart (rangelock j) i0 i1 x free d c,
    IsClear-of_all js i0 i1 x (ground arith) c,
  )
]

-- What a range covers no range before it does.
pub apart_before :
    (front : List Reversal) (j : Reversal) (behind : List RangeNode) (x : ℕ)
    → AllApart (map rangelock front ++ (rangelock j ∷ behind))
    → Covers j.span.i0 j.span.i1 x
    → IsClear x front
apart_before [] j behind x a c = tt
apart_before (k ∷ front) j behind x a c =
    (λ d. among front a.0 d, apart_before front j behind x a.1 c)
  where
    among :
        (front : List Reversal)
        → IsApart (rangelock k) (map rangelock front ++ (rangelock j ∷ behind))
        → ¬ Covers k.span.i0 k.span.i1 x
    among [] a d = a.0 x c d
    among (l ∷ front) a d = among front a.1 d

pub AllUnderWay-append :
    (num : ℕ) (js ks : List Reversal)
    → AllUnderWay num js
    → AllUnderWay num ks
    → AllUnderWay num (js ++ ks)
AllUnderWay-append num [] ks u v = v
AllUnderWay-append num (j ∷ js) ks u v = (u.0, AllUnderWay-append num js ks u.1 v)

pub AllUnderWay-split :
    (num : ℕ) (js ks : List Reversal)
    → AllUnderWay num (js ++ ks)
    → AllUnderWay num js × AllUnderWay num ks
AllUnderWay-split num [] ks u = (tt, u)
AllUnderWay-split num (j ∷ js) ks u = let (v, w) = AllUnderWay-split num js ks u.1 in ((u.0, v), w)
