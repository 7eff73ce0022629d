-- ===== src/Binsort/Ranges/Disjoint.antt =====
-- Workers never reverse ranges that share a position.
use binsort.Base.{ℕ, ◌≤◌, ◌<◌, ◌≡◌, ◌⊎◌, inl, inr, true, List, [], ◌∷◌, ◌++◌, Bool-cases, arith}
use binsort.Binsort.Ranges.{RangeNode, clear_of, all_clear, enter, leave, Reachable, start, next}

-- The position `p` is in the range from `i0` round to `i1`.
abbrev pub Covers : ℕ → ℕ → ℕ → Type 0
Covers i0 i1 p = ((i0 ≤ i1) × (i0 ≤ p) × (p ≤ i1)) ⊎ ((i1 < i0) × ((i0 ≤ p) ⊎ (p ≤ i1)))

abbrev pub AreApart : RangeNode → RangeNode → Type 0
AreApart r q = (p : ℕ) → Covers r.first r.last p → ¬ Covers q.first q.last p

abbrev pub IsApart : RangeNode → List RangeNode → Type 0
IsApart r [] = Unit {0}
IsApart r (q ∷ qs) = AreApart q r × IsApart r qs

-- No two ranges of the list share a position.
abbrev pub AllApart : List RangeNode → Type 0
AllApart [] = Unit {0}
AllApart (r ∷ rs) = IsApart r rs × AllApart rs

-- A range that the test passes has no position in common with the range on the list.
pub clear_of-apart :
    (rn : RangeNode) (i0 i1 p : ℕ)
    → clear_of rn i0 i1 ≡ true
    → Covers rn.first rn.last p
    → ¬ Covers i0 i1 p
unfolding clear_of
clear_of-apart rn i0 i1 p clear c d = ground arith

AreApart-sym : (r q : RangeNode) → AreApart r q → AreApart q r
AreApart-sym r q apart p c d = apart p d c

IsApart-snoc :
    (r : RangeNode) (qs : List RangeNode) (rn : RangeNode)
    → IsApart r qs
    → AreApart rn r
    → IsApart r (qs ++ rn ∷ [])
IsApart-snoc r [] rn a new = (new, tt)
IsApart-snoc r (q ∷ qs) rn a new = (a.0, IsApart-snoc r qs rn a.1 new)

IsApart-remove :
    (r : RangeNode) (before : List RangeNode) (rn : RangeNode) (behind : List RangeNode)
    → IsApart r (before ++ rn ∷ behind)
    → IsApart r (before ++ behind)
IsApart-remove r [] rn behind a = a.1
IsApart-remove r (q ∷ before) rn behind a = (a.0, IsApart-remove r before rn behind a.1)

append-AllApart :
    (rs : List RangeNode) (rn : RangeNode)
    → AllApart rs
    → all_clear rs rn.first rn.last ≡ true
    → AllApart (rs ++ rn ∷ [])
unfolding all_clear
append-AllApart [] rn a clear = (tt, tt)
append-AllApart (r ∷ rs) rn a clear = elim (Bool-cases (clear_of r rn.first rn.last)) [
  | inr taken ↦ absurd (ground arith)
  | inl free ↦
      let apart : AreApart r rn = λ p. clear_of-apart r rn.first rn.last p free in
      let rest : all_clear rs rn.first rn.last ≡ true = ground arith in
      (IsApart-snoc r rs rn a.0 (AreApart-sym r rn apart), append-AllApart rs rn a.1 rest)
]

remove-AllApart :
    (before : List RangeNode) (rn : RangeNode) (behind : List RangeNode)
    → AllApart (before ++ rn ∷ behind)
    → AllApart (before ++ behind)
remove-AllApart [] rn behind a = a.1
remove-AllApart (r ∷ before) rn behind a =
    (IsApart-remove r before rn behind a.0, remove-AllApart before rn behind a.1)

-- In every order of the steps of the workers on the locked list, no two ranges being reversed share a
-- position.
pub Reachable-AllApart : {rs : List RangeNode} → Reachable rs → AllApart rs
Reachable-AllApart start = tt
Reachable-AllApart (next _ _ r (enter rs rn clear)) =
    append-AllApart rs rn (Reachable-AllApart r) clear
Reachable-AllApart (next _ _ r (leave before rn behind)) =
    remove-AllApart before rn behind (Reachable-AllApart r)
