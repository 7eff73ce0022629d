-- ===== src/Binsort/Ranges.antt =====
-- The list of ranges that workers are reversing, which binsort_worker_optimize keeps under its lock.
use binsort.Base.{ℕ, Bool, true, false, ◌&&◌, ◌||◌, List, [], ◌∷◌, ◌++◌, ◌≡◌, ltb, if◌then◌else◌}
pub mod Disjoint

-- `struct RangeNode`
pub record RangeNode : Type 0 where
  pub first : ℕ
  pub last : ℕ

-- Whether the loop over the list goes on at a range `rn`, for a new range from `i0` round to `i1`.
unfoldable pub clear_of : RangeNode → ℕ → ℕ → Bool
clear_of rn i0 i1 =
    let a = rn.first in
    let b = rn.last in
    if ltb a b
    then if ltb i0 i1 then ltb i1 a || ltb b i0 else ltb i1 a && ltb b i0
    else ltb i0 i1 && ltb b i0 && ltb b i1 && ltb i1 a && ltb i0 a

-- Whether the loop comes to the end of the list.
unfoldable pub all_clear : List RangeNode → ℕ → ℕ → Bool
all_clear [] i0 i1 = true
all_clear (rn ∷ rest) i0 i1 =
    let more = all_clear rest i0 i1 in if clear_of rn i0 i1 then more else false

-- What a worker does to the list with the lock held: it enters a range that is clear of all others, and
-- takes it out again when it has reversed it. (A range of at most three files is reversed with the
-- lock held, and never entered.)
pub data Step : List RangeNode → List RangeNode → Type 0 where
  enter :
      (rs : List RangeNode) (rn : RangeNode)
      → all_clear rs rn.first rn.last ≡ true
      → Step rs (rs ++ rn ∷ [])
  leave :
      (before : List RangeNode) (rn : RangeNode) (behind : List RangeNode)
      → Step (before ++ rn ∷ behind) (before ++ behind)

-- The lists that any workers reach from the empty one, in any order of their steps.
pub data Reachable : List RangeNode → Type 0 where
  start : Reachable []
  next : (rs rs' : List RangeNode) → Reachable rs → Step rs rs' → Reachable rs'
