-- ===== src/Binsort/Gendistances.antt =====
-- binsort_gendistances: how the rows of the matrix of distances are dealt out to the workers.
-- `floor(sqrt(...))` of a whole number is the parameter `root`: the greatest number whose square is not
-- above it. What `malloc` returns is a parameter. The list of hashes has `b_NumHashes` nodes.
pub mod Root
pub mod Rows
pub mod Answers
pub mod Whole
mod Tests
use binsort.Base.{
  ℕ, zero, suc, ◌+◌, ◌-◌, ◌*◌, ◌/◌, Bool, true, false, Option, none, some, List, [], ◌∷◌, ltb, ◌==◌,
  if◌then◌else◌,
}
use binsort.Simhash.Score.{Score}
use binsort.Base.{Cells}
use binsort.Binsort.Distances.{HashNode, Work, calcdist}

-- `struct HashMessage`: `hm_FirstIndex`, and the row behind `hm_LastIndex`, which would be -1 before row 0.
pub record HashMessage : Type 0 where
  pub first : ℕ
  pub behind : ℕ

-- No more workers than a tenth of the number of hashes, but one.
unfoldable pub limit_workers : ℕ → ℕ → ℕ
limit_workers num numworkers =
    if ltb (num / 10) numworkers then (if ltb (num / 10) 1 then 1 else num / 10) else numworkers

-- `i1 + 1` for message `i`.
unfoldable pub behind_last : (ℕ → ℕ) → ℕ → ℕ → ℕ → ℕ
behind_last root num numworkers i =
    let a0 = num * num / numworkers in if ltb i (numworkers - 1) then root ((i + 1) * a0) else num

-- The loop from row `y` on, with `k` rows left: the messages it sends, the `i`-th first, to the workers
-- of the same numbers.
unfoldable pub send_loop : ℕ → (ℕ → ℕ) → ℕ → ℕ → ℕ → ℕ → ℕ → List HashMessage
send_loop zero root num numworkers y i i0 = []
send_loop (suc k) root num numworkers y i i0 =
    let behind = behind_last root num numworkers i in
    let rest =
      send_loop k root num numworkers (y + 1) (if y == i0 then i + 1 else i)
        (if y == i0 then behind else i0) in
    if y == i0 then record { first = i0; behind = behind } ∷ rest else rest

-- The messages sent, and how many replies are waited for before it returns. (The loop that waits runs
-- although no message was sent when there is no memory for the matrix; `none` is the error for no memory
-- for the messages.)
unfoldable pub send_rows : Bool → Bool → (ℕ → ℕ) → ℕ → ℕ → Option (List HashMessage × ℕ)
send_rows msgs memory root num numworkers =
    let n = limit_workers num numworkers in
    if msgs then some (if memory then send_loop num root num n 0 0 0 else [], n) else none

-- What the workers make of the messages, one after the other.
unfoldable pub answer : List HashMessage → ℕ → (Score → ℕ) → Cells HashNode → Work → Work
answer [] num scale hashes w = w
answer (msg ∷ msgs) num scale hashes w =
    answer msgs num scale hashes (calcdist msg.first (msg.behind - 1) num scale hashes w)
