-- ===== src/Lists.antt =====
-- The doubly linked lists of binsort.c on a store of words.
-- A node at address `n` has `ln_Succ` in word `n` and `ln_Pred` in word `n + 1`; a header at address `h` has
-- `lh_Head`, `lh_Tail` and `lh_TailPred` in words `h`, `h + 1` and `h + 2`, so that `h` and `&list->lh_Tail`,
-- which is `h + 1`, can be read as nodes, as the code does. The null pointer is 0.
pub mod Segment
pub mod Refine
pub mod Drain
pub mod Frame
mod Tests
use binsort.Base.{
  ℕ, zero, suc, ◌+◌, Option, none, some, List, [], ◌∷◌, Cells, update, ◌==◌, if◌then◌else◌,
}

unfoldable pub init_list : ℕ → Cells ℕ → Cells ℕ
init_list h m = let m1 = update m (h + 2) h in let m2 = update m1 (h + 1) 0 in update m2 h (h + 1)

unfoldable pub add_tail : ℕ → ℕ → Cells ℕ → Cells ℕ
add_tail h n m =
    let temp = m (h + 2) in
    let m1 = update m (h + 2) n in
    let m2 = update m1 n (h + 1) in let m3 = update m2 (n + 1) temp in update m3 temp n

unfoldable pub rem_tail : ℕ → Cells ℕ → Option ℕ × Cells ℕ
rem_tail h m =
    let temp = m (h + 2) in
    let m1 = update m (h + 2) (m (temp + 1)) in
    let m2 = update m1 (m1 (temp + 1)) (h + 1) in
    if m (temp + 1) == 0 then (none, m) else (some temp, m2)

unfoldable pub remove : ℕ → Cells ℕ → Cells ℕ
remove n m =
    let temp = m n in let m1 = update m (m (n + 1)) temp in update m1 (temp + 1) (m1 (n + 1))

-- `while ((node = RemTail(list))) free(node);` with the nodes freed so far; `none` when the fuel is gone.
unfoldable pub free_all : ℕ → ℕ → Cells ℕ → List ℕ → Option (List ℕ × Cells ℕ)
free_all zero h m freed = none
free_all (suc fuel) h m freed =
    let (node, m') = rem_tail h m in
    elim node [ none ↦ some (freed, m') | some n ↦ free_all fuel h m' (n ∷ freed) ]
