-- ===== src/Lists/Drain.antt =====
-- Freeing a whole list: binsort_freedir and binsort_freehashes.
use mathlib.Core.List.{append_assoc, append-nil}
use binsort.Base.{
  ℕ, zero, suc, ◌<◌, ◌≡◌, ◌⊎◌, inl, inr, refl, sym, ap, ◌∙◌, none, some, List, [], ◌∷◌, ◌++◌, Cells,
  length, length-append, arith,
}
use binsort.Lists.{rem_tail, free_all}
use binsort.Lists.Refine.{IsList, rem_tail-empty, rem_tail-last}

-- A list is empty or has a last element.
last_cases : (xs : List ℕ) → (xs ≡ []) ⊎ ((ys : List ℕ) × (y : ℕ) × (xs ≡ ys ++ y ∷ []))
last_cases [] = inl refl
last_cases (x ∷ xs) = elim (last_cases xs) [
  | inl e ↦ inr ([], x, ap (λ l. x ∷ l) e)
  | inr (ys, y, e) ↦ inr (x ∷ ys, y, ap (λ l. x ∷ l) e)
]

-- A round that finds the list empty, and one that frees a node.
free_all-done :
    (fuel h : ℕ) (m : Cells ℕ) (freed : List ℕ)
    → rem_tail h m ≡ (none, m)
    → free_all (suc fuel) h m freed ≡ some (freed, m)
unfolding free_all
free_all-done fuel h m freed e =
    ap (λ r. elim r.0 [ none ↦ some (freed, r.1) | some n ↦ free_all fuel h r.1 (n ∷ freed) ]) e

free_all-next :
    (fuel h n : ℕ) (m : Cells ℕ) (freed : List ℕ)
    → (rem_tail h m).0 ≡ some n
    → free_all (suc fuel) h m freed ≡ free_all fuel h (rem_tail h m).1 (n ∷ freed)
unfolding free_all
free_all-next fuel h n m freed e =
    ap
      (λ r. elim r [
        | none ↦ some (freed, (rem_tail h m).1)
        | some n ↦ free_all fuel h (rem_tail h m).1 (n ∷ freed)
      ])
      e

free_all-freed :
    (fuel h : ℕ) (m : Cells ℕ) (xs freed : List ℕ)
    → IsList h m xs
    → length xs < fuel
    → (m' : Cells ℕ) × (free_all fuel h m freed ≡ some (xs ++ freed, m')) × IsList h m' []
free_all-freed zero h m xs freed l room = absurd (omega (arith, room))
free_all-freed (suc fuel) h m xs freed l room = elim (last_cases xs) [
  | inl e ↦
      let l' : IsList h m [] = rw e at l in
      (
        m,
        free_all-done fuel h m freed (rem_tail-empty h m l')
            ∙ ap (λ l. some (l ++ freed, m)) (sym e),
        l',
      )
  | inr (ys, y, e) ↦
      let (node, rest) = rem_tail-last h y m ys (rw e at l) in
      let shorter : length ys < fuel =
        omega (arith, room, ap length e, length-append ys (y ∷ [])) in
      let (m', run, done) = free_all-freed fuel h (rem_tail h m).1 ys (y ∷ freed) rest shorter in
      (
        m',
        free_all-next fuel h y m freed node
            ∙ run
            ∙ ap (λ l. some (l, m'))
                (sym (append_assoc ys (y ∷ []) freed) ∙ ap (λ l. l ++ freed) (sym e)),
        done,
      )
]

-- With more rounds than the list has nodes, the loop that frees a list ends; it has freed each node of
-- the list once and nothing else, the first node last, and leaves the list empty.
pub free_all_ends :
    (fuel h : ℕ) (m : Cells ℕ) (xs : List ℕ)
    → IsList h m xs
    → length xs < fuel
    → (m' : Cells ℕ) × (free_all fuel h m [] ≡ some (xs, m')) × IsList h m' []
free_all_ends fuel h m xs l room =
    let (m', run, done) = free_all-freed fuel h m xs [] l room in
    (m', run ∙ ap (λ l. some (l, m')) (append-nil xs), done)
