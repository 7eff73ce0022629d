-- ===== src/Lists/Frame.antt =====
-- Several lists in one store: what an operation on one leaves as it is.
use binsort.Base.{ℕ, ◌+◌, ◌<◌, ◌≡◌, ◌⊎◌, inl, inr, refl, ◌∙◌, List, [], ◌∷◌, Cells, arith}
use binsort.Lists.{add_tail}
use binsort.Lists.Segment.{prev, IsChain, IsFresh, IsOutside, prev_other}
use binsort.Lists.Refine.{IsList}

-- No node of `ys` overlaps the header at `h`.
abbrev pub AllOutside : ℕ → List ℕ → Type 0
AllOutside h [] = Unit {0}
AllOutside h (y ∷ ys) = IsOutside h y × AllOutside h ys

-- No node of `ys` overlaps one of `xs`.
abbrev pub AllFresh : List ℕ → List ℕ → Type 0
AllFresh xs [] = Unit {0}
AllFresh xs (y ∷ ys) = IsFresh y xs × AllFresh xs ys

-- Two headers of three words do not overlap.
abbrev pub AreApart : ℕ → ℕ → Type 0
AreApart h h' = (h + 2 < h') ⊎ (h' + 2 < h)

-- The list of `xs` at `h` has no word in common with that of `ys` at `h'`.
pub record AreDisjoint (h : ℕ) (xs : List ℕ) (h' : ℕ) (ys : List ℕ) : Type 0 where
  pub headers : AreApart h h'
  pub outside : AllOutside h ys
  pub outside' : AllOutside h' xs
  pub fresh : AllFresh xs ys

-- Two stores have the same words in these nodes.
abbrev pub IsKept : Cells ℕ → Cells ℕ → List ℕ → Type 0
IsKept m m' [] = Unit {0}
IsKept m m' (y ∷ ys) = (m' y ≡ m y) × (m' (y + 1) ≡ m (y + 1)) × IsKept m m' ys

kept-IsChain :
    (m m' : Cells ℕ) (a : ℕ) (ys : List ℕ)
    → m' a ≡ m a
    → IsKept m m' ys
    → IsChain m a ys
    → IsChain m' a ys × (m' (prev a ys) ≡ m (prev a ys))
kept-IsChain m m' a [] e k c = (tt, e)
kept-IsChain m m' a (y ∷ ys) e (first, second, k) (p, q, c) =
    let (c', last) = kept-IsChain m m' y ys first k c in ((e ∙ p, second ∙ q, c'), last)

-- A list stays a list in a store that has its words.
pub kept-IsList :
    (h : ℕ) (m m' : Cells ℕ) (ys : List ℕ)
    → m' h ≡ m h
    → m' (h + 1) ≡ m (h + 1)
    → m' (h + 2) ≡ m (h + 2)
    → IsKept m m' ys
    → IsList h m ys
    → IsList h m' ys
kept-IsList h m m' ys e0 e1 e2 k l =
    let (c, last) = kept-IsChain m m' h ys e0 k l.chain in
    record {
      some_header = l.some_header;
      apart = l.apart;
      chain = c;
      ending = last ∙ l.ending;
      tail_pred = e2 ∙ l.tail_pred;
      tail = e1 ∙ l.tail;
    }

prev-IsOutside :
    (h h' : ℕ) (xs : List ℕ) → AllOutside h' xs → (prev h xs ≡ h) ⊎ IsOutside h' (prev h xs)
prev-IsOutside h h' [] s = inl refl
prev-IsOutside h h' (x ∷ xs) (out, s) = inr (last x xs out s)
  where
    last : (x : ℕ) (xs : List ℕ) → IsOutside h' x → AllOutside h' xs → IsOutside h' (prev x xs)
    last x [] out s = out
    last x (y ∷ ys) out (out_y, s) = last y ys out_y s

-- AddTail on one list leaves another as it is, if the new node and the lists do not overlap.
pub add_tail_other :
    (h n h' : ℕ) (m : Cells ℕ) (xs ys : List ℕ)
    → IsList h m xs
    → AreDisjoint h xs h' ys
    → IsOutside h' n
    → IsFresh n ys
    → IsList h' m ys
    → IsList h' (add_tail h n m) ys
unfolding add_tail
add_tail_other h n h' m xs ys l d out f l' =
    let last = prev-IsOutside h h' xs d.outside' in
    let p = l.tail_pred in
    kept-IsList h' m (add_tail h n m) ys (ground (arith, last, p, out, d.headers))
      (ground (arith, last, p, out, d.headers)) (ground (arith, last, p, out, d.headers))
      (nodes ys d.outside d.fresh f) l'
  where
    nodes :
        (ys : List ℕ)
        → AllOutside h ys
        → AllFresh xs ys
        → IsFresh n ys
        → IsKept m (add_tail h n m) ys
    nodes [] o f g = tt
    nodes (y ∷ ys) (out_y, o) (fresh_y, f) (apart, g) =
        let (np, np') = prev_other h xs y out_y fresh_y in
        let p = l.tail_pred in (ground (arith, p, out_y), ground (arith, p, out_y), nodes ys o f g)
