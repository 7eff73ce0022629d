-- ===== src/Xpthread/Queue/Refine.antt =====
-- The operations on a queue make of the sequence of its messages what they promise.
use binsort.Base.{
  ℕ, ◌+◌, ◌<◌, ◌≡◌, ◌≢◌, ◌⊎◌, inl, inr, refl, false, none, some, List, [], ◌∷◌, ◌++◌, Cells, update,
  ◌==◌, if◌then◌else◌, arith,
}
use binsort.Lists.{init_list, add_tail}
use binsort.Lists.Segment.{IsFresh, IsOutside}
use binsort.Lists.Refine.{IsList, init_list-IsList, add_tail-IsList, unlinked-IsList}
use binsort.Lists.Frame.{AllOutside, AllFresh, AreDisjoint, IsKept, kept-IsList, add_tail_other}
use binsort.Xpthread.Queue.{initlist, addtail, remhead}

-- An initialised queue is empty.
pub initlist-IsList : (h : ℕ) (m : Cells ℕ) → 0 < h → IsList h (initlist h m) []
unfolding initlist init_list
initlist-IsList h m some_header = init_list-IsList h m some_header

-- A message that does not overlap a queue is added behind its messages.
pub addtail-IsList :
    (h n : ℕ) (m : Cells ℕ) (xs : List ℕ)
    → IsList h m xs
    → IsOutside h n
    → IsFresh n xs
    → IsList h (addtail h n m) (xs ++ n ∷ [])
unfolding addtail add_tail
addtail-IsList h n m xs l out fresh = add_tail-IsList h n m xs l out fresh

-- It leaves another queue as it is.
pub addtail_other :
    (h n h' : ℕ) (m : Cells ℕ) (xs ys : List ℕ)
    → IsList h m xs
    → AreDisjoint h xs h' ys
    → IsOutside h' n
    → IsFresh n ys
    → IsList h' m ys
    → IsList h' (addtail h n m) ys
unfolding addtail add_tail
addtail_other h n h' m xs ys l d out f l' = add_tail_other h n h' m xs ys l d out f l'

-- An empty queue gives nothing and stays as it is.
pub remhead-empty : (h : ℕ) (m : Cells ℕ) → IsList h m [] → remhead h m ≡ (none, m)
unfolding remhead
remhead-empty h m l = rw (l.ending, l.tail) refl

remhead_store :
    (h n : ℕ) (m : Cells ℕ)
    → m h ≡ n
    → n ≢ h
    → m n ≢ 0
    → remhead h m ≡ (some n, update (update m h (m n)) (m n + 1) h)
unfolding remhead
remhead_store h n m at_head other some_next =
    let again : (if h == n then m n else m n) ≡ m n = ground arith in
    let not_null : (m n == 0) ≡ false = ground (arith, some_next) in
    rw (at_head, again, not_null) refl

-- What the first message points to is the end of the queue, or the next message.
next_cases :
    (h n : ℕ) (m : Cells ℕ) (xs : List ℕ)
    → IsList h m (n ∷ xs)
    → (m n ≡ h + 1) ⊎ ((y : ℕ) × (ys : List ℕ) × (m n ≡ y) × (xs ≡ y ∷ ys) × IsOutside h y)
next_cases h n m [] l = inl l.ending
next_cases h n m (y ∷ ys) l =
    let (at_head, back, (next, links, behind)) = l.chain in
    let (out_n, fresh_n, (out_y, fresh_y, others)) = l.apart in inr (y, ys, next, refl, out_y)

some_next : (h n : ℕ) (m : Cells ℕ) (xs : List ℕ) → IsList h m (n ∷ xs) → m n ≢ 0
some_next h n m xs l = λ e. elim (next_cases h n m xs l) [
  | inl last ↦ omega (arith, last, e)
  | inr (y, ys, next, whole, out) ↦ omega (arith, next, e, out)
]

not_header : (h n : ℕ) (m : Cells ℕ) (xs : List ℕ) → IsList h m (n ∷ xs) → n ≢ h
not_header h n m xs l = λ e. omega (arith, l.apart.0, e)

remhead_made :
    (h n : ℕ) (m : Cells ℕ) (xs : List ℕ)
    → IsList h m (n ∷ xs)
    → remhead h m ≡ (some n, update (update m h (m n)) (m n + 1) h)
remhead_made h n m xs l =
    remhead_store h n m l.chain.0 (not_header h n m xs l) (some_next h n m xs l)

-- The first message of a queue is given, and the queue keeps the others.
pub remhead-first :
    (h n : ℕ) (m : Cells ℕ) (xs : List ℕ)
    → IsList h m (n ∷ xs)
    → ((remhead h m).0 ≡ some n) × IsList h (remhead h m).1 xs
remhead-first h n m xs l = rw (remhead_made h n m xs l) (refl, unlinked-IsList h n m [] xs l)

-- Taking the first message of a queue leaves another queue as it is.
pub remhead_other :
    (h n h' : ℕ) (m : Cells ℕ) (xs ys : List ℕ)
    → IsList h m (n ∷ xs)
    → AreDisjoint h (n ∷ xs) h' ys
    → IsList h' m ys
    → IsList h' (remhead h m).1 ys
remhead_other h n h' m xs ys l d l' =
    let m' = update (update m h (m n)) (m n + 1) h in
    let written : IsList h' m' ys = elim (next_cases h n m xs l) [
      | inl last ↦
          kept-IsList h' m m' ys (ground (arith, last, d.headers)) (ground (arith, last, d.headers))
            (ground (arith, last, d.headers)) (at_end last ys d.outside) l'
      | inr (y, rest, next, whole, out) ↦
          let (out_n, (out_y, out_rest)) = rw whole at d.outside' in
          kept-IsList h' m m' ys (ground (arith, next, d.headers, out_y))
            (ground (arith, next, d.headers, out_y)) (ground (arith, next, d.headers, out_y))
            (at_next y rest next whole ys d.outside d.fresh) l'
    ] in
    rw (remhead_made h n m xs l) written
  where
    at_end :
        (m n ≡ h + 1)
        → (ys : List ℕ) → AllOutside h ys
        → IsKept m (update (update m h (m n)) (m n + 1) h) ys
    at_end last [] o = tt
    at_end last (z ∷ ys) (out, o) =
        (ground (arith, last, out), ground (arith, last, out), at_end last ys o)

    at_next :
        (y : ℕ) (rest : List ℕ)
        → m n ≡ y
        → xs ≡ y ∷ rest
        → (ys : List ℕ) → AllOutside h ys
        → AllFresh (n ∷ xs) ys
        → IsKept m (update (update m h (m n)) (m n + 1) h) ys
    at_next y rest next whole [] o f = tt
    at_next y rest next whole (z ∷ ys) (out, o) ((apart, fresh), f) =
        let (apart_y, others) = rw whole at fresh in
        (
          ground (arith, next, out, apart_y),
          ground (arith, next, out, apart_y),
          at_next y rest next whole ys o f,
        )
