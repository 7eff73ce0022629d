-- ===== src/Lists/Segment.antt =====
-- Chains of nodes, each linked with the next one both ways, and the words that a chain rests on.
use binsort.Base.{
  ℕ, ◌+◌, ◌<◌, ◌≤◌, ◌≡◌, ◌≢◌, ◌⊎◌, inl, inr, refl, List, [], ◌∷◌, ◌++◌, Cells, update, arith,
}

-- The last of `a` and the nodes behind it.
abbrev pub prev : ℕ → List ℕ → ℕ
prev a [] = a
prev a (x ∷ xs) = prev x xs

-- `a` and the nodes behind it are linked both ways, each with the next.
abbrev pub IsChain : Cells ℕ → ℕ → List ℕ → Type 0
IsChain m a [] = Unit {0}
IsChain m a (x ∷ xs) = (m a ≡ x) × (m (x + 1) ≡ a) × IsChain m x xs

-- No link of the chain rests on word `i`.
abbrev pub IsSpared : ℕ → ℕ → List ℕ → Type 0
IsSpared i a [] = Unit {0}
IsSpared i a (x ∷ xs) = (i ≢ a) × (i ≢ x + 1) × IsSpared i x xs

-- Two nodes of two words do not overlap.
abbrev pub IsApart : ℕ → ℕ → Type 0
IsApart x y = (x + 1 < y) ⊎ (y + 1 < x)

abbrev pub IsFresh : ℕ → List ℕ → Type 0
IsFresh x [] = Unit {0}
IsFresh x (y ∷ ys) = IsApart x y × IsFresh x ys

-- A node, which is not the null pointer, does not overlap the header of three words.
abbrev pub IsOutside : ℕ → ℕ → Type 0
IsOutside h x = (0 < x) × ((x + 1 < h) ⊎ (h + 2 < x))

-- The nodes overlap neither the header nor each other.
abbrev pub AllApart : ℕ → List ℕ → Type 0
AllApart h [] = Unit {0}
AllApart h (x ∷ xs) = IsOutside h x × IsFresh x xs × AllApart h xs

pub IsChain-update :
    (m : Cells ℕ) (i v a : ℕ) (xs : List ℕ)
    → IsSpared i a xs
    → IsChain m a xs
    → IsChain (update m i v) a xs
IsChain-update m i v a [] s c = tt
IsChain-update m i v a (x ∷ xs) (na, nx, s) (p, q, c) =
    (ground arith, ground arith, IsChain-update m i v x xs s c)

pub prev-append : (a : ℕ) (xs : List ℕ) (y : ℕ) (ys : List ℕ) → prev a (xs ++ (y ∷ ys)) ≡ prev y ys
prev-append a [] y ys = refl
prev-append a (x ∷ xs) y ys = prev-append x xs y ys

pub IsChain-append :
    (m : Cells ℕ) (a : ℕ) (xs : List ℕ) (y : ℕ) (ys : List ℕ)
    → IsChain m a xs
    → m (prev a xs) ≡ y
    → m (y + 1) ≡ prev a xs
    → IsChain m y ys
    → IsChain m a (xs ++ (y ∷ ys))
IsChain-append m a [] y ys c p q d = (p, q, d)
IsChain-append m a (x ∷ xs) y ys (s, t, c) p q d = (s, t, IsChain-append m x xs y ys c p q d)

pub IsChain-split :
    (m : Cells ℕ) (a : ℕ) (xs : List ℕ) (y : ℕ) (ys : List ℕ)
    → IsChain m a (xs ++ (y ∷ ys))
    → IsChain m a xs × (m (prev a xs) ≡ y) × (m (y + 1) ≡ prev a xs) × IsChain m y ys
IsChain-split m a [] y ys (p, q, d) = (tt, p, q, d)
IsChain-split m a (x ∷ xs) y ys (s, t, c) =
    let (c', p, q, d) = IsChain-split m x xs y ys c in ((s, t, c'), p, q, d)

-- The words of a node that is apart from the chain are spared, and so are those of the header but its
-- first.
pub IsSpared-node : (n a : ℕ) (xs : List ℕ) → n ≢ a → IsFresh n xs → IsSpared n a xs
IsSpared-node n a [] na f = tt
IsSpared-node n a (x ∷ xs) na (apart, f) =
    (na, (λ e. omega (arith, apart, e)), IsSpared-node n x xs (λ e. omega (arith, apart, e)) f)

pub IsSpared-second : (n a : ℕ) (xs : List ℕ) → n + 1 ≢ a → IsFresh n xs → IsSpared (n + 1) a xs
IsSpared-second n a [] na f = tt
IsSpared-second n a (x ∷ xs) na (apart, f) =
    (na, (λ e. omega (arith, apart, e)), IsSpared-second n x xs (λ e. omega (arith, apart, e)) f)

pub IsSpared-header :
    (h i a : ℕ) (xs : List ℕ) → h ≤ i → i ≤ h + 2 → i ≢ a → AllApart h xs → IsSpared i a xs
IsSpared-header h i a [] l u na s = tt
IsSpared-header h i a (x ∷ xs) l u na ((some_node, out), f, s) =
    (na, (λ e. omega (arith, out, e)), IsSpared-header h i x xs l u (λ e. omega (arith, out, e)) s)

-- None of the nodes is `a`.
abbrev pub IsAway : ℕ → List ℕ → Type 0
IsAway a [] = Unit {0}
IsAway a (x ∷ xs) = (x ≢ a) × IsAway a xs

IsAway-fresh : (a : ℕ) (xs : List ℕ) → IsFresh a xs → IsAway a xs
IsAway-fresh a [] f = tt
IsAway-fresh a (x ∷ xs) (apart, f) = ((λ e. omega (arith, apart, e)), IsAway-fresh a xs f)

pub IsAway-header : (h : ℕ) (xs : List ℕ) → AllApart h xs → IsAway h xs
IsAway-header h [] s = tt
IsAway-header h (x ∷ xs) ((some_node, out), f, s) =
    ((λ e. omega (arith, out, e)), IsAway-header h xs s)

pub prev_away : (a x : ℕ) (xs : List ℕ) → x ≢ a → IsAway a xs → prev x xs ≢ a
prev_away a x [] nx s = nx
prev_away a x (y ∷ ys) nx (ny, s) = prev_away a y ys ny s

pub prev_fresh : (n x : ℕ) (xs : List ℕ) → IsApart n x → IsFresh n xs → IsApart n (prev x xs)
prev_fresh n x [] apart f = apart
prev_fresh n x (y ∷ ys) apart (apart_y, f) = prev_fresh n y ys apart_y f

pub not_second : (x : ℕ) (xs : List ℕ) → IsFresh x xs → prev x xs ≢ x + 1
not_second x [] f = λ e. omega (arith, e)
not_second x (y ∷ ys) (apart, f) = λ e. omega (arith, prev_fresh x y ys apart f, e)

-- The successor of the last node is spared.
pub IsSpared-prev :
    (h a : ℕ) (xs : List ℕ) → IsAway a xs → AllApart h xs → IsSpared (prev a xs) a xs
IsSpared-prev h a [] away s = tt
IsSpared-prev h a (x ∷ xs) (nx, away) (out, f, s) =
    (prev_away a x xs nx away, not_second x xs f, IsSpared-prev h x xs (IsAway-fresh x xs f) s)

-- The last of the header and the nodes is the header, or a node that is not null.
pub prev_header : (h : ℕ) (xs : List ℕ) → AllApart h xs → (prev h xs ≡ h) ⊎ IsOutside h (prev h xs)
prev_header h [] s = inl refl
prev_header h (x ∷ xs) (out, f, s) = inr (last x xs out s)
  where
    last : (x : ℕ) (xs : List ℕ) → IsOutside h x → AllApart h xs → IsOutside h (prev x xs)
    last x [] out s = out
    last x (y ∷ ys) out (out_y, f, s) = last y ys out_y s

-- A new node is not where a list ends.
pub prev_other :
    (h : ℕ) (xs : List ℕ) (n : ℕ)
    → IsOutside h n
    → IsFresh n xs
    → (prev h xs ≢ n) × (prev h xs ≢ n + 1)
prev_other h [] n out f = ((λ e. omega (arith, out, e)), λ e. omega (arith, out, e))
prev_other h (x ∷ xs) n out (apart, f) =
    let last = prev_fresh n x xs apart f in
    ((λ e. omega (arith, last, e)), λ e. omega (arith, last, e))

pub IsFresh-split : (x : ℕ) (xs ys : List ℕ) → IsFresh x (xs ++ ys) → IsFresh x xs × IsFresh x ys
IsFresh-split x [] ys f = (tt, f)
IsFresh-split x (z ∷ xs) ys (apart, f) = let (f1, f2) = IsFresh-split x xs ys f in ((apart, f1), f2)

pub IsFresh-join : (x : ℕ) (xs ys : List ℕ) → IsFresh x xs → IsFresh x ys → IsFresh x (xs ++ ys)
IsFresh-join x [] ys f g = g
IsFresh-join x (z ∷ xs) ys (apart, f) g = (apart, IsFresh-join x xs ys f g)

pub IsApart-comm : (x y : ℕ) → IsApart x y → IsApart y x
IsApart-comm x y apart = omega (arith, apart)

-- What the nodes of a list with `n` in it say of `n`, and without it.
pub apart_split :
    (h : ℕ) (xs : List ℕ) (n : ℕ) (ys : List ℕ)
    → AllApart h (xs ++ (n ∷ ys))
    → AllApart h (xs ++ ys)
      × AllApart h xs
      × AllApart h ys
      × IsOutside h n
      × IsFresh n xs
      × IsFresh n ys
apart_split h [] n ys (out, f, s) = (s, tt, s, out, tt, f)
apart_split h (x ∷ xs) n ys (out, f, s) =
    let (both, sx, sy, out_n, fx, fy) = apart_split h xs n ys s in
    let (f1, (apart, f2)) = IsFresh-split x xs (n ∷ ys) f in
    (
      (out, IsFresh-join x xs ys f1 f2, both),
      (out, f1, sx),
      sy,
      out_n,
      (IsApart-comm x n apart, fx),
      fy,
    )

pub apart_append :
    (h : ℕ) (xs : List ℕ) (n : ℕ)
    → AllApart h xs
    → IsOutside h n
    → IsFresh n xs
    → AllApart h (xs ++ n ∷ [])
apart_append h [] n s out f = (out, tt, tt)
apart_append h (x ∷ xs) n (out_x, fx, s) out (apart, f) =
    (out_x, IsFresh-join x xs (n ∷ []) fx (IsApart-comm n x apart, tt), apart_append h xs n s out f)

-- The last of the header and the front nodes is no word that the other nodes rest on.
pub IsSpared-rest :
    (h : ℕ) (xs : List ℕ) (y : ℕ) (ys : List ℕ)
    → AllApart h (xs ++ (y ∷ ys))
    → IsSpared (prev h xs) y ys × IsAway (prev h xs) ys
IsSpared-rest h [] y ys ((some_node, out), f, s) = (
  IsSpared-header h h y ys (omega arith) (omega arith) (λ e. omega (arith, out, e)) s,
  IsAway-header h ys s,
)
IsSpared-rest h (x ∷ xs) y ys (out, f, s) = node x xs f s
  where
    node :
        (x : ℕ) (xs : List ℕ)
        → IsFresh x (xs ++ (y ∷ ys))
        → AllApart h (xs ++ (y ∷ ys))
        → IsSpared (prev x xs) y ys × IsAway (prev x xs) ys
    node x [] (apart, f) s =
        (IsSpared-node x y ys (λ e. omega (arith, apart, e)) f, IsAway-fresh x ys f)
    node x (z ∷ xs) f (out, g, s) = node z xs g s
