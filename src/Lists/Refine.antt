-- ===== src/Lists/Refine.antt =====
-- The operations on a linked list in the store make of the sequence of its nodes what they promise.
use mathlib.Core.Path.{fun_ext}
use mathlib.Core.List.{append-nil}
use binsort.Base.{
  ℕ, ◌+◌, ◌<◌, ◌≡◌, ◌≢◌, refl, sym, ap, ◌∙◌, false, none, some, List, [], ◌∷◌, ◌++◌, Cells, update,
  ◌==◌, if◌then◌else◌, arith,
}
use binsort.Lists.{init_list, add_tail, rem_tail, remove}
use binsort.Lists.Segment.{
  prev, IsChain, IsFresh, IsOutside, AllApart, IsChain-update, prev-append, IsChain-append,
  IsChain-split, IsSpared-node, IsSpared-second, IsSpared-header, IsAway-header, prev_other,
  IsSpared-prev, prev_away, not_second, IsSpared-rest, prev_header, apart_split, apart_append,
}

-- The header at `h` and the nodes of `xs`, in this order, are a list in the store.
pub record IsList (h : ℕ) (m : Cells ℕ) (xs : List ℕ) : Type 0 where
  pub some_header : 0 < h
  pub apart : AllApart h xs
  pub chain : IsChain m h xs
  pub ending : m (prev h xs) ≡ h + 1
  pub tail_pred : m (h + 2) ≡ prev h xs
  pub tail : m (h + 1) ≡ 0

-- InitList makes an empty list.
pub init_list-IsList : (h : ℕ) (m : Cells ℕ) → 0 < h → IsList h (init_list h m) []
unfolding init_list
init_list-IsList h m some_header = record {
  some_header = some_header;
  apart = tt;
  chain = tt;
  ending = ground arith;
  tail_pred = ground arith;
  tail = ground arith;
}

-- AddTail adds a node that does not overlap a list behind its nodes.
pub add_tail-IsList :
    (h n : ℕ) (m : Cells ℕ) (xs : List ℕ)
    → IsList h m xs
    → IsOutside h n
    → IsFresh n xs
    → IsList h (add_tail h n m) (xs ++ n ∷ [])
unfolding add_tail
add_tail-IsList h n m xs l out fresh =
    let p = prev h xs in
    let m1 = update m (h + 2) n in
    let m2 = update m1 n (h + 1) in
    let m3 = update m2 (n + 1) p in
    let kept : IsChain m3 h xs =
      IsChain-update m2 (n + 1) p h xs (IsSpared-second n h xs (omega (arith, out)) fresh) (
        IsChain-update m1 n (h + 1) h xs (IsSpared-node n h xs (omega (arith, out)) fresh) (
          IsChain-update m (h + 2) n h xs
            (IsSpared-header h (h + 2) h xs (omega arith) (omega arith) (omega arith) l.apart)
            l.chain)) in
    let at_n : m3 n ≡ h + 1 = ground arith in
    let at_second : m3 (n + 1) ≡ p = ground arith in
    let (np, np') = prev_other h xs n out fresh in
    let spared_p = IsSpared-prev h h xs (IsAway-header h xs l.apart) l.apart in
    let at_p = prev_header h xs l.apart in
    rw l.tail_pred record {
      some_header = l.some_header;
      apart = apart_append h xs n l.apart out fresh;
      chain =
          IsChain-append (update m3 p n) h xs n [] (IsChain-update m3 p n h xs spared_p kept)
            (ground arith) (ground arith) tt;
      ending = rw (prev-append h xs n []) (ground arith);
      tail_pred = rw (prev-append h xs n []) (ground (arith, out));
      tail = ground (arith, l.tail, out);
    }

-- The last node `p` of the list is linked with the end of the list.
end_at-IsList :
    (h : ℕ) (m : Cells ℕ) (xs : List ℕ)
    → 0 < h
    → AllApart h xs
    → IsChain m h xs
    → m (h + 1) ≡ 0
    → IsList h (update (update m (prev h xs) (h + 1)) (h + 2) (prev h xs)) xs
end_at-IsList h m xs some_header apart chain tail =
    let p = prev h xs in
    let m1 = update m p (h + 1) in
    let head = prev_header h xs apart in
    record {
      some_header = some_header;
      apart = apart;
      chain =
          IsChain-update m1 (h + 2) p h xs
            (IsSpared-header h (h + 2) h xs (omega arith) (omega arith) (λ e. omega (arith, e))
              apart)
            (IsChain-update m p (h + 1) h xs (IsSpared-prev h h xs (IsAway-header h xs apart) apart)
              chain);
      ending = ground (arith, head);
      tail_pred = ground arith;
      tail = ground (arith, head, tail);
    }

-- The last node `p` of a front part is linked with the first node of the rest.
link-IsList :
    (h : ℕ) (m : Cells ℕ) (xs : List ℕ) (y : ℕ) (ys : List ℕ)
    → 0 < h
    → AllApart h (xs ++ (y ∷ ys))
    → IsChain m h xs
    → IsChain m y ys
    → m (prev y ys) ≡ h + 1
    → m (h + 2) ≡ prev y ys
    → m (h + 1) ≡ 0
    → IsList h (update (update m (prev h xs) y) (y + 1) (prev h xs)) (xs ++ (y ∷ ys))
link-IsList h m xs y ys some_header apart cx cy ending tail_pred tail =
    let p = prev h xs in
    let m1 = update m p y in
    let (both, sx, sy, out, fx, fy) = apart_split h xs y ys apart in
    let (py, py') = prev_other h xs y out fx in
    let head = prev_header h xs sx in
    let (rest, away) = IsSpared-rest h xs y ys apart in
    let last_p = prev_away p y ys (λ e. py (sym e)) away in
    let last_y = not_second y ys fy in
    record {
      some_header = some_header;
      apart = apart;
      chain =
          IsChain-append (update m1 (y + 1) p) h xs y ys
            (IsChain-update m1 (y + 1) p h xs
              (IsSpared-second y h xs (λ e. omega (arith, out, e)) fx)
              (IsChain-update m p y h xs (IsSpared-prev h h xs (IsAway-header h xs sx) sx) cx))
            (ground arith) (ground arith)
            (IsChain-update m1 (y + 1) p y ys (IsSpared-second y y ys (λ e. omega (arith, e)) fy)
              (IsChain-update m p y y ys rest cy));
      ending = rw (prev-append h xs y ys) (ground arith);
      tail_pred = rw (prev-append h xs y ys) (ground (arith, head, out));
      tail = ground (arith, head, out);
    }

-- What a node of the list is linked with, taken out of the list.
pub unlinked-IsList :
    (h n : ℕ) (m : Cells ℕ) (xs ys : List ℕ)
    → IsList h m (xs ++ (n ∷ ys))
    → IsList h (update (update m (prev h xs) (m n)) (m n + 1) (prev h xs)) (xs ++ ys)
unlinked-IsList h n m xs [] l =
    let (both, sx, sy, out, fx, fy) = apart_split h xs n [] l.apart in
    let (cx, at_p, at_second, cy) = IsChain-split m h xs n [] l.chain in
    let at_n : m n ≡ h + 1 = sym (ap m (prev-append h xs n [])) ∙ l.ending in
    let second : h + 1 + 1 ≡ h + 2 = omega arith in
    rw (append-nil xs, at_n, second) (end_at-IsList h m xs l.some_header sx cx l.tail)
unlinked-IsList h n m xs (y ∷ ys) l =
    let (both, sx, sy, out, fx, fy) = apart_split h xs n (y ∷ ys) l.apart in
    let (cx, at_p, at_second, (at_n, back, cy)) = IsChain-split m h xs n (y ∷ ys) l.chain in
    let last = prev-append h xs n (y ∷ ys) in
    rw at_n (
      link-IsList h m xs y ys l.some_header both cx cy (sym (ap m last) ∙ l.ending)
        (l.tail_pred ∙ last) l.tail)

remove_store :
    (n p : ℕ) (m : Cells ℕ)
    → m (n + 1) ≡ p
    → p ≢ n + 1
    → remove n m ≡ update (update m p (m n)) (m n + 1) p
unfolding remove
remove_store n p m at_second np =
    let again : update m p (m n) (n + 1) ≡ p = ground (arith, at_second, np) in
    ap (λ p. update (update m p (m n)) (m n + 1) (update m p (m n) (n + 1))) at_second
    ∙ ap (λ v. update (update m p (m n)) (m n + 1) v) again

-- Remove takes a node of a linked list out of its sequence, wherever it stands, and the others stay a
-- list in their order.
pub remove-IsList :
    (h n : ℕ) (m : Cells ℕ) (xs ys : List ℕ)
    → IsList h m (xs ++ (n ∷ ys))
    → IsList h (remove n m) (xs ++ ys)
remove-IsList h n m xs ys l =
    let (both, sx, sy, out, fx, fy) = apart_split h xs n ys l.apart in
    let (cx, at_p, at_second, cy) = IsChain-split m h xs n ys l.chain in
    rw (remove_store n (prev h xs) m at_second (prev_other h xs n out fx).1)
      (unlinked-IsList h n m xs ys l)

-- RemTail of an empty list gives nothing and leaves the store as it is.
pub rem_tail-empty : (h : ℕ) (m : Cells ℕ) → IsList h m [] → rem_tail h m ≡ (none, m)
unfolding rem_tail
rem_tail-empty h m l = rw (l.tail_pred, l.tail) refl

rem_tail_store :
    (h n p : ℕ) (m : Cells ℕ)
    → m (h + 2) ≡ n
    → m (n + 1) ≡ p
    → p ≢ 0
    → p ≢ h + 2
    → rem_tail h m ≡ (some n, update (update m p (h + 1)) (h + 2) p)
unfolding rem_tail
rem_tail_store h n p m at_tail at_second some_p np =
    let again : (if h + 2 == n + 1 then p else p) ≡ p = ground arith in
    let not_null : (p == 0) ≡ false = ground (arith, some_p) in
    let turned : update (update m (h + 2) p) p (h + 1) ≡ update (update m p (h + 1)) (h + 2) p =
      fun_ext (λ j. ground (arith, np)) in
    rw (at_tail, at_second, again, not_null) (ap (λ m. (some n, m)) turned)

-- RemTail gives the last node and takes it out of the list.
pub rem_tail-last :
    (h n : ℕ) (m : Cells ℕ) (xs : List ℕ)
    → IsList h m (xs ++ n ∷ [])
    → ((rem_tail h m).0 ≡ some n) × IsList h (rem_tail h m).1 xs
rem_tail-last h n m xs l =
    let (both, sx, sy, out, fx, fy) = apart_split h xs n [] l.apart in
    let (cx, at_p, at_second, cy) = IsChain-split m h xs n [] l.chain in
    let at_tail : m (h + 2) ≡ n = l.tail_pred ∙ prev-append h xs n [] in
    let head = prev_header h xs sx in
    let np : prev h xs ≢ h + 2 = λ e. omega (arith, head, e) in
    let some_p : prev h xs ≢ 0 = λ e. omega (arith, head, e, l.some_header) in
    rw (rem_tail_store h n (prev h xs) m at_tail at_second some_p np)
      (refl, end_at-IsList h m xs l.some_header sx cx l.tail)
