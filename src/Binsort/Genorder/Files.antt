-- ===== src/Binsort/Genorder/Files.antt =====
-- The files that binsort_genorder takes from the list, and those it adds to it.
use mathlib.Core.List.{append_assoc, append-nil}
use binsort.Base.{
  ℕ, zero, suc, ◌+◌, ◌%◌, ◌<◌, ◌≡◌, refl, sym, ap, ap₂, ◌∙◌, inl, inr, Bool, true, false, List, [],
  ◌∷◌, ◌++◌, Cells, update, if◌then◌else◌, Bool-cases, arith,
}
use binsort.Binsort.Order.{DirEntry}
use binsort.Binsort.Order.Delta.{tour}
use binsort.Binsort.Genorder.{Taken, take_files, add_files}

-- `n` cells of an array from `i` on.
unfoldable pub listing : Cells DirEntry → ℕ → ℕ → List DirEntry
listing x i zero = []
listing x i (suc n) = x i ∷ listing x (suc i) n

-- The entries that are files, or with `false` those that are not.
unfoldable pub entries_of : Bool → List DirEntry → List DirEntry
entries_of is_file [] = []
entries_of true (e ∷ es) = if e.is_file then e ∷ entries_of true es else entries_of true es
entries_of false (e ∷ es) = if e.is_file then entries_of false es else e ∷ entries_of false es

pub listing-cong :
    (x y : Cells DirEntry) (n i k : ℕ)
    → ((j : ℕ) → j < n → y (i + j) ≡ x (k + j))
    → listing y i n ≡ listing x k n
unfolding listing
listing-cong x y zero i k h = refl
listing-cong x y (suc n) i k h =
    let here : y i ≡ x k = ap y (omega arith) ∙ h 0 (omega arith) ∙ ap x (omega arith) in
    ap₂ ◌∷◌ here (
      listing-cong x y n (suc i) (suc k)
        (λ j low. ap y (omega arith) ∙ h (suc j) (omega arith) ∙ ap x (omega arith)))

pub listing-end :
    (x : Cells DirEntry) (n i : ℕ) → listing x i (suc n) ≡ listing x i n ++ x (i + n) ∷ []
unfolding listing
listing-end x zero i = let same : i ≡ i + 0 = omega arith in ap (λ k. x k ∷ []) same
listing-end x (suc n) i =
    let same : suc i + n ≡ i + suc n = omega arith in
    ap (λ l. x i ∷ l) (listing-end x n (suc i) ∙ ap (λ k. listing x (suc i) n ++ x k ∷ []) same)

listing-update :
    (x : Cells DirEntry) (n : ℕ) (e : DirEntry)
    → listing (update x n e) 0 (n + 1) ≡ listing x 0 n ++ e ∷ []
listing-update x n e =
    let longer : n + 1 ≡ suc n = omega arith in
    let before = listing-cong x (update x n e) n 0 0 (λ j low. ground arith) in
    let last : update x n e (0 + n) ≡ e = ground arith in
    ap (listing (update x n e) 0) longer
    ∙ listing-end (update x n e) n 0
    ∙ ap₂ (λ l y. l ++ y ∷ []) before last

-- The array gets the files of the list in their order, behind those it has, and the list keeps the rest.
pub take_files-loop :
    (es : List DirEntry) (t : Taken)
    → let t' = take_files es t in
      (listing t'.order 0 t'.num ≡ listing t.order 0 t.num ++ entries_of true es)
      × (t'.list ≡ t.list ++ entries_of false es)
unfolding take_files entries_of
take_files-loop [] t = (sym (append-nil _), sym (append-nil _))
take_files-loop (e ∷ es) t = elim (Bool-cases e.is_file) [
  | inl file ↦
      let t' : Taken = record t { order = update t.order t.num e; num = t.num + 1 } in
      let (order, list) = take_files-loop es t' in
      simp file (
        order
            ∙ ap (λ l. l ++ entries_of true es) (listing-update t.order t.num e)
            ∙ append_assoc (listing t.order 0 t.num) (e ∷ []) (entries_of true es),
        list,
      )
  | inr other ↦
      let t' : Taken = record t { list = t.list ++ e ∷ [] } in
      let (order, list) = take_files-loop es t' in
      simp other (order, list ∙ append_assoc t.list (e ∷ []) (entries_of false es))
]

-- The files are added to the list in the order of the round trip from behind the starting position on.
pub add_files-loop :
    (k i : ℕ) (o : Cells DirEntry) (num startpos : ℕ) (list : List DirEntry)
    → add_files k i o num startpos list ≡ list ++ listing (tour o num (startpos + 1)) i k
unfolding add_files listing
add_files-loop zero i o num startpos list = sym (append-nil list)
add_files-loop (suc k) i o num startpos list =
    let step : i + 1 ≡ suc i = omega arith in
    let at : i + startpos + 1 ≡ startpos + 1 + i = omega arith in
    let added = list ++ o ((i + startpos + 1) % num) ∷ [] in
    add_files-loop k (i + 1) o num startpos added
    ∙ append_assoc list (o ((i + startpos + 1) % num) ∷ [])
        (listing (tour o num (startpos + 1)) (i + 1) k)
    ∙ ap₂ (λ j l. list ++ o (j % num) ∷ listing (tour o num (startpos + 1)) l k) at step
