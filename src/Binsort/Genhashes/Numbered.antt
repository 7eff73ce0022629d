-- ===== src/Binsort/Genhashes/Numbered.antt =====
-- The hashes are numbered as they stand in their list, each for one file.
use native.Mathlib.Decide.{ℕ_discrete}
use mathlib.Core.Option.{some-injective}
use binsort.Base.{
  ℕ, zero, suc, ◌<◌, ◌≡◌, ◌≢◌, ◌⊎◌, refl, sym, ap, ◌∙◌, inl, inr, Option, none, some, List, [], ◌∷◌,
  ◌++◌, map, Cells, length, length-append, get_elem?, IsAmong, arith,
}
use binsort.Binsort.Order.{DirEntry}
use binsort.Binsort.Distances.{HashNode}
use binsort.Binsort.Genhashes.{Hashes, set_index, take_reply, take_replies}

-- `den_Index` of the entry at a position; there is none behind the list.
unfoldable pub index_at : List DirEntry → ℕ → Option ℕ
index_at [] p = none
index_at (e ∷ es) zero = e.index
index_at (e ∷ es) (suc p) = index_at es p

-- An entry without its index.
abbrev pub bare : DirEntry → DirEntry
bare e = record e { index = none }

get_elem?-append :
    {A : Type 0} (xs : List A) (y : A) (i : ℕ) (x : A)
    → get_elem? xs i ≡ some x
    → get_elem? (xs ++ y ∷ []) i ≡ some x
get_elem?-append [] y i x e = absurd (cc)
get_elem?-append (z ∷ xs) y zero x e = e
get_elem?-append (z ∷ xs) y (suc i) x e = get_elem?-append xs y i x e

get_elem?-last : {A : Type 0} (xs : List A) (y : A) → get_elem? (xs ++ y ∷ []) (length xs) ≡ some y
get_elem?-last [] y = refl
get_elem?-last (z ∷ xs) y = get_elem?-last xs y

pub get_elem?-lt :
    {A : Type 0} (xs : List A) (i : ℕ) (x : A) → get_elem? xs i ≡ some x → i < length xs
get_elem?-lt [] i x e = absurd (cc)
get_elem?-lt (z ∷ xs) zero x e = omega arith
get_elem?-lt (z ∷ xs) (suc i) x e = omega (arith, get_elem?-lt xs i x e)

index_at-set_index :
    (es : List DirEntry) (p i : ℕ) → p < length es → index_at (set_index es p i) p ≡ some i
unfolding index_at set_index
index_at-set_index [] p i h = absurd (omega (arith, h))
index_at-set_index (e ∷ es) zero i h = refl
index_at-set_index (e ∷ es) (suc p) i h = index_at-set_index es p i (omega (arith, h))

index_at-set_index_other :
    (es : List DirEntry) (p i q : ℕ) → p ≢ q → index_at (set_index es p i) q ≡ index_at es q
unfolding index_at set_index
index_at-set_index_other [] p i q ne = refl
index_at-set_index_other (e ∷ es) zero i zero ne = absurd (ne refl)
index_at-set_index_other (e ∷ es) zero i (suc q) ne = refl
index_at-set_index_other (e ∷ es) (suc p) i zero ne = refl
index_at-set_index_other (e ∷ es) (suc p) i (suc q) ne =
    index_at-set_index_other es p i q (λ e. ne (ap suc e))

index_at-lt : (es : List DirEntry) (p i : ℕ) → index_at es p ≡ some i → p < length es
unfolding index_at
index_at-lt [] p i e = absurd (cc)
index_at-lt (x ∷ es) zero i e = omega arith
index_at-lt (x ∷ es) (suc p) i e = omega (arith, index_at-lt es p i e)

length-set_index : (es : List DirEntry) (p i : ℕ) → length (set_index es p i) ≡ length es
unfolding set_index
length-set_index [] p i = refl
length-set_index (e ∷ es) zero i = refl
length-set_index (e ∷ es) (suc p) i = ap suc (length-set_index es p i)

bare-set_index : (es : List DirEntry) (p i : ℕ) → map bare (set_index es p i) ≡ map bare es
unfolding set_index
bare-set_index [] p i = refl
bare-set_index (e ∷ es) zero i = refl
bare-set_index (e ∷ es) (suc p) i = ap (λ l. bare e ∷ l) (bare-set_index es p i)

-- Each index is that of a hash, which is the one of the file at this position; no two files have the same.
pub record IsNumbered (nodes : Cells (Option HashNode)) (h : Hashes) : Type 0 where
  pub counted : length h.hashes ≡ h.num_hashes
  pub own :
      (p i : ℕ)
      → index_at h.entries p ≡ some i
      → (node : HashNode) × (nodes p ≡ some node) × (get_elem? h.hashes i ≡ some node)
  pub once : (p q i : ℕ) → index_at h.entries p ≡ some i → index_at h.entries q ≡ some i → p ≡ q

module _ (nodes : Cells (Option HashNode)) (h : Hashes) (inv : IsNumbered nodes h) (p : ℕ)
    (node : HashNode) (hashed : nodes p ≡ some node) where
  new_entries : List DirEntry
  new_entries = set_index h.entries p h.num_hashes

  -- The entry at `q` is the one that gets the new number, or has the number that it had.
  new_index :
      (q i : ℕ)
      → index_at new_entries q ≡ some i
      → ((p ≡ q) × (i ≡ h.num_hashes))
        ⊎ ((p ≢ q) × (index_at h.entries q ≡ some i) × (i < h.num_hashes))
  unfolding new_entries
  new_index q i e = elim (ℕ_discrete p q) [
    | yes same ↦
        let here : p < length h.entries = omega (
          arith,
          index_at-lt (set_index h.entries p h.num_hashes) q i e,
          same,
          length-set_index h.entries p h.num_hashes,
        ) in
        inl (
          same,
          some-injective i h.num_hashes (
              sym e
              ∙ ap (index_at new_entries) (sym same)
              ∙ index_at-set_index h.entries p h.num_hashes here),
        )
    | no other ↦
        let before = sym (index_at-set_index_other h.entries p h.num_hashes q other) ∙ e in
        let (node', at, in_list) = inv.own q i before in
        inr (other, before, omega (arith, get_elem?-lt h.hashes i node' in_list, inv.counted))
  ]

  take_some-IsNumbered : IsNumbered nodes (take_reply (some node) p h)
  unfolding take_reply new_entries
  take_some-IsNumbered = record {
    counted = omega (arith, length-append h.hashes (node ∷ []), inv.counted);
    own = λ q i e. elim (new_index q i e) [
      | inl (same, number) ↦ (
        node,
        ap nodes (sym same) ∙ hashed,
        ap (get_elem? (h.hashes ++ node ∷ [])) (number ∙ sym inv.counted)
            ∙ get_elem?-last h.hashes node,
      )
      | inr (other, before, low) ↦
          let (node', at, in_list) = inv.own q i before in
          (node', at, get_elem?-append h.hashes node i node' in_list)
    ];
    once = λ q q' i e e'. elim (new_index q i e) [
      | inl (same, number) ↦ elim (new_index q' i e') [
        | inl (same', number') ↦ sym same ∙ same'
        | inr (other', before', low') ↦ absurd (omega (arith, number, low'))
      ]
      | inr (other, before, low) ↦ elim (new_index q' i e') [
        | inl (same', number') ↦ absurd (omega (arith, number', low))
        | inr (other', before', low') ↦ inv.once q q' i before before'
      ]
    ];
  }

take_reply-IsNumbered :
    (nodes : Cells (Option HashNode)) (p : ℕ) (node : Option HashNode) (h : Hashes)
    → nodes p ≡ node
    → IsNumbered nodes h
    → IsNumbered nodes (take_reply node p h)
unfolding take_reply
take_reply-IsNumbered nodes p none h e inv = inv
take_reply-IsNumbered nodes p (some node) h e inv = take_some-IsNumbered nodes h inv p node e

-- An index once set stays set.
take_reply-indexed :
    (nodes : Cells (Option HashNode)) (p : ℕ) (node : Option HashNode) (h : Hashes) (q i : ℕ)
    → index_at h.entries q ≡ some i
    → (i' : ℕ) × (index_at (take_reply node p h).entries q ≡ some i')
unfolding take_reply
take_reply-indexed nodes p none h q i e = (i, e)
take_reply-indexed nodes p (some node) h q i e = elim (ℕ_discrete p q) [
  | yes same ↦ (
    h.num_hashes,
    ap (index_at (set_index h.entries p h.num_hashes)) (sym same)
        ∙ index_at-set_index h.entries p h.num_hashes
            (omega (arith, index_at-lt h.entries q i e, same)),
  )
  | no other ↦ (i, index_at-set_index_other h.entries p h.num_hashes q other ∙ e)
]

take_replies-indexed :
    (nodes : Cells (Option HashNode)) (replies : List ℕ) (h : Hashes) (q i : ℕ)
    → index_at h.entries q ≡ some i
    → (i' : ℕ) × (index_at (take_replies nodes replies h).entries q ≡ some i')
unfolding take_replies
take_replies-indexed nodes [] h q i e = (i, e)
take_replies-indexed nodes (p ∷ replies) h q i e =
    let (i', e') = take_reply-indexed nodes p (nodes p) h q i e in
    take_replies-indexed nodes replies (take_reply (nodes p) p h) q i' e'

length-take_reply :
    (node : Option HashNode) (p : ℕ) (h : Hashes)
    → length (take_reply node p h).entries ≡ length h.entries
unfolding take_reply
length-take_reply none p h = refl
length-take_reply (some node) p h = length-set_index h.entries p h.num_hashes

replied-indexed :
    (nodes : Cells (Option HashNode)) (replies : List ℕ) (h : Hashes) (q : ℕ) (node : HashNode)
    → IsAmong q replies
    → nodes q ≡ some node
    → q < length h.entries
    → (i : ℕ) × (index_at (take_replies nodes replies h).entries q ≡ some i)
unfolding take_replies take_reply
replied-indexed nodes [] h q node among hashed inside = absurd among
replied-indexed nodes (p ∷ replies) h q node (inl here) hashed inside =
    let now : index_at (take_reply (nodes p) p h).entries q ≡ some h.num_hashes =
      ap (λ n. index_at (take_reply n p h).entries q) (ap nodes (sym here) ∙ hashed)
      ∙ ap (index_at (set_index h.entries p h.num_hashes)) here
      ∙ index_at-set_index h.entries p h.num_hashes (omega (arith, inside, here)) in
    take_replies-indexed nodes replies (take_reply (nodes p) p h) q h.num_hashes now
replied-indexed nodes (p ∷ replies) h q node (inr later) hashed inside =
    replied-indexed nodes replies (take_reply (nodes p) p h) q node later hashed
      (omega (arith, inside, length-take_reply (nodes p) p h))

numbered :
    (nodes : Cells (Option HashNode)) (replies : List ℕ) (h : Hashes)
    → IsNumbered nodes h
    → IsNumbered nodes (take_replies nodes replies h)
unfolding take_replies
numbered nodes [] h inv = inv
numbered nodes (p ∷ replies) h inv =
    numbered nodes replies (take_reply (nodes p) p h)
      (take_reply-IsNumbered nodes p (nodes p) h refl inv)

bare-take_replies :
    (nodes : Cells (Option HashNode)) (replies : List ℕ) (h : Hashes)
    → map bare (take_replies nodes replies h).entries ≡ map bare h.entries
unfolding take_replies
bare-take_replies nodes [] h = refl
bare-take_replies nodes (p ∷ replies) h =
    bare-take_replies nodes replies (take_reply (nodes p) p h) ∙ unchanged (nodes p)
  where
    unchanged :
        (node : Option HashNode) → map bare (take_reply node p h).entries ≡ map bare h.entries
    unchanged none = refl
    unchanged (some node) = bare-set_index h.entries p h.num_hashes

-- In whatever sequence the replies come: each index in an entry is the place, in the list of hashes, of
-- the hash of that entry's own file, no two entries have the same one, every entry of which a reply
-- came with a hash has one, the number of hashes is kept, and nothing else of an entry changes.
pub take_replies-IsNumbered :
    (nodes : Cells (Option HashNode)) (replies : List ℕ) (h : Hashes)
    → IsNumbered nodes h
    → IsNumbered nodes (take_replies nodes replies h)
      × ((q : ℕ) (node : HashNode)
          → IsAmong q replies
          → nodes q ≡ some node
          → q < length h.entries
          → (i : ℕ) × (index_at (take_replies nodes replies h).entries q ≡ some i))
      × (map bare (take_replies nodes replies h).entries ≡ map bare h.entries)
take_replies-IsNumbered nodes replies h inv = (
  numbered nodes replies h inv,
  λ q node among hashed inside. replied-indexed nodes replies h q node among hashed inside,
  bare-take_replies nodes replies h,
)
