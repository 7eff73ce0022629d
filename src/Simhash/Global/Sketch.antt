-- ===== src/Simhash/Global/Sketch.antt =====
-- What a state says of the values that were offered to it: it keeps the smallest of them.
use binsort.Base.{ℕ, ◌<◌, ◌≡◌, ◌↔◌, ◌⊎◌, sym, ◌∙◌, inl, inr, List, [], ◌∷◌, map}
use binsort.Simhash.Crc.Ring.{crc_of}
use binsort.Simhash.Global.{Global}
use binsort.Simhash.Crc.Shingles.{shingles}
use binsort.Simhash.Global.Agree.{Keeps, IsAgreed}
use binsort.Simhash.Global.Insert.{Offered}

-- The value stands in the list.
abbrev pub Among : ℕ → List ℕ → Type 0
Among v [] = ⊥
Among v (x ∷ xs) = (v ≡ x) ⊎ Among v xs

-- The state agrees, and keeps exactly the smallest of the values in `P`, as many as there is room for:
-- nothing but values in `P`, and all of these unless it is full with smaller ones.
pub record Sketches (sh : Global) (P : ℕ → Type 0) : Type 0 where
  pub agreed : IsAgreed sh
  pub only : (w : ℕ) → Keeps sh w → P w
  pub rest :
      (w : ℕ) → P w → Keeps sh w ⊎ ((sh.heap.nheap ≡ sh.nfeature) × ((u : ℕ) → Keeps sh u → u < w))

pub Sketches-map :
    {sh : Global} (P Q : ℕ → Type 0) → ((w : ℕ) → P w ↔ Q w) → Sketches sh P → Sketches sh Q
Sketches-map P Q e s = record {
  agreed = s.agreed;
  only = λ w k. (e w).0 (s.only w k);
  rest = λ w q. s.rest w ((e w).1 q);
}

pub Sketches-step :
    {sh sh' : Global} {P : ℕ → Type 0} (crc : ℕ)
    → Sketches sh P
    → Offered sh crc sh'
    → Sketches sh' (λ w. (w ≡ crc) ⊎ P w)
Sketches-step {sh} {sh'} {P} crc s o = record {
  agreed = o.agreed;
  only = λ w k. elim (o.only w k) [ inl e ↦ inl e | inr old ↦ inr (s.only w old) ];
  rest = λ w p. elim p [
    | inl e ↦ settled w (o.rest w (inl e))
    | inr old ↦ elim (s.rest w old) [
      | inl kept ↦ settled w (o.rest w (inr kept))
      | inr (full, below) ↦ inr (o.stays full ∙ sym o.sizes.nfeature, o.lower full w below)
    ]
  ];
}
  where
    settled :
        (w : ℕ)
        → Keeps sh' w ⊎ ((sh'.heap.nheap ≡ sh.nfeature) × ((u : ℕ) → Keeps sh' u → u < w))
        → Keeps sh' w ⊎ ((sh'.heap.nheap ≡ sh'.nfeature) × ((u : ℕ) → Keeps sh' u → u < w))
    settled w (inl kept) = inl kept
    settled w (inr (full, below)) = inr (full ∙ sym o.sizes.nfeature, below)

-- The hashes of the shingles of a sequence of bytes.
abbrev pub shingle_hashes : ℕ → List ℕ → List ℕ
shingle_hashes n bs = map crc_of (shingles n bs)
