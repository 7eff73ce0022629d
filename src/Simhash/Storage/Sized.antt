-- ===== src/Simhash/Storage/Sized.antt =====
-- What simhash_read accepts.
use binsort.Base.{
  ℕ, suc, ◌+◌, ◌/◌, ◌≡◌, refl, sym, ap, ◌∙◌, inl, inr, Option, none, some, List, [], ◌∷◌, Cells,
  update, ◌==◌, Bool-cases, length, arith,
}
use binsort.Simhash.Global.{Simhash}
use binsort.Simhash.Storage.{
  file_version, short_of_bytes, long_of_bytes, ReadMemory, make_room, end_read, read_loop,
  read_features, simhash_read,
}

end_read-nfeature :
    (mem : ReadMemory) (nshingle i : ℕ) (feature : Cells ℕ) (hi : Simhash)
    → end_read mem nshingle i feature ≡ some hi
    → (hi.nfeature ≡ i) × (hi.nshingle ≡ nshingle)
unfolding end_read
end_read-nfeature mem nshingle i feature hi e = ground arith

read_loop-nfeature :
    (f : List ℕ) (mem : ReadMemory) (nshingle i room : ℕ) (feature : Cells ℕ) (hi : Simhash)
    → read_loop mem nshingle i room feature f ≡ some hi
    → (hi.nfeature ≡ i + length f / 4) × (hi.nshingle ≡ nshingle)
unfolding read_loop
read_loop-nfeature (a ∷ b ∷ c ∷ d ∷ f) mem nshingle i room feature hi e =
    by_room (make_room mem i room feature) refl
      (λ r. read_loop-nfeature f mem nshingle (i + 1) r.0 (update r.1 i (long_of_bytes a b c d)) hi)
  where
    next : ℕ × Cells ℕ → Option Simhash
    next r = read_loop mem nshingle (i + 1) r.0 (update r.1 i (long_of_bytes a b c d)) f

    continue : Option (ℕ × Cells ℕ) → Option Simhash
    continue q = elim q [ none ↦ none | some r ↦ next r ]

    by_room :
        (q : Option (ℕ × Cells ℕ))
        → make_room mem i room feature ≡ q
        → ((r : ℕ × Cells ℕ)
            → next r ≡ some hi
            → (hi.nfeature ≡ i + 1 + length f / 4) × (hi.nshingle ≡ nshingle))
        → (hi.nfeature ≡ i + suc (suc (suc (suc (length f)))) / 4) × (hi.nshingle ≡ nshingle)
    by_room none at ih = let failed = sym (ap continue at) ∙ e in absurd (cc)
    by_room (some r) at ih =
        let (count, size) = ih r (sym (ap continue at) ∙ e) in (omega (arith, count), size)
read_loop-nfeature [] mem nshingle i room feature hi e =
    omega (arith, end_read-nfeature mem nshingle i feature hi e)
read_loop-nfeature (a ∷ []) mem nshingle i room feature hi e =
    omega (arith, end_read-nfeature mem nshingle i feature hi e)
read_loop-nfeature (a ∷ b ∷ []) mem nshingle i room feature hi e =
    omega (arith, end_read-nfeature mem nshingle i feature hi e)
read_loop-nfeature (a ∷ b ∷ c ∷ []) mem nshingle i room feature hi e =
    omega (arith, end_read-nfeature mem nshingle i feature hi e)

read_features-nfeature :
    (mem : ReadMemory) (nshingle : ℕ) (f : List ℕ) (hi : Simhash)
    → read_features mem nshingle f ≡ some hi
    → (hi.nfeature ≡ length f / 4) × (hi.nshingle ≡ nshingle)
unfolding read_features
read_features-nfeature mem nshingle f hi e = by_cells mem.features e
  where
    by_cells :
        (q : Option (Cells ℕ))
        → elim q as (λ x. Option Simhash) [
          | none ↦ none
          | some cells ↦ read_loop mem nshingle 0 16 cells f
        ]
          ≡ some hi
        → (hi.nfeature ≡ length f / 4) × (hi.nshingle ≡ nshingle)
    by_cells none e = absurd (cc)
    by_cells (some cells) e = omega (arith, read_loop-nfeature f mem nshingle 0 16 cells hi e)

-- A file that is read as a print begins with the version and the shingle size of the print, and the
-- print has as many features as there are whole words behind them.
pub simhash_read-IsSized :
    (mem : ReadMemory) (f : List ℕ) (hi : Simhash)
    → simhash_read mem f ≡ some hi
    → (a b c d : ℕ) × (rest : List ℕ) × (f ≡ a ∷ b ∷ c ∷ d ∷ rest)
      × (short_of_bytes a b ≡ file_version)
      × (hi.nshingle ≡ short_of_bytes c d)
      × (hi.nfeature ≡ length rest / 4)
unfolding simhash_read
simhash_read-IsSized mem (a ∷ b ∷ c ∷ d ∷ f) hi e = elim (Bool-cases mem.info) [
  | inr missing ↦ let failed = simp missing at e in absurd cc
  | inl found ↦ elim (Bool-cases (short_of_bytes a b == file_version)) [
    | inr other ↦ let failed = simp (found, other) at e in absurd cc
    | inl same ↦
        let (count, size) =
          read_features-nfeature mem (short_of_bytes c d) f hi (simp (found, same) at e) in
        (a, b, c, d, f, refl, ground arith, size, count)
  ]
]
simhash_read-IsSized mem (a ∷ b ∷ c ∷ []) hi e = absurd (ground arith)
simhash_read-IsSized mem (a ∷ b ∷ []) hi e = absurd (ground arith)
simhash_read-IsSized mem (a ∷ []) hi e = absurd (cc)
simhash_read-IsSized mem [] hi e = absurd (cc)
