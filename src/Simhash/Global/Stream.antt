-- ===== src/Simhash/Global/Stream.antt =====
-- running_crc: the features of a file are the smallest distinct hashes of its shingles.
use native.Mathlib.Nat.{mod-lt}
use binsort.Base.{
  ℕ, suc, ◌+◌, ◌%◌, ◌<◌, ◌≡◌, ◌↔◌, ◌⊎◌, ap, ◌∙◌, inl, inr, List, [], ◌∷◌, ◌++◌, map, Cells, update,
  arith,
}
use binsort.Simhash.Crc.{hash_crc32}
use binsort.Simhash.Crc.Ring.{ring, crc_of, hash_crc32-crc_of}
use binsort.Simhash.Global.{Global, Memory, Run, ok, shingle_loop}
use binsort.Simhash.Crc.Shingles.{shingles, ring-shingles_last, ring-shingles_more}
use binsort.Simhash.Global.Agree.{IsRich, SameSizes}
use binsort.Simhash.Global.Insert.{crc_insert-Offered}
use binsort.Simhash.Global.Sketch.{Among, Sketches, Sketches-map, Sketches-step}

-- The values in `P` and the hashes of these shingles.
abbrev pub With : (ℕ → Type 0) → List (List ℕ) → ℕ → Type 0
With P ss w = Among w (map crc_of ss) ⊎ P w

With-last :
    (P : ℕ → Type 0) (b : List ℕ) (ss : List (List ℕ)) (h : ℕ)
    → ss ≡ b ∷ []
    → h ≡ crc_of b
    → (w : ℕ) → ((w ≡ h) ⊎ P w) ↔ With P ss w
With-last P b ss h e same w =
    rw (e, same)
      (
        λ p. elim p [ inl q ↦ inl (inl q) | inr q ↦ inr q ],
        λ p. elim p [ inl (inl q) ↦ inl q | inl (inr q) ↦ absurd q | inr q ↦ inr q ],
      )

With-more :
    (P : ℕ → Type 0) (b : List ℕ) (ss rest : List (List ℕ)) (h : ℕ)
    → ss ≡ b ∷ rest
    → h ≡ crc_of b
    → (w : ℕ) → With (λ v. (v ≡ h) ⊎ P v) rest w ↔ With P ss w
With-more P b ss rest h e same w =
    rw (e, same)
      (
        λ p. elim p [ inl q ↦ inl (inr q) | inr (inl q) ↦ inl (inl q) | inr (inr q) ↦ inr q ],
        λ p. elim p [ inl (inl q) ↦ inr (inl q) | inl (inr q) ↦ inl q | inr q ↦ inr (inr q) ],
      )

abbrev pub Streamed : Global → (ℕ → Type 0) → Run Global → Type 0
Streamed sh P r = (sh' : Global) × (r ≡ ok sh') × Sketches sh' P × SameSizes sh sh'

pub shingle_loop-Sketches :
    (k : ℕ) (f : List ℕ) (mem : ℕ → Memory) (sh : Global) (buf : Cells ℕ) (i : ℕ) (P : ℕ → Type 0)
    → sh.nshingle ≡ suc k
    → i < suc k
    → ((c : ℕ) → IsRich (mem c))
    → Sketches sh P
    → Streamed sh
        (With P (shingles (suc k) (ring buf (suc k) i (suc k) ++ f)))
        (shingle_loop mem sh buf i f)
unfolding shingle_loop
shingle_loop-Sketches k [] mem sh buf i P size h rich s =
    let crc = hash_crc32 buf i sh.nshingle in
    let hashed : crc ≡ crc_of (ring buf (suc k) i (suc k)) =
      ap (hash_crc32 buf i) size ∙ hash_crc32-crc_of buf i (suc k) h in
    let (sh', ran, o) = crc_insert-Offered (mem 0) sh crc (rich 0) s.agreed in
    (
      sh',
      ran,
      Sketches-map _ _ (With-last P _ _ crc (ring-shingles_last k buf i) hashed)
          (Sketches-step crc s o),
      o.sizes,
    )
shingle_loop-Sketches k (c ∷ f) mem sh buf i P size h rich s =
    let crc = hash_crc32 buf i sh.nshingle in
    let hashed : crc ≡ crc_of (ring buf (suc k) i (suc k)) =
      ap (hash_crc32 buf i) size ∙ hash_crc32-crc_of buf i (suc k) h in
    let (sh₁, ran, o) = crc_insert-Offered (mem 0) sh crc (rich 0) s.agreed in
    let size₁ = o.sizes.nshingle ∙ size in
    let (sh', streamed, s', z) =
      shingle_loop-Sketches k f (λ c. mem (suc c)) sh₁ (update buf i c) ((i + 1) % suc k)
        (λ w. (w ≡ crc) ⊎ P w) size₁ (mod-lt (i + 1) (omega arith)) (λ c. rich (suc c))
        (Sketches-step crc s o) in
    (
      sh',
      rw ran (
          ap (λ n. shingle_loop (λ c. mem (suc c)) sh₁ (update buf i c) ((i + 1) % n) f) size₁
          ∙ streamed),
      Sketches-map _ _ (With-more P _ _ _ crc (ring-shingles_more k buf i c f h) hashed) s',
      record { nshingle = z.nshingle ∙ o.sizes.nshingle; nfeature = z.nfeature ∙ o.sizes.nfeature },
    )
