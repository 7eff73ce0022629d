-- ===== src/Simhash/Global/File.antt =====
-- simhash_file: from the bytes of a file to its shingleprint.
use native.Mathlib.Nat.{mod-eq_of_lt}
use binsort.Base.{
  ℕ, zero, suc, ◌+◌, ◌%◌, ◌<◌, ◌≤◌, ◌≡◌, refl, sym, ap, ◌∙◌, inl, inr, none, some, List, [], ◌∷◌,
  ◌++◌, Cells, update, arith,
}
use binsort.Simhash.Crc.Ring.{ring}
use binsort.Simhash.Crc.Shingles.{length}
use binsort.Simhash.Global.{Global, Memory, failed, fill_loop, shingle_loop, running_crc}
use binsort.Simhash.Global.Agree.{IsRich}
use binsort.Simhash.Global.Sketch.{Among, Sketches, Sketches-map, shingle_hashes}
use binsort.Simhash.Global.Stream.{Streamed, shingle_loop-Sketches}

-- The `k` cells from `i` on.
range : Cells ℕ → ℕ → ℕ → List ℕ
range buf i zero = []
range buf i (suc k) = buf i ∷ range buf (suc i) k

ring-range : (k i n : ℕ) (buf : Cells ℕ) → i + k ≤ n → ring buf n i k ≡ range buf i k
unfolding ring range
ring-range zero i n buf h = refl
ring-range (suc zero) i n buf h = refl
ring-range (suc (suc k)) i n buf h =
    let next : (i + 1) % n ≡ suc i = mod-eq_of_lt (omega arith) ∙ omega arith in
    ap (◌∷◌ (buf i))
      (ap (λ j. ring buf n j (suc k)) next ∙ ring-range (suc k) (suc i) n buf (omega arith))

-- The buffer is filled with the first bytes, and the rest of the file is left.
record Filled (buf : Cells ℕ) (f : List ℕ) (k i : ℕ) (buf' : Cells ℕ) (rest : List ℕ) : Type 0 where
  bytes : range buf' i k ++ rest ≡ f
  below : (j : ℕ) → j < i → buf' j ≡ buf j

fill_loop-Filled :
    (k i : ℕ) (buf : Cells ℕ) (f : List ℕ)
    → k ≤ length f
    → (buf' : Cells ℕ) × (rest : List ℕ) × (fill_loop k i buf f ≡ some (buf', rest))
      × Filled buf f k i buf' rest
unfolding fill_loop range
fill_loop-Filled zero i buf f h = (buf, f, refl, record { bytes = refl; below = λ j lt. refl })
fill_loop-Filled (suc k) i buf [] h = absurd (omega arith)
fill_loop-Filled (suc k) i buf (c ∷ f) h =
    let (buf', rest, ran, r) = fill_loop-Filled k (i + 1) (update buf i c) f (omega arith) in
    let first : buf' i ≡ c = r.below i (omega arith) ∙ ground arith in
    let next : i + 1 ≡ suc i = omega arith in
    (
      buf',
      rest,
      ran,
      record {
        bytes =
            ap (λ x. x ∷ range buf' (suc i) k ++ rest) first
            ∙ ap (λ j. c ∷ range buf' j k ++ rest) (sym next)
            ∙ ap (◌∷◌ c) r.bytes;
        below = λ j lt. r.below j (omega arith) ∙ ground arith;
      },
    )

fill_loop_short : (k i : ℕ) (buf : Cells ℕ) (f : List ℕ) → length f < k → fill_loop k i buf f ≡ none
unfolding fill_loop
fill_loop_short zero i buf f h = absurd (omega arith)
fill_loop_short (suc k) i buf [] h = refl
fill_loop_short (suc k) i buf (c ∷ f) h = fill_loop_short k (i + 1) (update buf i c) f (omega arith)

-- A file with no whole shingle is refused.
pub running_crc_short :
    (mem : ℕ → Memory) (sh : Global) (buf : Cells ℕ) (f : List ℕ)
    → length f < sh.nshingle
    → running_crc mem sh buf f ≡ failed
unfolding running_crc
running_crc_short mem sh buf f h = rw (fill_loop_short sh.nshingle 0 buf f h)

running_step :
    (mem : ℕ → Memory) (sh : Global) (buf buf' : Cells ℕ) (f rest : List ℕ)
    → fill_loop sh.nshingle 0 buf f ≡ some (buf', rest)
    → running_crc mem sh buf f ≡ shingle_loop mem sh buf' 0 rest
unfolding running_crc
running_step mem sh buf buf' f rest e = rw e

-- On a file with a shingle running_crc succeeds, and the state keeps the smallest distinct hashes of
-- all shingles of the file.
pub running_crc_correct :
    (mem : ℕ → Memory) (sh : Global) (buf : Cells ℕ) (f : List ℕ) (k : ℕ)
    → sh.nshingle ≡ suc k
    → suc k ≤ length f
    → ((c : ℕ) → IsRich (mem c))
    → Sketches sh (λ w. ⊥)
    → Streamed sh (λ w. Among w (shingle_hashes (suc k) f)) (running_crc mem sh buf f)
running_crc_correct mem sh buf f k size h rich s =
    let (buf', rest, filled, r) = fill_loop-Filled (suc k) 0 buf f h in
    let (sh', ran, s', z) =
      shingle_loop-Sketches k rest mem sh buf' 0 (λ w. ⊥) size (omega arith) rich s in
    let whole : ring buf' (suc k) 0 (suc k) ++ rest ≡ f =
      ap (λ l. l ++ rest) (ring-range (suc k) 0 (suc k) buf' (omega arith)) ∙ r.bytes in
    (
      sh',
      running_step mem sh buf buf' f rest (ap (λ n. fill_loop n 0 buf f) size ∙ filled) ∙ ran,
      Sketches-map _ _
          (λ w. rw (← whole) ((λ p. elim p [ inl q ↦ q | inr q ↦ absurd q ]), (λ q. inl q))) s',
      z,
    )
