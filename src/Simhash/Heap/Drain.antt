-- ===== src/Simhash/Heap/Drain.antt =====
-- The loop of get_hashinfo turns the heap into a descending array.
use native.Mathlib.Numerals.{add-one}
use binsort.Base.{
  ℕ, zero, suc, ◌+◌, ◌≤◌, ◌<◌, ◌≡◌, refl, ap, ◌∙◌, find_of_count, mem_of_count, true, false, Cells,
  update, count, count-zero, count-suc, count-update_above, ltb, Bool-cases, inl, inr, some, arith,
}
use binsort.Simhash.Heap.{Heap, heap_extract_max, drain_loop, heap_drain}
use binsort.Simhash.Heap.Ops.{IsValid, Extracted, heap_extract_max-Extracted}

-- The first `n` cells do not rise.
abbrev pub IsDescending : Cells ℕ → ℕ → Type 0
IsDescending a n = (j : ℕ) → suc j < n → a (suc j) ≤ a j

-- `n` cells are filled, in descending order, and nothing in the heap is above the last of them.
record Filling (h : Heap) (a : Cells ℕ) (n : ℕ) : Type 0 where
  descending : IsDescending a n
  bound : (i j : ℕ) → i < h.nheap → j < n → h.heap i ≤ a j

-- `out` is `a` with the values of `h` behind its first `n` cells, in descending order.
record Filled (h : Heap) (a : Cells ℕ) (n : ℕ) (out : Cells ℕ) (h' : Heap) : Type 0 where
  descending : IsDescending out (n + h.nheap)
  values : (w : ℕ) → count out (n + h.nheap) w ≡ count a n w + count h.heap h.nheap w
  empty : h'.nheap ≡ 0

-- A value of the smaller heap is one of the larger heap.
kept_value :
    (h h' : Heap) (m i : ℕ)
    → Extracted h m h'
    → i < h'.nheap
    → (j : ℕ) × (j < h.nheap) × (h.heap j ≡ h'.heap i)
kept_value h h' m i e p =
    find_of_count h.heap h.nheap (h'.heap i)
      (ground (arith, e.values (h'.heap i), mem_of_count h'.heap h'.nheap i p))

module _ (h h' : Heap) (m : ℕ) (e : Extracted h m h') (a : Cells ℕ) (n : ℕ) (f : Filling h a n)
    (top : h.heap 0 ≡ m) where
  Filling-step : Filling h' (update a n m) (n + 1)
  Filling-step = record {
    descending = λ j p. ground (arith, f.descending j, f.bound 0 j, e.size);
    bound = λ i j p q.
        let (k, inside, same) = kept_value h h' m i e p in
        ground (arith, e.greatest k inside, f.bound k j inside, same);
  }

module _ (h h' : Heap) (m : ℕ) (e : Extracted h m h') (a : Cells ℕ) (n : ℕ) where
  -- What the rest of the loop fills counts for the whole.
  Filled-step :
      {out : Cells ℕ} {last : Heap}
      → Filled h' (update a n m) (n + 1) out last
      → Filled h a n out last
  Filled-step {out} r = record {
    descending = λ j p. r.descending j (omega (arith, e.size));
    values = λ w.
        let total : n + 1 + h'.nheap ≡ n + h.nheap = omega (arith, e.size) in
        ground (
          arith,
          r.values w,
          ap (λ k. count out k w) total,
          ap (λ k. count (update a n m) k w) (add-one n),
          count-suc (update a n m) n w,
          count-update_above a n n m w,
          e.values w,
        );
    empty = r.empty;
  }

drain_stop :
    (k : ℕ) (h : Heap) (a : Cells ℕ) (n : ℕ)
    → ltb 0 h.nheap ≡ false
    → drain_loop k h a n ≡ some (a, h)
unfolding drain_loop
drain_stop zero h a n e = rw e
drain_stop (suc k) h a n e = rw e

drain_round :
    (k : ℕ) (h : Heap) (a : Cells ℕ) (n : ℕ) (h' : Heap)
    → ltb 0 h.nheap ≡ true
    → heap_extract_max h ≡ some (h.heap 0, h')
    → drain_loop (suc k) h a n ≡ drain_loop k h' (update a n (h.heap 0)) (n + 1)
unfolding drain_loop
drain_round k h a n h' e x = rw (e, x)

Filled-empty : (h : Heap) (a : Cells ℕ) (n : ℕ) → Filling h a n → h.nheap ≡ 0 → Filled h a n a h
Filled-empty h a n f done = record {
  descending = λ j p. f.descending j (omega arith);
  values = λ w.
      let total : n + h.nheap ≡ n = omega arith in
      ground
        (arith, ap (λ k. count a k w) total, ap (λ k. count h.heap k w) done, count-zero h.heap w);
  empty = done;
}

drain_loop-Filled :
    (k : ℕ) (h : Heap) (a : Cells ℕ) (n : ℕ)
    → h.nheap ≤ k
    → IsValid h
    → Filling h a n
    → (out : Cells ℕ) × (h' : Heap) × (drain_loop k h a n ≡ some (out, h')) × Filled h a n out h'
drain_loop-Filled zero h a n b v f =
    (a, h, drain_stop zero h a n (ground arith), Filled-empty h a n f (omega arith))
drain_loop-Filled (suc k) h a n b v f = elim (Bool-cases (ltb 0 h.nheap)) [
  | inr none_left ↦ (a, h, drain_stop (suc k) h a n none_left, Filled-empty h a n f (ground arith))
  | inl more ↦
      let (h', ran, e) = heap_extract_max-Extracted h v (ground arith) in
      let (out, last, rest, filled) =
        drain_loop-Filled k h' _ (n + 1) (omega (arith, e.size)) e.valid
          (Filling-step h h' (h.heap 0) e a n f refl) in
      (out, last, drain_round k h a n h' more ran ∙ rest, Filled-step h h' (h.heap 0) e a n filled)
]

-- The loop of get_hashinfo never meets the assertion on a valid heap and gives its values in descending
-- order.
pub heap_drain_sorts :
    (h : Heap) (crcs : Cells ℕ)
    → IsValid h
    → (out : Cells ℕ) × (h' : Heap) × (heap_drain h crcs ≡ some (out, h'))
      × IsDescending out h.nheap
      × ((w : ℕ) → count out h.nheap w ≡ count h.heap h.nheap w)
unfolding heap_drain
heap_drain_sorts h crcs v =
    let (out, last, ran, f) = drain_loop-Filled h.nheap h crcs 0 (omega arith) v (record {
      descending = λ j p. absurd (omega arith);
      bound = λ i j p q. absurd (omega arith);
    }) in
    let total : 0 + h.nheap ≡ h.nheap = omega arith in
    (
      out,
      last,
      ran,
      λ j p. f.descending j (omega arith),
      λ w. ground (arith, f.values w, ap (λ k. count out k w) total, count-zero crcs w),
    )
