-- ===== src/Simhash/Heap/Ops.antt =====
-- heap_insert and heap_extract_max on a valid heap.
use native.Mathlib.Numerals.{add-one}
use binsort.Base.{
  ℕ, suc, ◌+◌, ◌-◌, ◌≤◌, ◌<◌, ◌≡◌, refl, ap, ◌∙◌, Cells, update, bit, count, count-zero, count-suc,
  count-update, count-update_above, ◌==◌, some, arith,
}
use binsort.Simhash.Heap.{Heap, up_loop, down_loop, upheap, downheap, heap_insert, heap_extract_max}
use binsort.Simhash.Heap.Order.{IsHeap, UpInv, DownInv, root_greatest}
use binsort.Simhash.Heap.Up.{up_loop-Restored}
use binsort.Simhash.Heap.Down.{down_loop-Restored}

-- The heap order, within the array.
pub record IsValid (h : Heap) : Type 0 where
  pub order : IsHeap h.heap h.nheap
  pub bounded : h.nheap ≤ h.maxheap

-- `h'` is a valid heap with the values of `h` and `v`, in the same array.
pub record Inserted (h : Heap) (v : ℕ) (h' : Heap) : Type 0 where
  pub valid : IsValid h'
  pub size : h'.nheap ≡ h.nheap + 1
  pub room : h'.maxheap ≡ h.maxheap
  pub values : (w : ℕ) → count h'.heap h'.nheap w ≡ bit (v == w) + count h.heap h.nheap w
  pub beyond : (j : ℕ) → h.maxheap ≤ j → h'.heap j ≡ h.heap j

-- `h'` is a valid heap with the values of `h` but for one `m`, which is the greatest.
pub record Extracted (h : Heap) (m : ℕ) (h' : Heap) : Type 0 where
  pub valid : IsValid h'
  pub size : h'.nheap + 1 ≡ h.nheap
  pub room : h'.maxheap ≡ h.maxheap
  pub values : (w : ℕ) → count h.heap h.nheap w ≡ bit (m == w) + count h'.heap h'.nheap w
  pub greatest : (i : ℕ) → i < h.nheap → h.heap i ≤ m
  pub beyond : (j : ℕ) → h.maxheap ≤ j → h'.heap j ≡ h.heap j

module _ (h : Heap) (v : ℕ) (valid : IsValid h) (room : h.nheap < h.maxheap) where
  abbrev appended : Cells ℕ
  appended = update h.heap h.nheap v

  abbrev inserted : Heap
  inserted = record h {
    heap = up_loop (h.nheap + 1) appended (h.nheap + 1 - 1);
    nheap = h.nheap + 1;
  }

  append-UpInv : UpInv appended (h.nheap + 1) (h.nheap + 1 - 1)
  append-UpInv = record {
    inside = omega arith;
    edges = λ c p q r. ground (arith, valid.order c);
    bridged = λ c p q e f. absurd (omega arith);
  }

  count-appended : (w : ℕ) → count appended (h.nheap + 1) w ≡ bit (v == w) + count h.heap h.nheap w
  count-appended w = ground (
    arith,
    add-one h.nheap,
    count-suc appended h.nheap w,
    count-update_above h.heap h.nheap h.nheap v w,
  )

  -- heap_insert succeeds on a valid heap with room, adds exactly the value, and leaves the heap
  -- valid.
  pub heap_insert-Inserted : (h' : Heap) × (heap_insert h v ≡ some h') × Inserted h v h'
  unfolding heap_insert upheap
  heap_insert-Inserted =
      let r = up_loop-Restored (h.nheap + 1) appended (h.nheap + 1) _ (omega arith) append-UpInv in
      (
        inserted,
        ground arith,
        record {
          valid = record { order = r.heap; bounded = omega arith };
          size = refl;
          room = refl;
          values = λ w. r.same w ∙ count-appended w;
          beyond = λ j q. r.beyond j (omega arith) ∙ ground arith;
        },
      )

module _ (h : Heap) (valid : IsValid h) (some_value : 0 < h.nheap) where
  abbrev lifted : Cells ℕ
  lifted = update h.heap 0 (h.heap (h.nheap - 1))

  abbrev extracted : Heap
  extracted = record h {
    heap = down_loop (h.nheap - 1 + 1) lifted (h.nheap - 1) 0;
    nheap = h.nheap - 1;
  }

  lift-DownInv : DownInv lifted (h.nheap - 1) 0
  lift-DownInv = record {
    edges = λ c p q r. ground (arith, valid.order c);
    bridged = λ c p q e f. absurd (omega arith);
  }

  count-lifted :
      (w : ℕ) → count h.heap h.nheap w ≡ bit (h.heap 0 == w) + count lifted (h.nheap - 1) w
  count-lifted w =
      let n = h.nheap - 1 in
      let e : h.nheap ≡ suc n = omega arith in
      ground (
        arith,
        e,
        ap (λ k. count h.heap k w) e,
        count-suc h.heap n w,
        count-update h.heap n 0 (h.heap n) w,
        count-zero h.heap w,
        count-zero lifted w,
      )

  -- heap_extract_max takes out exactly one value, and none is greater.
  pub heap_extract_max-Extracted :
      (h' : Heap) × (heap_extract_max h ≡ some (h.heap 0, h')) × Extracted h (h.heap 0) h'
  unfolding heap_extract_max downheap
  heap_extract_max-Extracted =
      let r =
        down_loop-Restored (h.nheap - 1 + 1) lifted (h.nheap - 1) 0 (omega arith) lift-DownInv in
      (
        extracted,
        ground arith,
        record {
          valid = record { order = r.heap; bounded = omega (arith, valid.bounded) };
          size = omega arith;
          room = refl;
          values = λ w. ground (arith, count-lifted w, r.same w);
          greatest = λ i. root_greatest h.heap h.nheap i valid.order;
          beyond = λ j q. r.beyond j (omega (arith, valid.bounded)) ∙ ground (arith, valid.bounded);
        },
      )
