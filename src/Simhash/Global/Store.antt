-- ===== src/Simhash/Global/Store.antt =====
-- A new feature enters the table and the heap, where there is room.
use binsort.Base.{ℕ, ◌+◌, ◌<◌, ◌≡◌, ◌↔◌, ◌⊎◌, refl, inl, inr, some, arith}
use binsort.Simhash.Heap.{Heap, heap_insert}
use binsort.Simhash.Heap.Ops
use binsort.Simhash.Heap.Ops.{Extracted, heap_insert-Inserted, heap_extract_max-Extracted}
use binsort.Simhash.Table.{Table, hash_insert}
use binsort.Simhash.Table.Valid.{Holds}
use binsort.Simhash.Table.Insert
use binsort.Simhash.Table.Ops as TableOps
use binsort.Simhash.Global.{Global, Memory}
use binsort.Simhash.Global.Agree.{Keeps, IsAgreed, SameSizes}

-- `sh'` keeps what `sh` does, and `v`.
pub record Added (sh : Global) (v : ℕ) (sh' : Global) : Type 0 where
  pub agreed : IsAgreed sh'
  pub sizes : SameSizes sh sh'
  pub room : sh'.heap.nheap ≡ sh.heap.nheap + 1
  pub kept : (w : ℕ) → Keeps sh' w ↔ ((w ≡ v) ⊎ Keeps sh w)

module _ (sh : Global) (a : IsAgreed sh) (v : ℕ) (new : ¬ Keeps sh v) (h : Heap) (t : Table)
    (room : sh.heap.nheap < sh.nfeature) (x : Ops.Inserted sh.heap v h)
    (d : Insert.Inserted sh.table v t) where
  abbrev added : Global
  added = record sh { heap = h; table = t }

  added-Keeps : (w : ℕ) → Keeps added w ↔ ((w ≡ v) ⊎ Keeps sh w)
  added-Keeps w = (λ k. ground (arith, x.values w), λ k. ground (arith, x.values w))

  added_same : (w : ℕ) → Holds t w ↔ Keeps added w
  added_same w = (
    λ held.
        (added-Keeps w).1
          (elim (d.only w held) [ inl e ↦ inl e | inr old ↦ inr ((a.same w).0 old) ]),
    λ k. elim ((added-Keeps w).0 k) [
      | inl e ↦ rw e d.added
      | inr old ↦ d.kept w ((a.same w).1 old)
    ],
  )

  added-Added : Added sh v added
  added-Added = record {
    agreed = record {
      heap = x.valid;
      table = d.valid;
      once = λ w. ground (arith, x.values w, a.once w);
      same = added_same;
      filled = omega (arith, d.filled, x.size, a.filled);
      within = omega (arith, x.size, room);
      fits = omega (arith, x.room, a.fits);
      spare = omega (arith, d.size, a.spare);
      some_feature = a.some_feature;
    };
    sizes = record { nshingle = refl; nfeature = refl };
    room = x.size;
    kept = added-Keeps;
  }

-- The two insertions of add_new, on a state with room.
pub store-Added :
    (mem : Memory) (sh : Global) (v : ℕ)
    → IsAgreed sh
    → ¬ Keeps sh v
    → sh.heap.nheap < sh.nfeature
    → (h : Heap) × (t : Table) × (hash_insert mem.for_insert sh.table v ≡ some t)
      × (heap_insert sh.heap v ≡ some h)
      × Added sh v (record sh { heap = h; table = t })
store-Added mem sh v a new room =
    let (h, put, x) = heap_insert-Inserted sh.heap v a.heap (omega (arith, a.fits)) in
    let (t, hashed, d) =
      TableOps.hash_insert-Inserted mem.for_insert sh.table v a.table
        (λ held. new ((a.same v).0 held)) (omega (arith, a.filled, a.spare)) in
    (h, t, hashed, put, added-Added sh a v new h t room x d)
