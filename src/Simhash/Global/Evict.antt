-- ===== src/Simhash/Global/Evict.antt =====
-- evict: the greatest feature leaves the heap and the table.
use binsort.Base.{
  ℕ, ◌+◌, ◌<◌, ◌≤◌, ◌≡◌, ◌≢◌, ◌↔◌, refl, Bool, true, some, find_of_count, mem_of_count, arith,
}
use binsort.Simhash.Heap.{Heap, heap_extract_max}
use binsort.Simhash.Heap.Ops.{Extracted, heap_extract_max-Extracted}
use binsort.Simhash.Heap.Order.{root_greatest}
use binsort.Simhash.Table.{Table, hash_delete}
use binsort.Simhash.Table.Valid.{Holds}
use binsort.Simhash.Table.Delete.{Deleted}
use binsort.Simhash.Table.Ops as TableOps
use binsort.Simhash.Global.{Global, Memory, ok, evict}
use binsort.Simhash.Global.Agree.{Keeps, IsAgreed, SameSizes}

-- `sh'` keeps what `sh` does but for `m`, the greatest.
pub record Evicted (sh : Global) (m : ℕ) (sh' : Global) : Type 0 where
  pub agreed : IsAgreed sh'
  pub sizes : SameSizes sh sh'
  pub room : sh'.heap.nheap + 1 ≡ sh.heap.nheap
  pub kept : (v : ℕ) → Keeps sh' v ↔ (Keeps sh v × (v ≢ m))
  pub top : (v : ℕ) → Keeps sh v → v ≤ m
  pub was_top : sh.heap.heap 0 ≡ m

pub Keeps-le_root : (sh : Global) (v : ℕ) → IsAgreed sh → Keeps sh v → v ≤ sh.heap.heap 0
Keeps-le_root sh v a k =
    let (i, lt, e) = find_of_count sh.heap.heap sh.heap.nheap v k in
    omega (arith, root_greatest sh.heap.heap sh.heap.nheap i a.heap.order lt)

module _ (sh : Global) (a : IsAgreed sh) (m : ℕ) (h : Heap) (t : Table) (x : Extracted sh.heap m h)
    (d : Deleted sh.table m t) (root : sh.heap.heap 0 ≡ m) where
  abbrev evicted : Global
  evicted = record sh { heap = h; table = t }

  evicted-Keeps : (v : ℕ) → Keeps evicted v ↔ (Keeps sh v × (v ≢ m))
  evicted-Keeps v = (
    λ k. (ground (arith, x.values v, a.once v), ground (arith, x.values v, a.once v)),
    λ (k, ne). ground (arith, x.values v, a.once v),
  )

  evicted_same : (v : ℕ) → Holds t v ↔ Keeps evicted v
  evicted_same v = (
    λ held.
        let ne : v ≢ m = λ e. d.gone (rw e at held) in
        (evicted-Keeps v).1 ((a.same v).0 (d.only v held), ne),
    λ k. let (old, ne) = (evicted-Keeps v).0 k in d.kept v ne ((a.same v).1 old),
  )

  evicted-Evicted : Evicted sh m evicted
  evicted-Evicted = record {
    agreed = record {
      heap = x.valid;
      table = d.valid;
      once = λ v. omega (arith, x.values v, a.once v);
      same = evicted_same;
      filled = omega (arith, d.freed, x.size, a.filled);
      within = omega (arith, x.size, a.within);
      fits = omega (arith, x.room, a.fits);
      spare = omega (arith, d.size, a.spare);
      some_feature = a.some_feature;
    };
    sizes = record { nshingle = refl; nfeature = refl };
    room = x.size;
    kept = evicted-Keeps;
    top = λ v k. omega (arith, Keeps-le_root sh v a k);
    was_top = root;
  }

evict_step :
    (mem : Memory) (sh : Global) (h : Heap) (t : Table) (m : ℕ) (b : Bool)
    → heap_extract_max sh.heap ≡ some (m, h)
    → hash_delete mem.for_delete sh.table m ≡ some (b, t)
    → evict mem sh ≡ ok (record sh { heap = h; table = t })
unfolding evict
evict_step mem sh h t m b e d = rw (e, d)

pub evict-Evicted :
    (mem : Memory) (sh : Global)
    → IsAgreed sh
    → 0 < sh.heap.nheap
    → (sh' : Global) × (evict mem sh ≡ ok sh') × Evicted sh (sh.heap.heap 0) sh'
evict-Evicted mem sh a pos =
    let m = sh.heap.heap 0 in
    let (h, took, x) = heap_extract_max-Extracted sh.heap a.heap pos in
    let held = (a.same m).1 (mem_of_count sh.heap.heap sh.heap.nheap 0 pos) in
    let (t, gone, d) = TableOps.hash_delete-Deleted mem.for_delete sh.table m a.table held in
    (
      record sh { heap = h; table = t },
      evict_step mem sh h t m true took gone,
      evicted-Evicted sh a m h t x d refl,
    )
