-- ===== src/Simhash/Global/Agree.antt =====
-- The heap and the table hold the same features, each once.
use binsort.Base.{ℕ, ◌<◌, ◌≤◌, ◌≡◌, ◌↔◌, ◌∙◌, count, arith}
use binsort.Simhash.Heap.Ops
use binsort.Simhash.Table.Valid
use binsort.Simhash.Table.Valid.{Holds, occupied}
use binsort.Simhash.Table.Collect.{HasMemory, IsSame}
use binsort.Simhash.Table.{Table}
use binsort.Simhash.Global.{Global, Memory}

-- The heap has the value.
abbrev pub Keeps : Global → ℕ → Type 0
Keeps sh v = 0 < count sh.heap.heap sh.heap.nheap v

pub record IsAgreed (sh : Global) : Type 0 where
  pub heap : Ops.IsValid sh.heap
  pub table : Valid.IsValid sh.table
  pub once : (v : ℕ) → count sh.heap.heap sh.heap.nheap v ≤ 1
  pub same : (v : ℕ) → Holds sh.table v ↔ Keeps sh v
  pub filled : occupied sh.table ≡ sh.heap.nheap
  pub within : sh.heap.nheap ≤ sh.nfeature
  pub fits : sh.nfeature ≤ sh.heap.maxheap
  pub spare : sh.nfeature < sh.table.nhash
  pub some_feature : 0 < sh.nfeature

pub record IsRich (mem : Memory) : Type 0 where
  pub for_contains : HasMemory mem.for_contains
  pub for_delete : HasMemory mem.for_delete
  pub for_insert : HasMemory mem.for_insert

-- The sizes that no insertion changes.
pub record SameSizes (sh sh' : Global) : Type 0 where
  pub nshingle : sh'.nshingle ≡ sh.nshingle
  pub nfeature : sh'.nfeature ≡ sh.nfeature

-- hash_contains may have collected the table's garbage.
pub IsSame-IsAgreed :
    (sh : Global) (t : Table) → IsAgreed sh → IsSame sh.table t → IsAgreed (record sh { table = t })
IsSame-IsAgreed sh t a s = record {
  heap = a.heap;
  table = s.valid;
  once = a.once;
  same = λ v. (λ h. (a.same v).0 ((s.holds v).1 h), λ k. (s.holds v).0 ((a.same v).1 k));
  filled = s.filled ∙ a.filled;
  within = a.within;
  fits = a.fits;
  spare = omega (arith, a.spare, s.size);
  some_feature = a.some_feature;
}
