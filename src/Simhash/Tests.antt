-- ===== src/Simhash/Tests.antt =====
-- The theorems on simhash.c at concrete inputs.
use binsort.Base.{
  ℕ, ◌+◌, ◌*◌, ◌≤◌, ◌≡◌, ◌↔◌, refl, Bool, true, some, min, List, [], ◌∷◌, Cells, update, count,
  count-zero, count-suc, arith,
}
use binsort.Simhash.Heap.{Heap, heap_drain}
use binsort.Simhash.Heap.Ops.{Inserted, Extracted, heap_insert-Inserted, heap_extract_max-Extracted}
use binsort.Simhash.Heap.Ops
use binsort.Simhash.Heap.Drain.{IsDescending, heap_drain_sorts}
use binsort.Simhash.Table.{
  Table, Alloc, empty, full, gc, do_hash_insert, hash_contains, do_hash_delete,
}
use binsort.Simhash.Table.Valid.{Holds, occupied, IsClean, count_full-zero, count_full-suc}
use binsort.Simhash.Table.Valid
use binsort.Simhash.Table.Insert
use binsort.Simhash.Table.Insert.{do_hash_insert-Inserted}
use binsort.Simhash.Table.Delete.{Deleted, do_hash_delete-Deleted}
use binsort.Simhash.Table.Collect.{HasMemory, IsSame, gc_correct}
use binsort.Simhash.Table.Ops.{hash_contains_correct}
use binsort.Simhash.Global.{
  Global, Memory, ok, crc_insert, Simhash, FileMemory, simhash_file, simhash_nfeature,
  simhash_nshingle,
}
use binsort.Simhash.Global.Agree.{Keeps, IsAgreed, IsRich}
use binsort.Simhash.Global.Insert.{Offered, crc_insert-Offered}
use binsort.Simhash.Global.Sketch.{shingle_hashes}
use binsort.Simhash.Global.Print.{IsPrint, IsAmple, simhash_file_correct}
use binsort.Simhash.Score.{hashinfo_score}
use binsort.Simhash.Score.Merge.{IsStrict, common, hashinfo_score_correct}

abbrev zeros : Cells ℕ
zeros = λ i. 0

abbrev two_heap : Heap
two_heap = record { heap = update (update zeros 0 5) 1 3; nheap = 2; maxheap = 4 }

two_heap-IsValid : Ops.IsValid two_heap
two_heap-IsValid = record { order = λ c p q. ground arith; bounded = omega arith }

heap_drain_sorts_example :
    (out : Cells ℕ) × (h' : Heap) × (heap_drain two_heap zeros ≡ some (out, h'))
    × IsDescending out 2
    × ((w : ℕ) → count out 2 w ≡ count two_heap.heap 2 w)
heap_drain_sorts_example = heap_drain_sorts two_heap zeros two_heap-IsValid

-- Memory that is found at every call, and holds anything.
abbrev ample : Alloc
ample = record { hash = some zeros; occ = some (λ i. full) }

ample-HasMemory : HasMemory ample
ample-HasMemory = record {
  hash_cells = zeros;
  occ_cells = λ i. full;
  hash_ok = refl;
  occ_ok = refl;
}

-- Four slots, with the value 1 in slot 1.
abbrev one_table : Table
one_table = record { occ = update (λ i. empty) 1 full; hash = update zeros 1 1; nhash = 4 }

one_table-IsValid : Valid.IsValid one_table
one_table-IsValid = record {
  log = 2;
  log_le = omega arith;
  size = refl;
  path = λ i lt e. (0, omega arith, ground arith, λ d b. absurd (omega arith));
  unique = λ i j p q e e' same. ground arith;
}

one_table_holds : Holds one_table 1
one_table_holds = (1, omega arith, refl, refl)

one_table_lacks : ¬ Holds one_table 6
one_table_lacks (i, lt, e, h) = ground arith

one_table-occupied : occupied one_table ≡ 1
one_table-occupied =
    let c = one_table.occ in
    ground (
      arith,
      count_full-suc c 3,
      count_full-suc c 2,
      count_full-suc c 1,
      count_full-suc c 0,
      count_full-zero c,
    )

do_hash_insert-Inserted_example :
    (t' : Table) × (do_hash_insert one_table 6 ≡ some t') × Insert.Inserted one_table 6 t'
do_hash_insert-Inserted_example =
    do_hash_insert-Inserted one_table 6 one_table-IsValid one_table_lacks
      (omega (arith, one_table-occupied))

do_hash_delete-Deleted_example :
    (t' : Table) × (do_hash_delete one_table 1 ≡ some (true, t')) × Deleted one_table 1 t'
do_hash_delete-Deleted_example =
    do_hash_delete-Deleted one_table 1 one_table-IsValid one_table_holds

gc_correct_example :
    (t' : Table) × (gc ample one_table ≡ some t') × IsSame one_table t' × IsClean t'
gc_correct_example = gc_correct ample one_table ample-HasMemory one_table-IsValid

hash_contains_correct_example :
    (b : Bool) × (t' : Table) × (hash_contains ample one_table 1 ≡ some (b, t'))
    × ((b ≡ true) ↔ Holds one_table 1)
    × IsSame one_table t'
hash_contains_correct_example =
    hash_contains_correct ample one_table 1 ample-HasMemory one_table-IsValid
      (omega (arith, one_table-occupied))

abbrev three_bytes : Cells ℕ
three_bytes = update (update (update zeros 0 97) 1 98) 2 99

abbrev rich : Memory
rich = record { for_contains = ample; for_delete = ample; for_insert = ample }

rich-IsRich : IsRich rich
rich-IsRich = record {
  for_contains = ample-HasMemory;
  for_delete = ample-HasMemory;
  for_insert = ample-HasMemory;
}

-- Room for one feature, and the feature 1.
abbrev one_global : Global
one_global = record {
  nshingle = 2;
  nfeature = 1;
  heap = record { heap = update zeros 0 1; nheap = 1; maxheap = 1 };
  table = one_table;
}

one_global-once : (v : ℕ) → Keeps one_global v ↔ (v ≡ 1)
one_global-once v =
    let h = one_global.heap.heap in
    (
      λ k. ground (arith, count-suc h 0 v, count-zero h v),
      λ e. ground (arith, count-suc h 0 v, count-zero h v),
    )

one_global-IsAgreed : IsAgreed one_global
one_global-IsAgreed = record {
  heap = record { order = λ c p q. absurd (omega arith); bounded = omega arith };
  table = one_table-IsValid;
  once = λ v. ground (arith, count-suc one_global.heap.heap 0 v, count-zero one_global.heap.heap v);
  same = λ v. (
    λ (i, lt, e, h). (one_global-once v).1 (ground arith),
    λ k. (1, omega arith, refl, ground (arith, (one_global-once v).0 k)),
  );
  filled = one_table-occupied;
  within = omega arith;
  fits = omega arith;
  spare = omega arith;
  some_feature = omega arith;
}

crc_insert-Offered_example :
    (sh' : Global) × (crc_insert rich one_global 0 ≡ ok sh') × Offered one_global 0 sh'
crc_insert-Offered_example = crc_insert-Offered rich one_global 0 rich-IsRich one_global-IsAgreed

abbrev nine_bytes : List ℕ
nine_bytes = 98 ∷ 105 ∷ 110 ∷ 115 ∷ 111 ∷ 114 ∷ 116 ∷ 46 ∷ 99 ∷ []

abbrev file_memory : FileMemory
file_memory = record {
  global = true;
  buf = some zeros;
  heap = some zeros;
  table = ample;
  inserts = λ c. rich;
  info = true;
  crcs = some zeros;
}

file_memory-IsAmple : IsAmple file_memory
file_memory-IsAmple = record {
  buf_cells = zeros;
  heap_cells = zeros;
  crcs_cells = zeros;
  global = refl;
  info = refl;
  buf = refl;
  heap = refl;
  table = ample-HasMemory;
  crcs = refl;
  inserts = λ c. rich-IsRich;
}

simhash_file_correct_example :
    (hi : Simhash) × (simhash_file file_memory nine_bytes ≡ ok hi)
    × IsPrint simhash_nfeature (shingle_hashes simhash_nshingle nine_bytes) hi
    × (hi.nshingle ≡ simhash_nshingle)
simhash_file_correct_example =
    simhash_file_correct file_memory nine_bytes file_memory-IsAmple (omega arith)

abbrev two_print : Simhash
two_print = record { feature = update (update zeros 0 5) 1 3; nfeature = 2; nshingle = 8 }

abbrev three_print : Simhash
three_print = record {
  feature = update (update (update zeros 0 7) 1 5) 2 2;
  nfeature = 3;
  nshingle = 8;
}

two_print-IsStrict : IsStrict two_print.feature two_print.nfeature
two_print-IsStrict j h = ground arith

three_print-IsStrict : IsStrict three_print.feature three_print.nfeature
three_print-IsStrict j h = ground arith

hashinfo_score_correct_example :
    ((hashinfo_score two_print three_print).intersectsize
      ≡ common two_print.feature 2 three_print.feature 3)
    × ((hashinfo_score two_print three_print).intersectsize
          + (hashinfo_score two_print three_print).unionsize
        ≡ 2 * min 2 3)
    × ((hashinfo_score two_print three_print).intersectsize
        ≤ (hashinfo_score two_print three_print).unionsize)
hashinfo_score_correct_example =
    hashinfo_score_correct two_print three_print two_print-IsStrict three_print-IsStrict
