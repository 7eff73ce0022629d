-- ===== src/Simhash/Global.antt =====
-- The state of one shingleprint in the making, `struct simhash_global` of simhash.c, and the
-- routines on all of it: crc_insert to hash_file, with the result `struct simhash`.
pub mod Agree
pub mod Evict
pub mod Store
pub mod Insert
pub mod Sketch
pub mod Stream
pub mod File
pub mod Print
use binsort.Base.{
  ℕ, zero, suc, ◌+◌, ◌-◌, ◌%◌, Bool, true, false, ◌&&◌, Option, none, some, List, [], ◌∷◌, Cells,
  update, ltb, leb, ◌==◌, if◌then◌else◌,
}
use binsort.Simhash.Heap.{Heap, heap_reset, heap_extract_max, heap_insert, heap_drain}
use binsort.Simhash.Table.{Table, Alloc, empty, hash_reset, hash_contains, hash_insert, hash_delete}
use binsort.Simhash.Crc.{hash_crc32}

-- How a routine ends: with a value, with the result 0 or NULL after which the state is given up, or
-- with `abort()` or a failed `assert`.
pub data Run {ℓ} (A : Type ℓ) : Type ℓ where
  ok : A → Run A
  failed aborted : Run A

infixl 5 ◌>>=◌
abbrev pub ◌>>=◌ {ℓ κ} : {A : Type ℓ} {B : Type κ} → Run A → (A → Run B) → Run B
ok a >>= f = f a
failed >>= f = failed
aborted >>= f = aborted

-- A callee's 0 or NULL is passed on.
abbrev pub or_fail {ℓ} : {A : Type ℓ} → Option A → Run A
or_fail (some a) = ok a
or_fail none = failed

-- A callee's abort.
abbrev pub or_abort {ℓ} : {A : Type ℓ} → Option A → Run A
or_abort (some a) = ok a
or_abort none = aborted

pub record Global : Type 0 where
  pub nshingle : ℕ
  pub nfeature : ℕ
  pub heap : Heap
  pub table : Table

-- The memory that the three table calls of one crc_insert find if they collect garbage.
pub record Memory : Type 0 where
  pub for_contains : Alloc
  pub for_delete : Alloc
  pub for_insert : Alloc

-- `sh->nheap == sh->nfeature`
abbrev pub is_full_up : Global → Bool
is_full_up sh = sh.heap.nheap == sh.nfeature

-- Takes the greatest feature out of the heap and the table, to make room. (The result of
-- hash_delete is not looked at.)
pub evict : Memory → Global → Run Global
evict mem sh = do
  (m, h) ← or_abort (heap_extract_max sh.heap)
  (found, t) ← or_abort (hash_delete mem.for_delete sh.table m)
  ok (record sh { heap = h; table = t })

-- What crc_insert does with a value that is not held.
pub add_new : Memory → Global → ℕ → Run Global
add_new mem sh crc = do
  let evicted = evict mem sh
  sh₁ ← if is_full_up sh then evicted else ok sh
  t ← or_fail (hash_insert mem.for_insert sh₁.table crc)
  h ← or_abort (heap_insert sh₁.heap crc)
  ok (record sh₁ { heap = h; table = t })

pub crc_insert : Memory → Global → ℕ → Run Global
crc_insert mem sh crc =
    let rest : Run Global = do
      (held, t) ← or_abort (hash_contains mem.for_contains sh.table crc)
      let sh' = record sh { table = t }
      let new = add_new mem sh' crc
      if held then ok sh' else new
    in if is_full_up sh && leb (sh.heap.heap 0) crc then ok sh else rest

-- `fgetc` for each of the `k` bytes from `buf[i]` on; `none` is the end of the file.
pub fill_loop : ℕ → ℕ → Cells ℕ → List ℕ → Option (Cells ℕ × List ℕ)
fill_loop zero i buf f = some (buf, f)
fill_loop (suc k) i buf [] = none
fill_loop (suc k) i buf (ch ∷ f) = fill_loop k (i + 1) (update buf i ch) f

-- The `while (1)` loop of running_crc, over the bytes `f` that are left; `mem` is what the
-- insertions from here on find.
pub shingle_loop : (ℕ → Memory) → Global → Cells ℕ → ℕ → List ℕ → Run Global
shingle_loop mem sh buf i [] = crc_insert (mem 0) sh (hash_crc32 buf i sh.nshingle)
shingle_loop mem sh buf i (ch ∷ f) = crc_insert (mem 0) sh (hash_crc32 buf i sh.nshingle) >>= λ sh'.
    shingle_loop (λ c. mem (suc c)) sh' (update buf i ch) ((i + 1) % sh'.nshingle) f

-- A file is the list of its bytes.
pub running_crc : (ℕ → Memory) → Global → Cells ℕ → List ℕ → Run Global
running_crc mem sh buf f = do
  (buf', rest) ← or_fail (fill_loop sh.nshingle 0 buf f)
  shingle_loop mem sh buf' 0 rest

-- `struct simhash`
pub record Simhash : Type 0 where
  pub feature : Cells ℕ
  pub nfeature : ℕ
  pub nshingle : ℕ

-- `info` says whether `malloc` finds memory for the structure, `crcs` what it returns for the array.
pub get_hashinfo : Bool → Option (Cells ℕ) → Global → Run Simhash
get_hashinfo false crcs sh = failed
get_hashinfo true none sh = failed
get_hashinfo true (some crcs) sh = do
  (out, h) ← or_abort (heap_drain sh.heap crcs)
  ok (record { feature = out; nfeature = sh.heap.nheap; nshingle = sh.nshingle })

-- What the calls of `malloc` under simhash_file return.
pub record FileMemory : Type 0 where
  pub global : Bool
  pub buf : Option (Cells ℕ)
  pub heap : Option (Cells ℕ)
  pub table : Alloc
  pub inserts : ℕ → Memory
  pub info : Bool
  pub crcs : Option (Cells ℕ)

-- SIMHASH_NSHINGLE and SIMHASH_NFEATURE
abbrev pub simhash_nshingle : ℕ
simhash_nshingle = 8

abbrev pub simhash_nfeature : ℕ
simhash_nfeature = 128

-- The null pointers stand as arrays that nothing reads before heap_reset and hash_reset replace them.
abbrev pub new_global : Global
new_global = record {
  nshingle = simhash_nshingle;
  nfeature = simhash_nfeature;
  heap = record { heap = λ i. 0; nheap = 0; maxheap = 0 };
  table = record { occ = λ i. empty; hash = λ i. 0; nhash = 0 };
}

pub simhash_global_alloc : Bool → Option Global
simhash_global_alloc false = none
simhash_global_alloc true = some new_global

pub hash_file : FileMemory → Global → List ℕ → Run Simhash
hash_file mem sh f = do
  buf ← or_fail mem.buf
  h ← or_fail (heap_reset mem.heap sh.nfeature)
  t ← or_fail (hash_reset mem.table sh.table sh.nfeature)
  sh' ← running_crc mem.inserts (record sh { heap = h; table = t }) buf f
  get_hashinfo mem.info mem.crcs sh'

pub simhash_file : FileMemory → List ℕ → Run Simhash
simhash_file mem f = do sh ← or_fail (simhash_global_alloc mem.global); hash_file mem sh f
