-- ===== src/Simhash/Global/Print.antt =====
-- simhash_file: the shingleprint of a file.
use binsort.Base.{
  ℕ, zero, suc, ◌<◌, ◌≤◌, ◌≡◌, ◌≢◌, ◌⊎◌, refl, sym, ap, ◌∙◌, inl, inr, Bool, true, false, Option,
  none, some, List, Cells, count, count-suc, count-zero, mem_of_count, find_of_count, arith,
}
use binsort.Simhash.Heap.{Heap, heap_reset, heap_drain}
use binsort.Simhash.Heap.Drain.{IsDescending, heap_drain_sorts}
use binsort.Simhash.Table.{Table, hash_reset}
use binsort.Simhash.Table.Valid.{Holds, occupied}
use binsort.Simhash.Table.Collect.{HasMemory}
use binsort.Simhash.Table.Ops.{hash_reset_correct}
use binsort.Simhash.Crc.Shingles.{length}
use binsort.Simhash.Global.{
  Global, Run, ok, failed, running_crc, ◌>>=◌, or_fail, Simhash, get_hashinfo, hash_file,
  simhash_file, simhash_global_alloc, new_global, FileMemory, simhash_nshingle, simhash_nfeature,
}
use binsort.Simhash.Global.Agree.{Keeps, IsRich}
use binsort.Simhash.Global.Sketch.{Among, Sketches, shingle_hashes}
use binsort.Simhash.Table.Valid
use native.Mathlib.Decide.{ℕ_discrete}
use binsort.Simhash.Global.File.{running_crc_correct, running_crc_short}

-- `hi` lists, in strictly descending order, the smallest of the values `hs`, at most `n` of them: only
-- such values, and all of them unless there are `n` smaller ones.
pub record IsPrint (n : ℕ) (hs : List ℕ) (hi : Simhash) : Type 0 where
  pub descending : (j : ℕ) → suc j < hi.nfeature → hi.feature (suc j) < hi.feature j
  pub within : hi.nfeature ≤ n
  pub sound : (j : ℕ) → j < hi.nfeature → Among (hi.feature j) hs
  pub complete :
      (w : ℕ)
      → Among w hs
      → ((j : ℕ) × (j < hi.nfeature) × (hi.feature j ≡ w))
        ⊎ ((hi.nfeature ≡ n) × ((j : ℕ) → j < hi.nfeature → hi.feature j < w))

-- Equal neighbours are counted twice.
count_neighbours : (a : Cells ℕ) (n j : ℕ) → suc j < n → a (suc j) ≡ a j → 2 ≤ count a n (a j)
count_neighbours a zero j h e = absurd (omega arith)
count_neighbours a (suc n) j h e = elim (ℕ_discrete (suc j) n) [
  | yes last ↦
      let before = mem_of_count a n j (omega arith) in
      let same : a n ≡ a j = ap a (sym last) ∙ e in ground (arith, count-suc a n (a j))
  | no more ↦ let ih = count_neighbours a n j (omega arith) e in ground (arith, count-suc a n (a j))
]

-- A state that keeps the smallest of some values, once drained, is their print.
drained-IsPrint :
    (sh : Global) (hs : List ℕ) (out : Cells ℕ)
    → Sketches sh (λ w. Among w hs)
    → IsDescending out sh.heap.nheap
    → ((w : ℕ) → count out sh.heap.nheap w ≡ count sh.heap.heap sh.heap.nheap w)
    → IsPrint sh.nfeature hs
        (record { feature = out; nfeature = sh.heap.nheap; nshingle = sh.nshingle })
drained-IsPrint sh hs out s down same =
    let n = sh.heap.nheap in
    let kept : (j : ℕ) → j < n → Keeps sh (out j) =
      λ j h. omega (arith, same (out j), mem_of_count out n j h) in
    record {
      descending = λ j h.
          let ne : out (suc j) ≢ out j =
            λ e. omega (arith, count_neighbours out n j h e, same (out j), s.agreed.once (out j)) in
          omega (arith, down j h);
      within = s.agreed.within;
      sound = λ j h. s.only (out j) (kept j h);
      complete = λ w p. elim (s.rest w p) [
        | inl k ↦ inl (find_of_count out n w (omega (arith, same w)))
        | inr (full, below) ↦ inr (full, λ j h. below (out j) (kept j h))
      ];
    }

hashinfo_step :
    (crcs : Cells ℕ) (sh : Global) (out : Cells ℕ) (h : Heap)
    → heap_drain sh.heap crcs ≡ some (out, h)
    → get_hashinfo true (some crcs) sh
      ≡ ok (record { feature = out; nfeature = sh.heap.nheap; nshingle = sh.nshingle })
unfolding get_hashinfo
hashinfo_step crcs sh out h e = rw e

-- Every call of `malloc` under simhash_file finds memory.
pub record IsAmple (mem : FileMemory) : Type 0 where
  pub buf_cells : Cells ℕ
  pub heap_cells : Cells ℕ
  pub crcs_cells : Cells ℕ
  pub global : mem.global ≡ true
  pub info : mem.info ≡ true
  pub buf : mem.buf ≡ some buf_cells
  pub heap : mem.heap ≡ some heap_cells
  pub table : HasMemory mem.table
  pub crcs : mem.crcs ≡ some crcs_cells
  pub inserts : (c : ℕ) → IsRich (mem.inserts c)

-- The state that hash_file starts from.
abbrev started : Cells ℕ → Table → Global
started heap t = record new_global {
  heap = record { heap = heap; nheap = 0; maxheap = simhash_nfeature };
  table = t;
}

started-Sketches :
    (heap : Cells ℕ) (t : Table)
    → Valid.IsValid t
    → simhash_nfeature < t.nhash
    → ((v : ℕ) → ¬ Holds t v)
    → occupied t ≡ 0
    → Sketches (started heap t) (λ w. ⊥)
started-Sketches heap t v spare none_held none_full = record {
  agreed = record {
    heap = record { order = λ c p q. absurd (omega arith); bounded = omega arith };
    table = v;
    once = λ w. omega (arith, count-zero heap w);
    same = λ w. (λ h. absurd (none_held w h), λ k. absurd (omega (arith, count-zero heap w)));
    filled = none_full;
    within = omega arith;
    fits = omega arith;
    spare = spare;
    some_feature = omega arith;
  };
  only = λ w k. omega (arith, count-zero heap w);
  rest = λ w p. absurd p;
}

file_step :
    (mem : FileMemory) (f : List ℕ) (t : Table) (a : IsAmple mem)
    → hash_reset mem.table new_global.table simhash_nfeature ≡ some t
    → simhash_file mem f ≡ (
        running_crc mem.inserts (started a.heap_cells t) a.buf_cells f >>= λ sh.
        get_hashinfo true (some a.crcs_cells) sh)
unfolding simhash_file simhash_global_alloc hash_file heap_reset
file_step mem f t a e = rw (a.global, a.buf, a.heap, e, a.info, a.crcs)

finish_step :
    (crcs : Cells ℕ) (r : Run Global) (sh : Global)
    → r ≡ ok sh
    → (r >>= λ sh. get_hashinfo true (some crcs) sh) ≡ get_hashinfo true (some crcs) sh
finish_step crcs r sh e = rw e

-- With memory, the shingleprint of a file of at least 8 bytes lists, in strictly descending order, the
-- smallest 128 distinct hashes of all its shingles, and keeps the shingle size.
pub simhash_file_correct :
    (mem : FileMemory) (f : List ℕ)
    → IsAmple mem
    → simhash_nshingle ≤ length f
    → (hi : Simhash) × (simhash_file mem f ≡ ok hi)
      × IsPrint simhash_nfeature (shingle_hashes simhash_nshingle f) hi
      × (hi.nshingle ≡ simhash_nshingle)
simhash_file_correct mem f a h =
    let (t, reset, v, spare, none_held, none_full) =
      hash_reset_correct mem.table new_global.table simhash_nfeature a.table (omega arith)
        (omega arith) in
    let s₀ = started-Sketches a.heap_cells t v (omega arith) none_held none_full in
    let (sh, ran, s, z) =
      running_crc_correct mem.inserts (started a.heap_cells t) a.buf_cells f 7 refl h a.inserts
        s₀ in
    let (out, last, drained, down, same) = heap_drain_sorts sh.heap a.crcs_cells s.agreed.heap in
    let p = drained-IsPrint sh (shingle_hashes simhash_nshingle f) out s down same in
    (
      record { feature = out; nfeature = sh.heap.nheap; nshingle = sh.nshingle },
      file_step mem f t a reset
          ∙ finish_step a.crcs_cells _ sh ran
          ∙ hashinfo_step a.crcs_cells sh out last drained,
      record {
        descending = p.descending;
        within = rw z.nfeature at p.within;
        sound = p.sound;
        complete = rw z.nfeature at p.complete;
      },
      z.nshingle,
    )

or_fail-failed :
    {A B : Type 0} (o : Option A) (k : A → Run B)
    → ((a : A) → k a ≡ failed)
    → (or_fail o >>= k) ≡ failed
or_fail-failed none k h = refl
or_fail-failed (some a) k h = h a

failed_first : {A B : Type 0} (r : Run A) (k : A → Run B) → r ≡ failed → (r >>= k) ≡ failed
failed_first r k e = rw e

hash_file_short :
    (mem : FileMemory) (sh : Global) (f : List ℕ)
    → length f < sh.nshingle
    → hash_file mem sh f ≡ failed
unfolding hash_file
hash_file_short mem sh f h = or_fail-failed mem.buf _ λ buf.
    or_fail-failed (heap_reset mem.heap sh.nfeature) _ λ heap.
      or_fail-failed (hash_reset mem.table sh.table sh.nfeature) _ λ t.
        failed_first _ _
          (running_crc_short mem.inserts (record sh { heap = heap; table = t }) buf f h)

-- simhash_file of a file without a shingle gives NULL.
pub simhash_file_short :
    (mem : FileMemory) (f : List ℕ) → length f < simhash_nshingle → simhash_file mem f ≡ failed
unfolding simhash_file simhash_global_alloc
simhash_file_short mem f h = on_global mem.global
  where
    on_global :
        (b : Bool) → (or_fail (simhash_global_alloc b) >>= λ sh. hash_file mem sh f) ≡ failed
    on_global false = refl
    on_global true = hash_file_short mem new_global f h
