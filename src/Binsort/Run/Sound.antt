-- ===== src/Binsort/Run/Sound.antt =====
-- What a run without error prints.
use mathlib.Core.Path.{subst}
use binsort.Base.{
  ℕ, zero, suc, ◌+◌, ◌<◌, ◌≡◌, ◌⊎◌, refl, sym, ap, ap₂, ◌∙◌, inl, inr, Bool, true, false, Option,
  none, some, List, [], ◌∷◌, ◌++◌, map, Cells, update, if◌then◌else◌, Bool-cases, All, arith,
}
use native.Mathlib.Decide.{ℕ_discrete}
use binsort.Base.Int.{pos}
use binsort.Simhash.Score.{Score}
use binsort.Binsort.Order.{DirEntry, Distances}
use binsort.Binsort.Order.Delta.{IsSymmetric, IsIndexed, IsRow}
use binsort.Binsort.Distances.Matrix.{filled-IsSymmetric}
use binsort.Binsort.Scan.{success, FileSystem}
use binsort.Binsort.Scan.Counted.{count_files, IsEntry, IsScanned, dirlist_scan-IsScanned}
use binsort.Binsort.Genhashes.Numbered.{
  index_at, bare, get_elem?-lt, IsNumbered, take_replies-IsNumbered,
}
use binsort.Binsort.Gendistances.Root.{IsRoot}
use binsort.Binsort.Gendistances.Whole.{gendistances_correct}
use binsort.Binsort.Optimise.Permute.{IsReordered}
use binsort.Binsort.Genorder.{Taken, take_files}
use binsort.Binsort.Genorder.Files.{listing, entries_of}
use binsort.Binsort.Genorder.Cut.{way_length, closing_length, IsWithin}
use binsort.Binsort.Genorder.Whole.{end_order-IsReordered, end_order_correct}
use binsort.Binsort.Run.{
  no_entries, unhashed, hash_cells, matrix, files_of, Hashed, hashes_of, Optimised, Prints,
  as_found, optimised,
}

-- Every entry has no index, or one of a row.
indexed-rows :
    (es : List DirEntry) (num : ℕ)
    → ((p i : ℕ) → index_at es p ≡ some i → i < num)
    → All (λ e. (i : ℕ) → e.index ≡ some i → i < num) es
unfolding index_at
indexed-rows [] num h = tt
indexed-rows (e ∷ es) num h = (h 0, indexed-rows es num (λ p. h (suc p)))

IsRow-index :
    (dist : Distances) (q : Option ℕ) → ((i : ℕ) → q ≡ some i → i < dist.arrnum) → IsRow dist q
IsRow-index dist none h = tt
IsRow-index dist (some i) h = h i refl

take_files-rows :
    (dist : Distances) (es : List DirEntry) (t : Taken)
    → All (λ e. (i : ℕ) → e.index ≡ some i → i < dist.arrnum) es
    → IsIndexed dist t.order t.num
    → IsIndexed dist (take_files es t).order (take_files es t).num
unfolding take_files
take_files-rows dist [] t rows before = before
take_files-rows dist (e ∷ es) t (row, rows) before = elim (Bool-cases e.is_file) [
  | inl file ↦ simp file (
      take_files-rows dist es (record t { order = update t.order t.num e; num = t.num + 1 }) rows
        (λ i h. elim (ℕ_discrete t.num i) [
          | yes here ↦
              let at : update t.order t.num e i ≡ e = ground (arith, here) in
              rw at (IsRow-index dist e.index row)
          | no before_i ↦
              let at : update t.order t.num e i ≡ t.order i = ground (arith, before_i) in
              rw at (before i (omega (arith, h)))
        ]))
  | inr other ↦
      simp other (take_files-rows dist es (record t { list = t.list ++ e ∷ [] }) rows before)
]

-- As many files are taken as are counted.
take_files-num : (es : List DirEntry) (t : Taken) → (take_files es t).num ≡ t.num + count_files es
unfolding take_files count_files
take_files-num [] t = omega arith
take_files-num (e ∷ es) t = elim (Bool-cases e.is_file) [
  | inl file ↦ simp file (
      omega
        (arith, take_files-num es (record t { order = update t.order t.num e; num = t.num + 1 })))
  | inr other ↦ simp other (omega (arith, take_files-num es (record t { list = t.list ++ e ∷ [] })))
]

count_files-bare : (es : List DirEntry) → count_files (map bare es) ≡ count_files es
unfolding count_files
count_files-bare [] = refl
count_files-bare (e ∷ es) = ap (λ n. (if e.is_file then 1 else 0) + n) (count_files-bare es)

bare-IsEntry : (fs : FileSystem) (es : List DirEntry) → All (IsEntry fs) es → map bare es ≡ es
bare-IsEntry fs [] all = refl
bare-IsEntry fs (e ∷ es) ((described, no_index), all) =
    ap₂ ◌∷◌ (λ i. record e { index = sym no_index i }) (bare-IsEntry fs es all)

none-indexed :
    (fs : FileSystem) (es : List DirEntry) (p i : ℕ)
    → All (IsEntry fs) es
    → ¬ (index_at es p ≡ some i)
unfolding index_at
none-indexed fs [] p i all e = cc
none-indexed fs (x ∷ es) zero i ((described, no_index), all) e = cc
none-indexed fs (x ∷ es) (suc p) i (one, all) e = none-indexed fs es p i all e

module _ {fs : FileSystem} {directory : List ℕ} (r : Hashed fs directory) where
  scan_result : IsScanned fs no_entries r.dirlist
  scan_result = dirlist_scan-IsScanned r.fuel fs directory no_entries r.dirlist success r.scanned

  scan_entries : All (IsEntry fs) r.dirlist.list
  scan_entries = subst (All (IsEntry fs)) (sym scan_result.added) scan_result.entries

  numbered :
      IsNumbered r.nodes (hashes_of r) × (map bare (hashes_of r).entries ≡ map bare r.dirlist.list)
  numbered =
      let first : IsNumbered r.nodes (unhashed r.dirlist) = record {
        counted = refl;
        own = λ p i e. absurd (none-indexed fs r.dirlist.list p i scan_entries e);
        once = λ p q i e e'. absurd (none-indexed fs r.dirlist.list p i scan_entries e);
      } in
      let (inv, all, same) = take_replies-IsNumbered r.nodes r.replies (unhashed r.dirlist) first in
      (inv, same)

  -- Hashing changes nothing of the entries that were found but their index.
  hashed-entries : map bare (hashes_of r).entries ≡ r.dirlist.list
  hashed-entries = numbered.1 ∙ bare-IsEntry fs r.dirlist.list scan_entries

  -- The array has room for exactly the files that are taken.
  files-num : (space : Cells DirEntry) → (files_of space (hashes_of r)).num ≡ r.dirlist.num_files
  files-num space = omega (
    arith,
    take_files-num (hashes_of r).entries (record { order = space; num = 0; list = [] }),
    count_files-bare (hashes_of r).entries,
    ap count_files hashed-entries,
    ap count_files scan_result.added,
    scan_result.files,
  )

  files-IsIndexed :
      (dist : Distances) (space : Cells DirEntry)
      → dist.arrnum ≡ (hashes_of r).num_hashes
      → IsIndexed dist (files_of space (hashes_of r)).order (files_of space (hashes_of r)).num
  files-IsIndexed dist space size =
      let rows = indexed-rows (hashes_of r).entries dist.arrnum (λ p i e.
        let (node, at, in_list) = numbered.0.own p i e in
        omega
          (arith, get_elem?-lt (hashes_of r).hashes i node in_list, numbered.0.counted, size)) in
      take_files-rows dist (hashes_of r).entries (record { order = space; num = 0; list = [] }) rows
        (λ i h. absurd (omega (arith, h)))

-- The list that binsort_genorder makes of entries with `num` files.
pub record IsListing (no_dirs : Bool) (es : List DirEntry) (num : ℕ) (out : List DirEntry)
    : Type 0 where
  pub before : Cells DirEntry
  pub after : Cells DirEntry
  pub files : listing before 0 num ≡ entries_of true es
  pub reordered : IsReordered num before after
  pub made : out ≡ (if no_dirs then [] else entries_of false es) ++ listing after 0 num

-- A run that prints a list prints all that the scan found: the entries in the order in which they were
-- found, or, first, those that are not files, unless b_NoDirs leaves them out, and then all files in
-- some order, as many as the scan counted; no file is lost or doubled, and hashing has changed nothing
-- of an entry but its index.
pub Prints-all :
    (fs : FileSystem) (directory : List ℕ) (scale : Score → ℕ) (root : ℕ → ℕ) (numworkers : ℕ)
    (no_dirs : Bool) (out : List DirEntry)
    → Prints fs directory scale root numworkers no_dirs out
    → (r : Hashed fs directory) × (map bare (hashes_of r).entries ≡ r.dirlist.list)
      × ((out ≡ (hashes_of r).entries)
          ⊎ IsListing no_dirs (hashes_of r).entries r.dirlist.num_files out)
Prints-all fs directory scale root numworkers no_dirs out (as_found r few same) =
    (r, hashed-entries r, inl same)
Prints-all fs directory scale root numworkers no_dirs out (optimised r o) =
    let dist = matrix scale (hashes_of r) o.msgs o.answered o.work in
    let (x, list, order, files) =
      end_order-IsReordered dist o.space (hashes_of r).entries o.last o.steps no_dirs in
    let size = files-num r o.space in
    (
      r,
      hashed-entries r,
      inr record {
        before = (files_of o.space (hashes_of r)).order;
        after = x;
        files = rw size at files;
        reordered = rw size at order;
        made =
            o.printed
            ∙ list
            ∙ ap
                (λ n.
                  (if no_dirs then [] else entries_of false (hashes_of r).entries) ++ listing x 0 n)
                size;
      },
    )

-- With more than two hashes and only files printed, whatever the workers have done: the distance that
-- they have kept is the length of the way through the files that are printed and the step from the last
-- of them back to the first, and no two neighbours are farther apart than that step, for the distances
-- that binsort_gendistances has filled in, if `root` gives whole square roots and there is a worker.
pub run_distance :
    (fs : FileSystem) (directory : List ℕ) (scale : Score → ℕ) (root : ℕ → ℕ) (numworkers : ℕ)
    (out : List DirEntry) (r : Hashed fs directory)
    (o : Optimised scale root numworkers true (hashes_of r) out)
    → IsRoot root
    → 0 < numworkers
    → let dist = matrix scale (hashes_of r) o.msgs o.answered o.work in
      (o.last.distance ≡ pos (way_length dist out + closing_length dist out))
      × IsWithin dist (closing_length dist out) out
unfolding matrix
run_distance fs directory scale root numworkers out r o is_root some_worker =
    let h = hashes_of r in
    let dist = matrix scale h o.msgs o.answered o.work in
    let filled =
      gendistances_correct root h.num_hashes numworkers scale (hash_cells h.hashes) o.msgs
        o.sent_count o.answered o.work is_root (omega (arith, o.enough)) some_worker o.sent
        o.all_sent o.all_answered in
    let symmetric : IsSymmetric dist =
      filled-IsSymmetric h.num_hashes scale (hash_cells h.hashes) dist.array filled in
    subst
      (λ (l : List DirEntry).
        (o.last.distance ≡ pos (way_length dist l + closing_length dist l))
        × IsWithin dist (closing_length dist l) l)
      (sym o.printed)
      (end_order_correct dist o.space h.entries o.last o.steps symmetric
        (files-IsIndexed r dist o.space refl) o.done)
