-- ===== src/Binsort/Hashing.antt =====
-- binsort_worker_hash: the print of one file, copied behind a list node, with simhash_get, which gives its
-- words and their size in bytes, and simhash_create, which makes a print of them again.
pub mod Stored
use binsort.Base.{
  ℕ, ◌*◌, ◌/◌, Bool, true, false, Option, none, some, List, Cells, ltb, if◌then◌else◌,
}
use binsort.Simhash.Global.{
  Run, ok, failed, aborted, Simhash, simhash_nshingle, FileMemory, simhash_file,
}
use binsort.Binsort.Distances.{HashNode}

-- The values of `binsort_error_t` that a file can have.
pub data FileError : Type 0 where
  success file_open hashing out_of_memory : FileError

unfoldable pub simhash_get : Simhash → Cells ℕ × ℕ
simhash_get hi = (hi.feature, hi.nfeature * 4)

-- `memcpy` of `n` words.
unfoldable pub copy_words : ℕ → Cells ℕ → Cells ℕ → Cells ℕ
copy_words n from to j = if ltb j n then from j else to j

-- A print made of stored words; `info` and `cells` are what `malloc` finds. (A size that is no multiple
-- of 4, which simhash_get never gives, would have a part of a word copied, which is left out.)
unfoldable pub simhash_create : Bool → Option (Cells ℕ) → Cells ℕ → ℕ → Option Simhash
simhash_create false cells hash len = none
simhash_create true none hash len = none
simhash_create true (some cells) hash len = some (record {
  feature = copy_words (len / 4) hash cells;
  nfeature = len / 4;
  nshingle = simhash_nshingle;
})

-- `den_Error` and `den_HashNode` once the print is there; `space` is what `malloc` returns for the node.
unfoldable pub store_hash : Option (Cells ℕ) → Simhash → FileError × Option HashNode
store_hash none h = (out_of_memory, none)
store_hash (some cells) h =
    let (hash, hsize) = simhash_get h in
    (success, some (record { hash = copy_words h.nfeature hash cells; size = hsize }))

-- `file` is the file's bytes, or `none` if it does not open.
unfoldable pub worker_hash :
    FileMemory → Option (Cells ℕ) → Option (List ℕ) → Run (FileError × Option HashNode)
worker_hash mem space none = ok (file_open, none)
worker_hash mem space (some f) = elim (simhash_file mem f) [
  | ok h ↦ ok (store_hash space h)
  | failed ↦ ok (hashing, none)
  | aborted ↦ aborted
]
