-- ===== src/Binsort/Run.antt =====
-- binsort_run: scan, hash, calculate the distances, optimise, print.
-- A run without error is recorded with what others decide in it: the fuel of the scan, the hashes that workers make
-- and the order of their replies, the order in which the messages for rows are answered, and the steps of the workers
-- on the order of the files. What is printed is the list of entries.
pub mod Sound
mod Tests
use binsort.Base.{
  ℕ, ◌+◌, ◌<◌, ◌≤◌, ◌≡◌, Bool, true, false, Option, none, some, List, [], ◌∷◌, map, Cells,
  get_elem?, All, IsAmong,
}
use binsort.Simhash.Score.{Score}
use binsort.Binsort.Order.{DirEntry, Distances}
use binsort.Binsort.Distances.{HashNode, Work}
use binsort.Binsort.Scan.{success, FileSystem, DirList, dirlist_scan}
use binsort.Binsort.Genhashes.{Hashes, take_replies}
use binsort.Binsort.Gendistances.{HashMessage, send_rows, answer}
use binsort.Binsort.Gendistances.Answers.{AllBelow}
use binsort.Binsort.Gendistances.Whole.{message_at}
use binsort.Binsort.Optimise.{Shared, Reachable}
use binsort.Binsort.Genorder.{Taken, take_files, start_order, end_order}

-- What binsort_init makes of the list.
abbrev pub no_entries : DirList
no_entries = record { list = []; num_total = 0; num_files = 0 }

-- The state before binsort_genhashes.
abbrev pub unhashed : DirList → Hashes
unhashed l = record { entries = l.list; hashes = []; num_hashes = 0 }

-- The list of hashes as an array, which nothing reads out of range.
unfoldable pub hash_cells : List HashNode → Cells HashNode
hash_cells hashes i = elim (get_elem? hashes i) [
  | none ↦ record { hash = λ j. 0; size = 0 }
  | some node ↦ node
]

-- `b_Distances` once the messages have been answered in the order `js`.
unfoldable pub matrix : (Score → ℕ) → Hashes → List HashMessage → List ℕ → Work → Distances
matrix scale h msgs js w = record {
  array = (answer (map (message_at msgs) js) h.num_hashes scale (hash_cells h.hashes) w).array;
  arrnum = h.num_hashes;
}

-- The files taken from the list, into an array that holds anything.
abbrev pub files_of : Cells DirEntry → Hashes → Taken
files_of space h = take_files h.entries (record { order = space; num = 0; list = [] })

-- The scan and the hashing of a run.
pub record Hashed (fs : FileSystem) (directory : List ℕ) : Type 0 where
  pub fuel : ℕ
  pub dirlist : DirList
  pub scanned : dirlist_scan fuel fs directory no_entries ≡ some (success, dirlist)
  pub nodes : Cells (Option HashNode)
  pub replies : List ℕ

-- What the run knows when all files are hashed.
abbrev pub hashes_of : {fs : FileSystem} {directory : List ℕ} → Hashed fs directory → Hashes
hashes_of r = take_replies r.nodes r.replies (unhashed r.dirlist)

-- The rest of a run with more than two hashes, up to the list that it prints.
pub record Optimised (scale : Score → ℕ) (root : ℕ → ℕ) (numworkers : ℕ) (no_dirs : Bool)
    (h : Hashes) (out : List DirEntry) : Type 0 where
  pub enough : 2 < h.num_hashes
  pub msgs : List HashMessage
  pub sent_count : ℕ
  pub sent : send_rows true true root h.num_hashes numworkers ≡ some (msgs, sent_count)
  pub answered : List ℕ
  pub all_sent : AllBelow sent_count answered
  pub all_answered : (i : ℕ) → i < sent_count → IsAmong i answered
  pub work : Work
  pub space : Cells DirEntry
  pub last : Shared
  pub steps :
      Reachable
        (matrix scale h msgs answered work)
        (files_of space h).num
        (start_order (matrix scale h msgs answered work) (files_of space h))
        last
  pub done : last.ranges ≡ []
  pub printed : out ≡ end_order (matrix scale h msgs answered work) no_dirs (files_of space h) last

-- A run that prints a list: with at most two hashes, the entries as they were found, whatever `no_dirs` says.
pub data Prints (fs : FileSystem) (directory : List ℕ) (scale : Score → ℕ) (root : ℕ → ℕ)
    (numworkers : ℕ) (no_dirs : Bool) (out : List DirEntry) : Type 0 where
  as_found :
      (r : Hashed fs directory)
      → (hashes_of r).num_hashes ≤ 2
      → out ≡ (hashes_of r).entries
      → Prints fs directory scale root numworkers no_dirs out
  optimised :
      (r : Hashed fs directory)
      → Optimised scale root numworkers no_dirs (hashes_of r) out
      → Prints fs directory scale root numworkers no_dirs out
