-- ===== src/Binsort/Genhashes.antt =====
-- binsort_genhashes: the files go to the workers, and the hashes that come back are numbered.
-- A file is the position of its entry in the list. The replies are given as the sequence in which they come, and
-- `nodes` is the hash node, if any, that a worker has put into an entry. Waiting and the display of progress are left
-- out.
pub mod Numbered
mod Tests
use binsort.Base.{
  ℕ, zero, suc, ◌+◌, ◌%◌, Bool, true, false, Option, none, some, List, [], ◌∷◌, ◌++◌, Cells,
  if◌then◌else◌,
}
use binsort.Binsort.Order.{DirEntry}
use binsort.Binsort.Distances.{HashNode}

-- The messages sent, with the number of the worker that each goes to, from position `p` on.
unfoldable pub send_files : ℕ → List DirEntry → ℕ → ℕ → List (ℕ × ℕ)
send_files numworkers [] p sent = []
send_files numworkers (e ∷ es) p sent =
    let rest = send_files numworkers es (p + 1) (if e.is_file then sent + 1 else sent) in
    if e.is_file then (p, sent % numworkers) ∷ rest else rest

-- The entries, `b_Hashes` and `b_NumHashes`.
pub record Hashes : Type 0 where
  pub entries : List DirEntry
  pub hashes : List HashNode
  pub num_hashes : ℕ

-- `den_Index` of the entry at a position.
unfoldable pub set_index : List DirEntry → ℕ → ℕ → List DirEntry
set_index [] p i = []
set_index (e ∷ es) zero i = record e { index = some i } ∷ es
set_index (e ∷ es) (suc p) i = e ∷ set_index es p i

unfoldable pub take_reply : Option HashNode → ℕ → Hashes → Hashes
take_reply none p h = h
take_reply (some node) p h = record {
  entries = set_index h.entries p h.num_hashes;
  hashes = h.hashes ++ node ∷ [];
  num_hashes = h.num_hashes + 1;
}

unfoldable pub take_replies : Cells (Option HashNode) → List ℕ → Hashes → Hashes
unfolding take_reply set_index
take_replies nodes [] h = h
take_replies nodes (p ∷ replies) h = take_replies nodes replies (take_reply (nodes p) p h)
