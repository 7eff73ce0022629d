-- ===== src/Binsort/Genorder.antt =====
-- binsort_genorder: the files are taken from the list into the array, the workers optimise it, and the
-- files go back to the list from behind the farthest pair on.
-- `b_DirList` is the sequence of its nodes. Whether `malloc` finds memory is a parameter. The messages to
-- the workers and from them are left out: in between, the workers make the steps of Optimise.
pub mod Files
pub mod Cut
pub mod Whole
mod Tests
use binsort.Base.{
  ℕ, zero, suc, ◌+◌, ◌%◌, Bool, true, false, List, [], ◌∷◌, ◌++◌, Cells, update, if◌then◌else◌,
}
use binsort.Base.Int.{pos}
use binsort.Binsort.Order.{DirEntry, Distances, getdist}
use binsort.Binsort.Optimise.{Shared}

-- `b_Order` with `b_NumFiles`, and what is left of `b_DirList`.
pub record Taken : Type 0 where
  pub order : Cells DirEntry
  pub num : ℕ
  pub list : List DirEntry

-- The loop that removes files from the list and adds them to the array.
unfoldable pub take_files : List DirEntry → Taken → Taken
take_files [] t = t
take_files (entry ∷ entries) t = take_files entries (
    if entry.is_file
    then record t { order = update t.order t.num entry; num = t.num + 1 }
    else record t { list = t.list ++ entry ∷ [] })

-- What the workers share when they start. A cell of the array holds anything before it is set.
unfoldable pub start_order : Distances → Taken → Shared
start_order dist t = record {
  order = t.order;
  ranges = [];
  distance = pos (getdist dist t.order t.num).0;
}

-- The loop that adds the files back to the list, from the `i`-th on, with `k` rounds left.
unfoldable pub add_files : ℕ → ℕ → Cells DirEntry → ℕ → ℕ → List DirEntry → List DirEntry
add_files zero i order num startpos list = list
add_files (suc k) i order num startpos list =
    add_files k (i + 1) order num startpos (list ++ order ((i + startpos + 1) % num) ∷ [])

-- From the end of the workers on: the list, without what was left of it if `b_NoDirs` is set.
unfoldable pub end_order : Distances → Bool → Taken → Shared → List DirEntry
end_order dist no_dirs t s =
    let (d, startpos) = getdist dist s.order t.num in
    add_files t.num 0 s.order t.num startpos (if no_dirs then [] else t.list)
