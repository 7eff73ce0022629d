-- ===== src/Binsort/Scan.antt =====
-- dirlist_scan of binsort.c: a directory and all below it as one list of entries.
-- What opendir, readdir, stat and malloc give is a parameter. The list of nodes is the sequence of its entries, and
-- what is printed to stderr is left out. Links may make a directory its own descendant, so that the recursion has
-- fuel, the depth of calls.
pub mod Counted
pub mod Ends
use binsort.Base.{
  ℕ, zero, suc, ◌+◌, Bool, true, false, ◌&&◌, Option, none, some, List, [], ◌∷◌, ◌++◌, ◌==◌,
  if◌then◌else◌,
}
use binsort.Binsort.Order.{DirEntry}

-- The values of `binsort_error_t` that a scan gives.
pub data ScanError : Type 0 where
  success dir_open dir_examine : ScanError

-- The names that readdir gives of a directory that opens, and whether it ends with an error; whether an object is a
-- file and whether it is a directory, if stat knows it; and whether there is memory for its entry.
pub record FileSystem : Type 0 where
  pub readdir : List ℕ → Option (List (List ℕ) × Bool)
  pub stat : List ℕ → Option (Bool × Bool)
  pub memory : List ℕ → Bool

-- `struct DirList`
pub record DirList : Type 0 where
  pub list : List DirEntry
  pub num_total : ℕ
  pub num_files : ℕ

-- "." and ".."
unfoldable pub is_dots : List ℕ → Bool
is_dots [] = false
is_dots (c ∷ []) = c == b'.'
is_dots (c ∷ d ∷ []) = c == b'.' && d == b'.'
is_dots (c ∷ d ∷ e ∷ cs) = false

-- A directory's name without a slash at its end.
unfoldable pub strip_slash : List ℕ → List ℕ
strip_slash [] = []
strip_slash (c ∷ []) = if c == b'/' then [] else c ∷ []
strip_slash (c ∷ d ∷ cs) = c ∷ strip_slash (d ∷ cs)

unfoldable pub path : List ℕ → List ℕ → List ℕ
unfolding strip_slash
path dirname name = strip_slash dirname ++ (b'/' ∷ name)

unfoldable pub new_entry : FileSystem → List ℕ → Option DirEntry
new_entry fs p =
    if fs.memory p
    then (elim (fs.stat p) [
      | none ↦ none
      | some (is_file, is_dir) ↦
          some (record { name = p; index = none; is_file = is_file; is_dir = is_dir })
    ])
    else none

-- What a round adds to the list, and to the `num` new entries.
unfoldable pub add_entry : Option DirEntry → DirList × List DirEntry → DirList × List DirEntry
add_entry none (l, added) = (l, added)
add_entry (some e) (l, added) = (
  record {
    list = l.list ++ e ∷ [];
    num_total = l.num_total + 1;
    num_files = if e.is_file then l.num_files + 1 else l.num_files;
  },
  added ++ e ∷ [],
)

unfoldable pub add_name :
    FileSystem → List ℕ → List ℕ → DirList × List DirEntry → DirList × List DirEntry
unfolding is_dots path new_entry add_entry
add_name fs dirname name l =
    if is_dots name then l else add_entry (new_entry fs (path dirname name)) l

-- The loop over readdir.
unfoldable pub read_names :
    FileSystem → List ℕ → List (List ℕ) → DirList × List DirEntry → DirList × List DirEntry
unfolding add_name
read_names fs dirname [] l = l
read_names fs dirname (name ∷ names) l = read_names fs dirname names (add_name fs dirname name l)

-- The loop over the new entries, for a scan of a directory; what it returns is not looked at.
unfoldable pub scan_dirs :
    (List ℕ → DirList → Option (ScanError × DirList))
    → List DirEntry
    → DirList
    → Option (ScanError × DirList)
scan_dirs scan [] l = some (success, l)
scan_dirs scan (e ∷ es) l =
    let skip = scan_dirs scan es l in
    if e.is_dir
    then (elim (scan e.name l) [ none ↦ none | some (err, l') ↦ scan_dirs scan es l' ])
    else skip

-- What is done behind the loop over readdir.
unfoldable pub end_scan :
    (List ℕ → DirList → Option (ScanError × DirList))
    → Bool
    → DirList × List DirEntry
    → Option (ScanError × DirList)
unfolding scan_dirs
end_scan scan failed (l, added) = if failed then some (dir_examine, l) else scan_dirs scan added l

unfoldable pub scan_opened :
    (List ℕ → DirList → Option (ScanError × DirList))
    → FileSystem
    → List ℕ
    → DirList
    → Option (List (List ℕ) × Bool)
    → Option (ScanError × DirList)
unfolding read_names end_scan
scan_opened scan fs dirname l none = some (dir_open, l)
scan_opened scan fs dirname l (some (names, failed)) =
    end_scan scan failed (read_names fs dirname names (l, []))

-- `none` is no fuel.
unfoldable pub dirlist_scan : ℕ → FileSystem → List ℕ → DirList → Option (ScanError × DirList)
unfolding scan_opened
dirlist_scan zero fs dirname l = none
dirlist_scan (suc fuel) fs dirname l =
    scan_opened (dirlist_scan fuel fs) fs dirname l (fs.readdir dirname)
