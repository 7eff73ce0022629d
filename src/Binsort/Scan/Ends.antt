-- ===== src/Binsort/Scan/Ends.antt =====
-- A scan comes to its end if no directory is below itself.
use binsort.Base.{
  ℕ, zero, suc, ◌<◌, ◌≡◌, refl, sym, ap, ◌∙◌, inl, inr, Bool, true, false, Option, none, some, List,
  [], ◌∷◌, All, All-append, Bool-cases, arith,
}
use binsort.Binsort.Order.{DirEntry}
use binsort.Binsort.Scan.Counted.{new_entry-IsEntry}
use binsort.Binsort.Scan.{
  ScanError, success, dir_open, dir_examine, FileSystem, DirList, is_dots, path, new_entry,
  add_entry, add_name, read_names, scan_dirs, end_scan, scan_opened, dirlist_scan,
}

-- A name that stands for a directory, other than the directory itself and its parent, is of lower rank.
abbrev pub IsLower : FileSystem → (List ℕ → ℕ) → List ℕ → List ℕ → Type 0
IsLower fs rank dirname name =
    (is_file : Bool)
    → is_dots name ≡ false
    → fs.stat (path dirname name) ≡ some (is_file, true)
    → rank (path dirname name) < rank dirname

-- A rank that falls from each directory to those that it lists.
abbrev pub IsRank : FileSystem → (List ℕ → ℕ) → Type 0
IsRank fs rank =
    (dirname : List ℕ) (names : List (List ℕ)) (failed : Bool)
    → fs.readdir dirname ≡ some (names, failed)
    → All (IsLower fs rank dirname) names

-- The entry is no directory, or one of a lower rank.
abbrev IsBelow : (List ℕ → ℕ) → List ℕ → DirEntry → Type 0
IsBelow rank dirname e = e.is_dir ≡ true → rank e.name < rank dirname

module _ (fs : FileSystem) (rank : List ℕ → ℕ) (dirname : List ℕ) where
  new_entry-IsBelow :
      (name : List ℕ) (e : DirEntry)
      → IsLower fs rank dirname name
      → is_dots name ≡ false
      → new_entry fs (path dirname name) ≡ some e
      → IsBelow rank dirname e
  new_entry-IsBelow name e low other made dir =
      let ((described, no_index), named) = new_entry-IsEntry fs (path dirname name) e made in
      let lower =
        low e.is_file other
          (ap fs.stat (sym named) ∙ described ∙ ap (λ d. some (e.is_file, d)) dir) in
      omega (arith, lower, ap rank named)

  add_entry-IsBelow :
      (l : DirList × List DirEntry) (q : Option DirEntry)
      → All (IsBelow rank dirname) l.1
      → ((e : DirEntry) → q ≡ some e → IsBelow rank dirname e)
      → All (IsBelow rank dirname) (add_entry q l).1
  unfolding add_entry
  add_entry-IsBelow (l, news) none all new = all
  add_entry-IsBelow (l, news) (some e) all new =
      All-append (IsBelow rank dirname) news (e ∷ []) all (new e refl, tt)

  add_name-IsBelow :
      (name : List ℕ) (l : DirList × List DirEntry)
      → IsLower fs rank dirname name
      → All (IsBelow rank dirname) l.1
      → All (IsBelow rank dirname) (add_name fs dirname name l).1
  unfolding add_name
  add_name-IsBelow name l low all = elim (Bool-cases (is_dots name)) [
    | inl dots ↦ rw (dots, All) all
    | inr other ↦
        let q = new_entry fs (path dirname name) in
        rw (other, All)
          (add_entry-IsBelow l q all (λ e made. new_entry-IsBelow name e low other made))
  ]

  read_names-IsBelow :
      (names : List (List ℕ)) (l : DirList × List DirEntry)
      → All (IsLower fs rank dirname) names
      → All (IsBelow rank dirname) l.1
      → All (IsBelow rank dirname) (read_names fs dirname names l).1
  unfolding read_names
  read_names-IsBelow [] l low all = all
  read_names-IsBelow (name ∷ names) l (low, lows) all =
      read_names-IsBelow names (add_name fs dirname name l) lows (add_name-IsBelow name l low all)

  module _ (scan : List ℕ → DirList → Option (ScanError × DirList))
      (ends : (p : List ℕ) (l : DirList)
        → rank p < rank dirname
        → (r : ScanError × DirList) × (scan p l ≡ some r)) where
    scan_dirs_ends :
        (es : List DirEntry) (l : DirList)
        → All (IsBelow rank dirname) es
        → (r : ScanError × DirList) × (scan_dirs scan es l ≡ some r)
    unfolding scan_dirs
    scan_dirs_ends [] l all = ((success, l), refl)
    scan_dirs_ends (e ∷ es) l (below, all) = elim (Bool-cases e.is_dir) [
      | inr other ↦ let (r, done) = scan_dirs_ends es l all in (r, simp other done)
      | inl dir ↦
          let ((err, l'), made) = ends e.name l (below dir) in
          let (r, done) = scan_dirs_ends es l' all in
          (
            r,
            simp dir (
                ap
                  (λ q. elim q as (λ x. Option (ScanError × DirList)) [
                    | none ↦ none
                    | some (err, l') ↦ scan_dirs scan es l'
                  ])
                  made
                ∙ done),
          )
    ]

    scan_opened_ends :
        (l : DirList) (opened : Option (List (List ℕ) × Bool))
        → ((names : List (List ℕ)) (failed : Bool)
            → opened ≡ some (names, failed)
            → All (IsLower fs rank dirname) names)
        → (r : ScanError × DirList) × (scan_opened scan fs dirname l opened ≡ some r)
    unfolding scan_opened end_scan
    scan_opened_ends l none low = ((dir_open, l), refl)
    scan_opened_ends l (some (names, true)) low =
        ((dir_examine, (read_names fs dirname names (l, [])).0), refl)
    scan_opened_ends l (some (names, false)) low =
        let r = read_names fs dirname names (l, []) in
        scan_dirs_ends r.1 r.0 (read_names-IsBelow names (l, []) (low names false refl) tt)

-- With a rank that falls from each directory to those that it lists, a scan with more fuel than the
-- rank of its directory comes to its end.
pub dirlist_scan_ends :
    (fuel : ℕ) (fs : FileSystem) (rank : List ℕ → ℕ) (dirname : List ℕ) (l : DirList)
    → IsRank fs rank
    → rank dirname < fuel
    → (r : ScanError × DirList) × (dirlist_scan fuel fs dirname l ≡ some r)
unfolding dirlist_scan
dirlist_scan_ends zero fs rank dirname l falls h = absurd (omega (arith, h))
dirlist_scan_ends (suc fuel) fs rank dirname l falls h =
    scan_opened_ends fs rank dirname (dirlist_scan fuel fs)
      (λ p l low. dirlist_scan_ends fuel fs rank p l falls (omega (arith, low, h))) l
      (fs.readdir dirname) (falls dirname)
