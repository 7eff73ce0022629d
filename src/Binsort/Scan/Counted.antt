-- ===== src/Binsort/Scan/Counted.antt =====
-- A scan only adds entries that stat has described, and counts them.
use mathlib.Core.List.{append_assoc, append-nil}
use mathlib.Core.Option.{some-injective}
use mathlib.Core.Path.{subst}
use binsort.Base.{
  ℕ, zero, suc, ◌+◌, ◌≡◌, refl, sym, ap, ◌∙◌, inl, inr, Bool, true, false, Option, none, some, List,
  [], ◌∷◌, ◌++◌, length, length-append, All, All-append, if◌then◌else◌, Bool-cases, arith,
}
use binsort.Binsort.Order.{DirEntry}
use binsort.Binsort.Scan.{
  ScanError, success, dir_open, dir_examine, FileSystem, DirList, is_dots, path, new_entry,
  add_entry, add_name, read_names, scan_dirs, end_scan, scan_opened, dirlist_scan,
}

unfoldable pub count_files : List DirEntry → ℕ
count_files [] = 0
count_files (e ∷ es) = (if e.is_file then 1 else 0) + count_files es

count_files-append :
    (es fs : List DirEntry) → count_files (es ++ fs) ≡ count_files es + count_files fs
unfolding count_files
count_files-append [] fs = omega arith
count_files-append (e ∷ es) fs = omega (arith, count_files-append es fs)

-- The entry says what stat said of its name, and has no index yet.
abbrev pub IsEntry : FileSystem → DirEntry → Type 0
IsEntry fs e = (fs.stat e.name ≡ some (e.is_file, e.is_dir)) × (e.index ≡ none)

-- `l'` is `l` with entries of the file system behind it, which are counted.
pub record IsScanned (fs : FileSystem) (l l' : DirList) : Type 0 where
  pub more : List DirEntry
  pub added : l'.list ≡ l.list ++ more
  pub entries : All (IsEntry fs) more
  pub total : l'.num_total ≡ l.num_total + length more
  pub files : l'.num_files ≡ l.num_files + count_files more

module _ (fs : FileSystem) where
  IsScanned-refl : (l : DirList) → IsScanned fs l l
  unfolding count_files
  IsScanned-refl l = record {
    more = [];
    added = sym (append-nil l.list);
    entries = tt;
    total = omega arith;
    files = omega arith;
  }

  IsScanned-trans :
      {l l' l'' : DirList} → IsScanned fs l l' → IsScanned fs l' l'' → IsScanned fs l l''
  IsScanned-trans {l} s t = record {
    more = s.more ++ t.more;
    added = t.added ∙ ap (λ es. es ++ t.more) s.added ∙ append_assoc l.list s.more t.more;
    entries = All-append (IsEntry fs) s.more t.more s.entries t.entries;
    total = omega (arith, s.total, t.total, length-append s.more t.more);
    files = omega (arith, s.files, t.files, count_files-append s.more t.more);
  }

  pub new_entry-IsEntry :
      (p : List ℕ) (e : DirEntry) → new_entry fs p ≡ some e → IsEntry fs e × (e.name ≡ p)
  unfolding new_entry
  new_entry-IsEntry p e made = ground arith

  add_entry-IsScanned :
      (p : List ℕ) (l : DirList × List DirEntry) → IsScanned fs l.0 (add_entry (new_entry fs p) l).0
  unfolding add_entry count_files
  add_entry-IsScanned p (l, news) = by_entry (new_entry fs p) refl
    where
      by_entry :
          (q : Option DirEntry) → new_entry fs p ≡ q → IsScanned fs l (add_entry q (l, news)).0
      by_entry none made = IsScanned-refl l
      by_entry (some e) made = record {
        more = e ∷ [];
        added = refl;
        entries = ((new_entry-IsEntry p e made).0, tt);
        total = omega arith;
        files = ground arith;
      }

  add_name-IsScanned :
      (dirname name : List ℕ) (l : DirList × List DirEntry)
      → IsScanned fs l.0 (add_name fs dirname name l).0
  unfolding add_name
  add_name-IsScanned dirname name l = elim (Bool-cases (is_dots name)) [
    | inl dots ↦ rw dots (IsScanned-refl l.0)
    | inr other ↦ rw other (add_entry-IsScanned (path dirname name) l)
  ]

  read_names-IsScanned :
      (dirname : List ℕ) (names : List (List ℕ)) (l : DirList × List DirEntry)
      → IsScanned fs l.0 (read_names fs dirname names l).0
  unfolding read_names
  read_names-IsScanned dirname [] l = IsScanned-refl l.0
  read_names-IsScanned dirname (name ∷ names) l =
      IsScanned-trans (add_name-IsScanned dirname name l)
        (read_names-IsScanned dirname names (add_name fs dirname name l))

  returned-IsScanned :
      (l l' : DirList) (err err' : ScanError)
      → ◌≡◌ {A = Option (ScanError × DirList)} (some (err, l)) (some (err', l'))
      → IsScanned fs l l'
  returned-IsScanned l l' err err' e =
      subst (λ x. IsScanned fs l x)
        (ap (λ r. r.1) (some-injective {A = ScanError × DirList} (err, l) (err', l') e))
        (IsScanned-refl l)

  module _ (scan : List ℕ → DirList → Option (ScanError × DirList))
      (scanned : (p : List ℕ) (l l' : DirList) (err : ScanError)
        → scan p l ≡ some (err, l')
        → IsScanned fs l l') where
    scan_dirs-IsScanned :
        (es : List DirEntry) (l l' : DirList) (err : ScanError)
        → scan_dirs scan es l ≡ some (err, l')
        → IsScanned fs l l'
    unfolding scan_dirs
    scan_dirs-IsScanned [] l l' err e = returned-IsScanned l l' success err e
    scan_dirs-IsScanned (d ∷ es) l l' err e = elim (Bool-cases d.is_dir) [
      | inr other ↦ scan_dirs-IsScanned es l l' err (simp other at e)
      | inl dir ↦
          by_scan (scan d.name l) refl (simp dir at e) (λ l1. scan_dirs-IsScanned es l1 l' err)
    ]
      where
        by_scan :
            (q : Option (ScanError × DirList))
            → scan d.name l ≡ q
            → elim q as (λ x. Option (ScanError × DirList)) [
              | none ↦ none
              | some (err1, l1) ↦ scan_dirs scan es l1
            ]
              ≡ some (err, l')
            → ((l1 : DirList) → scan_dirs scan es l1 ≡ some (err, l') → IsScanned fs l1 l')
            → IsScanned fs l l'
        by_scan none at e ih = absurd (cc)
        by_scan (some (err1, l1)) at e ih = IsScanned-trans (scanned d.name l l1 err1 at) (ih l1 e)

    end_scan-IsScanned :
        (failed : Bool) (r : DirList × List DirEntry) (l' : DirList) (err : ScanError)
        → end_scan scan failed r ≡ some (err, l')
        → IsScanned fs r.0 l'
    unfolding end_scan
    end_scan-IsScanned true (l, news) l' err e = returned-IsScanned l l' dir_examine err e
    end_scan-IsScanned false (l, news) l' err e = scan_dirs-IsScanned news l l' err e

    scan_opened-IsScanned :
        (dirname : List ℕ) (l l' : DirList) (err : ScanError)
        (opened : Option (List (List ℕ) × Bool))
        → scan_opened scan fs dirname l opened ≡ some (err, l')
        → IsScanned fs l l'
    unfolding scan_opened
    scan_opened-IsScanned dirname l l' err none e = returned-IsScanned l l' dir_open err e
    scan_opened-IsScanned dirname l l' err (some (names, failed)) e =
        IsScanned-trans (read_names-IsScanned dirname names (l, []))
          (end_scan-IsScanned failed (read_names fs dirname names (l, [])) l' err e)

-- Whatever a scan returns, it has put entries behind the list, all of them as stat described their
-- names and with no index, and has counted them and the files among them.
pub dirlist_scan-IsScanned :
    (fuel : ℕ) (fs : FileSystem) (dirname : List ℕ) (l l' : DirList) (err : ScanError)
    → dirlist_scan fuel fs dirname l ≡ some (err, l')
    → IsScanned fs l l'
unfolding dirlist_scan
dirlist_scan-IsScanned zero fs dirname l l' err e = absurd (cc)
dirlist_scan-IsScanned (suc fuel) fs dirname l l' err e =
    scan_opened-IsScanned fs (dirlist_scan fuel fs)
      (λ p l l' err. dirlist_scan-IsScanned fuel fs p l l' err) dirname l l' err
      (fs.readdir dirname) e
