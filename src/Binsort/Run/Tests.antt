-- ===== src/Binsort/Run/Tests.antt =====
-- The theorems on binsort_run, and on its scan, at a directory of three files and another one in it.
use binsort.Base.{
  ℕ, ◌+◌, ◌-◌, ◌<◌, ◌≤◌, ◌≡◌, ◌⊎◌, refl, inl, inr, Bool, true, false, none, some, List, [], ◌∷◌,
  map, Cells, length, All, leb, ◌==◌, length-append, Bool-cases, leb→le, ap, if◌then◌else◌, arith,
}
use mathlib.Core.Path.{subst}
use mathlib.Core.Option.{some-injective}
use binsort.Simhash.Score.{Score}
use binsort.Base.Int.{pos}
use binsort.Binsort.Order.{DirEntry, Distances}
use binsort.Binsort.Distances.{HashNode, Work}
use binsort.Binsort.Scan.{ScanError, success, FileSystem, DirList, path, strip_slash, dirlist_scan}
use binsort.Binsort.Scan.Counted.{IsScanned, dirlist_scan-IsScanned}
use binsort.Binsort.Scan.Ends.{IsLower, IsRank, dirlist_scan_ends}
use binsort.Binsort.Genhashes.{take_replies}
use binsort.Binsort.Genhashes.Numbered.{bare}
use binsort.Binsort.Gendistances.{HashMessage, limit_workers, behind_last, send_loop, send_rows}
use binsort.Binsort.Gendistances.Root.{square_root, square_root-IsRoot}
use binsort.Binsort.Optimise.{Shared, start}
use binsort.Binsort.Genorder.{start_order, end_order}
use binsort.Binsort.Genorder.Cut.{way_length, closing_length, IsWithin}
use binsort.Binsort.Run.{no_entries, Hashed, hashes_of, matrix, files_of, Optimised, optimised}
use binsort.Binsort.Run.Sound.{IsListing, Prints-all, run_distance}

abbrev entry : List ℕ → DirEntry
entry p = record { name = p; index = none; is_file = true; is_dir = false }

abbrev folder : List ℕ → DirEntry
folder p = record { name = p; index = none; is_file = false; is_dir = true }

-- Every directory has ".", "a", "s" and "b"; what is called "s" is a directory, and the rest are files. No directory
-- opens whose name has more than three characters.
abbrev names : List (List ℕ)
names = (b'.' ∷ []) ∷ (b'a' ∷ []) ∷ (b's' ∷ []) ∷ (b'b' ∷ []) ∷ []

abbrev last_byte : List ℕ → ℕ
last_byte [] = 0
last_byte (c ∷ []) = c
last_byte (c ∷ d ∷ cs) = last_byte (d ∷ cs)

abbrev two_levels : FileSystem
two_levels = record {
  readdir = λ p. if leb (length p) 3 then some (names, false) else none;
  stat = λ p. if last_byte p == b's' then some (false, true) else some (true, false);
  memory = λ p. true;
}

abbrev top : List ℕ
top = b'd' ∷ b'/' ∷ []

-- "d/a", "d/s", "d/b", "d/s/a", "d/s/s" and "d/s/b".
abbrev found : DirList
found = record {
  list =
      entry (b'd' ∷ b'/' ∷ b'a' ∷ [])
      ∷ folder (b'd' ∷ b'/' ∷ b's' ∷ [])
      ∷ entry (b'd' ∷ b'/' ∷ b'b' ∷ [])
      ∷ entry (b'd' ∷ b'/' ∷ b's' ∷ b'/' ∷ b'a' ∷ [])
      ∷ folder (b'd' ∷ b'/' ∷ b's' ∷ b'/' ∷ b's' ∷ [])
      ∷ entry (b'd' ∷ b'/' ∷ b's' ∷ b'/' ∷ b'b' ∷ [])
      ∷ [];
  num_total = 6;
  num_files = 4;
}

scanned : dirlist_scan 3 two_levels top no_entries ≡ some (success, found)
unfolding dirlist_scan
scanned = refl

dirlist_scan-IsScanned_example : IsScanned two_levels no_entries found
dirlist_scan-IsScanned_example =
    dirlist_scan-IsScanned 3 two_levels top no_entries found success scanned

length-strip_slash : (p : List ℕ) → length p ≤ length (strip_slash p) + 1
unfolding strip_slash
length-strip_slash [] = omega arith
length-strip_slash (c ∷ []) = ground arith
length-strip_slash (c ∷ d ∷ cs) = omega (arith, length-strip_slash (d ∷ cs))

longer_path : (p : List ℕ) (c : ℕ) → length p < length (path p (c ∷ []))
unfolding path
longer_path p c = omega (arith, length-strip_slash p, length-append (strip_slash p) (b'/' ∷ c ∷ []))

-- The longer the name, the lower the rank.
abbrev rank : List ℕ → ℕ
rank p = 9 - length p

IsLower-name :
    (dirname : List ℕ) (c : ℕ) → length dirname ≤ 3 → IsLower two_levels rank dirname (c ∷ [])
IsLower-name dirname c short is_file no_dots dir = omega (arith, longer_path dirname c, short)

two_levels-IsRank : IsRank two_levels rank
two_levels-IsRank dirname listed failed e = elim (Bool-cases (leb (length dirname) 3)) [
  | inr long ↦ let closed = rw long at e in absurd cc
  | inl short ↦
      let h = leb→le (length dirname) 3 short in
      let same : names ≡ listed =
        ap (λ r. r.0)
          (some-injective {A = List (List ℕ) × Bool} (names, false) (listed, failed)
            (rw short at e)) in
      subst (All (IsLower two_levels rank dirname)) same (
        IsLower-name dirname b'.' h,
        (
          IsLower-name dirname b'a' h,
          (IsLower-name dirname b's' h, (IsLower-name dirname b'b' h, tt)),
        ),
      )
]

dirlist_scan_ends_example :
    (r : ScanError × DirList) × (dirlist_scan 8 two_levels top no_entries ≡ some r)
dirlist_scan_ends_example =
    dirlist_scan_ends 8 two_levels rank top no_entries two_levels-IsRank (omega arith)

-- All files but the second have a hash, and their replies come in another order.
abbrev some_node : HashNode
some_node = record { hash = λ j. 0; size = 0 }

abbrev hashed : Hashed two_levels top
hashed = record {
  fuel = 3;
  dirlist = found;
  scanned = scanned;
  nodes = λ p. if p == 2 then none else some some_node;
  replies = 5 ∷ 0 ∷ 2 ∷ 3 ∷ [];
}

abbrev no_score : Score → ℕ
no_score s = 0

abbrev no_work : Work
no_work = record { array = λ i. 7; pairs = 0; distances_left = pos 3; updates = 0 }

three_hashes : (hashes_of hashed).num_hashes ≡ 3
unfolding take_replies
three_hashes = refl

abbrev one_message : List HashMessage
one_message = record { first = 0; behind = 3 } ∷ []

one_sent : send_rows true true square_root (hashes_of hashed).num_hashes 2 ≡ some (one_message, 1)
unfolding send_rows take_replies send_loop limit_workers behind_last
one_sent = refl

abbrev distances : Distances
distances = matrix no_score (hashes_of hashed) one_message (0 ∷ []) no_work

abbrev space : Cells DirEntry
space i = folder []

abbrev begun : Shared
begun = start_order distances (files_of space (hashes_of hashed))

abbrev out : List DirEntry
out = end_order distances true (files_of space (hashes_of hashed)) begun

-- A run in which no worker finds a better order.
one_run : Optimised no_score square_root 2 true (hashes_of hashed) out
unfolding start_order
one_run = record {
  enough = omega (arith, three_hashes);
  msgs = one_message;
  sent_count = 1;
  sent = one_sent;
  answered = 0 ∷ [];
  all_sent = omega arith;
  all_answered = λ i h. omega (arith, h);
  work = no_work;
  space = space;
  last = begun;
  steps = start;
  done = refl;
  printed = refl;
}

Prints-all_example :
    (r : Hashed two_levels top) × (map bare (hashes_of r).entries ≡ r.dirlist.list)
    × ((out ≡ (hashes_of r).entries) ⊎ IsListing true (hashes_of r).entries r.dirlist.num_files out)
Prints-all_example =
    Prints-all two_levels top no_score square_root 2 true out (optimised hashed one_run)

run_distance_example :
    let dist = matrix no_score (hashes_of hashed) one_run.msgs one_run.answered one_run.work in
    (one_run.last.distance ≡ pos (way_length dist out + closing_length dist out))
    × IsWithin dist (closing_length dist out) out
run_distance_example =
    run_distance two_levels top no_score square_root 2 out hashed one_run square_root-IsRoot
      (omega arith)
