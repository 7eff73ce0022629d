-- ===== src/Binsort/Order.antt =====
-- The order of the files and its length (getdist, getdelta), and one step of the optimisation
-- (the choice of a range and its reversal in binsort_worker_optimize).
-- An index `den_Index` of -1, for a file with no hash, is `none`. A `num_t` stays far below 2^63.
pub mod Range
pub mod Walk
pub mod Places
pub mod Turned
pub mod Reverse
pub mod Delta
use binsort.Base.{
  ℕ, zero, suc, ◌+◌, ◌-◌, ◌*◌, ◌/◌, ◌%◌, Bool, true, false, ◌&&◌, Option, none, some, List, Cells,
  update, swap, ltb, leb, ◌==◌, if◌then◌else◌,
}
use binsort.Base.Int.{ℤ, pos, negsuc, ◌+ℤ◌, ◌-ℤ◌}

-- The part of `struct DirEntry` that the order is about. A name is the list of its bytes. An entry
-- may be neither a file nor a directory.
pub record DirEntry : Type 0 where
  pub name : List ℕ
  pub index : Option ℕ
  pub is_file : Bool
  pub is_dir : Bool

-- `b_Distances` with its number of rows `b_NumHashes`.
pub record Distances : Type 0 where
  pub array : Cells ℕ
  pub arrnum : ℕ

-- The variables of the loop of getdist. A `worstd` of -1 is `none`.
pub record Survey : Type 0 where
  pub d : ℕ
  pub worstd : Option ℕ
  pub startpos : ℕ

abbrev exceeds : ℕ → Option ℕ → Bool
exceeds dd none = true
exceeds dd (some w) = ltb w dd

-- One round of getdist: the pair at `i0` counts if both files have a hash.
unfoldable pub survey_pair : Distances → ℕ → Option ℕ → Option ℕ → Survey → Survey
survey_pair dist i0 none b s = s
survey_pair dist i0 (some a) none s = s
survey_pair dist i0 (some a) (some b) s =
    let dd = dist.array (a * dist.arrnum + b) in
    if exceeds dd s.worstd
    then record { d = s.d + dd; worstd = some dd; startpos = i0 }
    else record s { d = s.d + dd }

-- The loop of getdist from `i0` on, with `k` rounds left.
unfoldable pub getdist_loop : ℕ → ℕ → Distances → Cells DirEntry → ℕ → Survey → Survey
getdist_loop zero i0 dist order num s = s
getdist_loop (suc k) i0 dist order num s =
    getdist_loop k (i0 + 1) dist order num
      (survey_pair dist i0 (order i0).index (order ((i0 + 1) % num)).index s)

-- The distance and the starting position.
unfoldable pub getdist : Distances → Cells DirEntry → ℕ → ℕ × ℕ
getdist dist order num =
    let s = getdist_loop num 0 dist order num (record { d = 0; worstd = none; startpos = 0 }) in
    (s.d, s.startpos)

abbrev minus_entry : Distances → ℤ → ℕ → Option ℕ → ℤ
minus_entry dist delta row none = delta
minus_entry dist delta row (some c) = delta -ℤ pos (dist.array (row + c))

abbrev plus_entry : Distances → ℤ → ℕ → Option ℕ → ℤ
plus_entry dist delta row none = delta
plus_entry dist delta row (some c) = delta +ℤ pos (dist.array (row + c))

abbrev first_delta : Distances → Option ℕ → Option ℕ → Option ℕ → ℤ
first_delta dist none c d = pos 0
first_delta dist (some a) c d =
    plus_entry dist (minus_entry dist (pos 0) (a * dist.arrnum) c) (a * dist.arrnum) d

abbrev second_delta : Distances → ℤ → Option ℕ → Option ℕ → Option ℕ → ℤ
second_delta dist delta none c d = delta
second_delta dist delta (some b) c d =
    plus_entry dist (minus_entry dist delta (b * dist.arrnum) d) (b * dist.arrnum) c

unfoldable pub getdelta : Cells DirEntry → Distances → ℕ → ℕ → ℕ → ℕ → ℤ
getdelta order dist i0 i1 i00 i11 =
    let a = (order i0).index in
    let b = (order i1).index in
    let c = (order i00).index in
    let d = (order i11).index in second_delta dist (first_delta dist a c d) b c d

-- `i - 1`, going round: `if (--i < 0) i += num;`
abbrev pub before : ℕ → ℕ → ℕ
before num i = if i == 0 then num - 1 else i - 1

pub record Span : Type 0 where
  pub i0 : ℕ
  pub i1 : ℕ
  pub n : ℕ

-- From two random positions to a range of `n` positions from `i0` round to `i1`: the smaller of the
-- two sides. `none` is `goto again`.
unfoldable pub choose_range : ℕ → ℕ → ℕ → Option Span
choose_range num i0 i1 =
    let n = num + i1 + 1 - i0 in
    let t = before num i0 in
    let j0 = (i1 + 1) % num in
    if leb (i1 + 2) i0
    then if ltb (i0 - i1 - 1) n
      then some (record { i0 = i1 + 1; i1 = i0 - 1; n = i0 - 1 - (i1 + 1) + 1 })
      else some (record { i0 = i0; i1 = i1; n = n })
    else if ltb i0 i1 && leb (i1 - i0 + 2) num
    then if ltb (num + i0 - i1 - 1) (i1 - i0 + 1)
      then if ltb t j0
        then some (record { i0 = j0; i1 = t; n = num + t + 1 - j0 })
        else some (record { i0 = j0; i1 = t; n = t - j0 + 1 })
      else some (record { i0 = i0; i1 = i1; n = i1 - i0 + 1 })
    else none

-- The inner loop of the reversal with `k` rounds left.
unfoldable pub reverse_loop : ℕ → Cells DirEntry → ℕ → ℕ → ℕ → Cells DirEntry
reverse_loop zero order num i0 i1 = order
reverse_loop (suc k) order num i0 i1 =
    reverse_loop k (swap order i0 i1) num ((i0 + 1) % num) (before num i1)

-- The whole reversal of an accepted range.
unfoldable pub reverse_range : Cells DirEntry → ℕ → Span → Cells DirEntry
reverse_range order num r =
    let order' = swap order r.i0 r.i1 in
    if ltb 3 r.n
    then reverse_loop (r.n / 2 - 1) order' num ((r.i0 + 1) % num) (before num r.i1)
    else order'
