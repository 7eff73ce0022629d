-- ===== src/Simhash/Storage.antt =====
-- simhash_write and simhash_read of simhash.c, the file format of a print.
-- htons, htonl and their inverses with fwrite and fread are the bytes of a word, the highest first. A file is
-- the list of its bytes. Which fwrite succeeds, what malloc and realloc return, and whether the end of the
-- file is an error are parameters.
pub mod Trip
pub mod Sized
mod Tests
use binsort.Base.{
  ℕ, zero, suc, ◌+◌, ◌-◌, ◌*◌, ◌/◌, ◌%◌, Bool, true, false, not, Option, none, some, List, [], ◌∷◌,
  ◌++◌, Cells, update, ltb, leb, ◌==◌, if◌then◌else◌,
}
use binsort.Simhash.Global.{Simhash}

-- FILE_VERSION
abbrev pub file_version : ℕ
file_version = 0xcb01

-- The bytes of `htons(v)` and of `htonl(v)` in memory.
abbrev pub bytes_of_short : ℕ → List ℕ
bytes_of_short v = (v / 256 % 256) ∷ (v % 256) ∷ []

abbrev pub bytes_of_long : ℕ → List ℕ
bytes_of_long v = (v / 16777216 % 256) ∷ (v / 65536 % 256) ∷ (v / 256 % 256) ∷ (v % 256) ∷ []

-- `ntohs` and `ntohl` of bytes read.
abbrev pub short_of_bytes : ℕ → ℕ → ℕ
short_of_bytes a b = a * 256 + b

abbrev pub long_of_bytes : ℕ → ℕ → ℕ → ℕ → ℕ
long_of_bytes a b c d = a * 16777216 + b * 65536 + c * 256 + d

-- `fwrite` of one item: whether it succeeds, and the file behind it.
unfoldable pub write_item : Bool → List ℕ → List ℕ → Bool × List ℕ
write_item true item f = (true, f ++ item)
write_item false item f = (false, f)

-- The loop of simhash_write from feature `i` on, with `k` features left; `fits i` says whether the write of
-- feature `i` succeeds.
unfoldable pub write_loop : ℕ → ℕ → (ℕ → Bool) → Simhash → List ℕ → Bool × List ℕ
unfolding write_item
write_loop zero i fits hi f = (true, f)
write_loop (suc k) i fits hi f =
    let (success, f') = write_item (fits i) (bytes_of_long (hi.feature i)) f in
    let rest = write_loop k (i + 1) fits hi f' in if success then rest else (false, f')

-- `fits_version` and `fits_shingle` are for the two writes before the loop.
unfoldable pub simhash_write : Bool → Bool → (ℕ → Bool) → Simhash → List ℕ → Bool × List ℕ
unfolding write_loop write_item
simhash_write fits_version fits_shingle fits hi f =
    let (success, f1) = write_item fits_version (bytes_of_short file_version) f in
    let (success', f2) = write_item fits_shingle (bytes_of_short hi.nshingle) f1 in
    if success
    then (if success' then write_loop hi.nfeature 0 fits hi f2 else (false, f2))
    else (false, f1)

-- What the calls under simhash_read return: `malloc` of the structure and of 16 features, `realloc` when
-- feature `i` does not fit and at the end, and `ferror`.
pub record ReadMemory : Type 0 where
  pub info : Bool
  pub features : Option (Cells ℕ)
  pub grow : ℕ → Option (Cells ℕ)
  pub shrink : Option (Cells ℕ)
  pub error : Bool

-- `realloc` of an array of `n` features, to more or fewer, that finds the cells `fresh`.
abbrev pub realloc : Cells ℕ → ℕ → Cells ℕ → Cells ℕ
realloc old n fresh j = if ltb j n then old j else fresh j

-- The array with room for feature `i`, and for how many features it has room.
unfoldable pub make_room : ReadMemory → ℕ → ℕ → Cells ℕ → Option (ℕ × Cells ℕ)
make_room mem i room feature =
    if leb room i
    then (elim (mem.grow i) [
      | none ↦ none
      | some fresh ↦ some (room * 2, realloc feature room fresh)
    ])
    else some (room, feature)

-- What simhash_read returns when fread finds no feature `i`.
unfoldable pub end_read : ReadMemory → ℕ → ℕ → Cells ℕ → Option Simhash
end_read mem nshingle i feature = if mem.error then none else (elim mem.shrink [
  | none ↦ none
  | some fresh ↦
      some (record { feature = realloc feature i fresh; nfeature = i; nshingle = nshingle })
])

-- The loop of simhash_read. A part of a feature at the end of the file is not read.
unfoldable pub read_loop : ReadMemory → ℕ → ℕ → ℕ → Cells ℕ → List ℕ → Option Simhash
read_loop mem nshingle i room feature (a ∷ b ∷ c ∷ d ∷ f) =
    let rest = λ (r : ℕ × Cells ℕ).
      read_loop mem nshingle (i + 1) r.0 (update r.1 i (long_of_bytes a b c d)) f in
    elim (make_room mem i room feature) [ none ↦ none | some r ↦ rest r ]
read_loop mem nshingle i room feature f = end_read mem nshingle i feature

unfoldable pub read_features : ReadMemory → ℕ → List ℕ → Option Simhash
read_features mem nshingle f = elim mem.features [
  | none ↦ none
  | some cells ↦ read_loop mem nshingle 0 16 cells f
]

unfoldable pub read_shingle : ReadMemory → List ℕ → Option Simhash
unfolding read_features
read_shingle mem (a ∷ b ∷ f) = read_features mem (short_of_bytes a b) f
read_shingle mem f = none

-- The null pointer is `none`.
unfoldable pub simhash_read : ReadMemory → List ℕ → Option Simhash
unfolding read_shingle
simhash_read mem (a ∷ b ∷ f) =
    if mem.info
    then (if short_of_bytes a b == file_version then read_shingle mem f else none)
    else none
simhash_read mem f = none
