-- ===== src/Simhash/Storage/Trip.antt =====
-- What is written can be read again, and what is not a print is refused.
use mathlib.Core.List.{append_assoc, append-nil}
use binsort.Base.{
  ℕ, zero, suc, ◌+◌, ◌*◌, ◌/◌, ◌%◌, ◌^◌, ◌<◌, ◌≤◌, ◌≡◌, refl, sym, ap, ◌∙◌, inl, inr, Bool, true,
  false, Option, none, some, List, [], ◌∷◌, ◌++◌, Cells, update, leb, ◌==◌, Bool-cases, arith,
}
use binsort.Simhash.Global.{Simhash}
use binsort.Simhash.Storage.{
  file_version, bytes_of_short, bytes_of_long, short_of_bytes, long_of_bytes, write_loop,
  simhash_write, ReadMemory, realloc, make_room, end_read, read_loop, simhash_read,
}

-- The bytes of `k` features from the `i`-th on.
encode : Cells ℕ → ℕ → ℕ → List ℕ
encode feature i zero = []
encode feature i (suc k) = bytes_of_long (feature i) ++ encode feature (i + 1) k

write_loop-encode :
    (k i : ℕ) (fits : ℕ → Bool) (hi : Simhash) (f : List ℕ)
    → ((j : ℕ) → fits j ≡ true)
    → write_loop k i fits hi f ≡ (true, f ++ encode hi.feature i k)
unfolding write_loop encode
write_loop-encode zero i fits hi f all = ap (λ l. (true, l)) (sym (append-nil f))
write_loop-encode (suc k) i fits hi f all = rw (all i) (
    write_loop-encode k (i + 1) fits hi (f ++ bytes_of_long (hi.feature i)) all
    ∙ ap (λ l. (true, l))
        (append_assoc f (bytes_of_long (hi.feature i)) (encode hi.feature (i + 1) k)))

-- Every malloc and realloc finds memory, and the end of the file is no error.
pub record IsReadable (mem : ReadMemory) : Type 0 where
  pub some_info : mem.info ≡ true
  pub cells : Cells ℕ
  pub some_cells : mem.features ≡ some cells
  pub fresh : ℕ → Cells ℕ
  pub grows : (i : ℕ) → mem.grow i ≡ some (fresh i)
  pub kept : Cells ℕ
  pub shrinks : mem.shrink ≡ some kept
  pub no_error : mem.error ≡ false

-- A print with these features, up to cells that do not count.
pub record IsCopy (hi hi' : Simhash) : Type 0 where
  pub nfeature : hi'.nfeature ≡ hi.nfeature
  pub nshingle : hi'.nshingle ≡ hi.nshingle
  pub feature : (j : ℕ) → j < hi.nfeature → hi'.feature j ≡ hi.feature j

make_room_made :
    (mem : ReadMemory) (r : IsReadable mem) (i room : ℕ) (feature : Cells ℕ)
    → 0 < room
    → i ≤ room
    → (room' : ℕ) × (feature' : Cells ℕ) × (make_room mem i room feature ≡ some (room', feature'))
      × (i < room')
      × ((j : ℕ) → j < i → feature' j ≡ feature j)
unfolding make_room
make_room_made mem r i room feature some_room inside = elim (Bool-cases (leb room i)) [
  | inl at_end ↦ (
    room * 2,
    realloc feature room (r.fresh i),
    rw (at_end, r.grows i) refl,
    ground arith,
    λ j h. ground arith,
  )
  | inr fits ↦ (room, feature, rw fits refl, ground arith, λ j h. refl)
]

long_of_bytes_of_long :
    (v : ℕ)
    → v < 2 ^ 32
    → long_of_bytes (v / 16777216 % 256) (v / 65536 % 256) (v / 256 % 256) (v % 256) ≡ v
long_of_bytes_of_long v h = omega arith

module _ (mem : ReadMemory) (r : IsReadable mem) (hi : Simhash) where
  end_read-IsCopy :
      (feature : Cells ℕ)
      → ((j : ℕ) → j < hi.nfeature → feature j ≡ hi.feature j)
      → (hi' : Simhash) × (end_read mem hi.nshingle hi.nfeature feature ≡ some hi') × IsCopy hi hi'
  unfolding end_read
  end_read-IsCopy feature same = (
    record {
      feature = realloc feature hi.nfeature r.kept;
      nfeature = hi.nfeature;
      nshingle = hi.nshingle;
    },
    rw (r.no_error, r.shrinks) refl,
    record { nfeature = refl; nshingle = refl; feature = λ j h. ground (arith, same j h) },
  )

  read_loop_next :
      (nshingle i room a b c d room' : ℕ) (feature feature' : Cells ℕ) (f : List ℕ)
      → make_room mem i room feature ≡ some (room', feature')
      → read_loop mem nshingle i room feature (a ∷ b ∷ c ∷ d ∷ f)
        ≡ read_loop mem nshingle (i + 1) room' (update feature' i (long_of_bytes a b c d)) f
  unfolding read_loop
  read_loop_next nshingle i room a b c d room' feature feature' f made =
      ap
        (λ q. elim q as (λ x. Option Simhash) [
          | none ↦ none
          | some r ↦ read_loop mem nshingle (i + 1) r.0 (update r.1 i (long_of_bytes a b c d)) f
        ])
        made

  read_header :
      (a b : ℕ) (f : List ℕ)
      → simhash_read mem (bytes_of_short file_version ++ (a ∷ b ∷ f))
        ≡ read_loop mem (short_of_bytes a b) 0 16 r.cells f
  unfolding simhash_read
  read_header a b f = simp r.some_info (
      ap
        (λ q. elim q as (λ x. Option Simhash) [
          | none ↦ none
          | some cells ↦ read_loop mem (short_of_bytes a b) 0 16 cells f
        ])
        r.some_cells)

  read_loop-encode :
      (k i room : ℕ) (feature : Cells ℕ)
      → i + k ≡ hi.nfeature
      → 0 < room
      → i ≤ room
      → ((j : ℕ) → j < hi.nfeature → hi.feature j < 2 ^ 32)
      → ((j : ℕ) → j < i → feature j ≡ hi.feature j)
      → (hi' : Simhash) × (read_loop mem hi.nshingle i room feature (encode hi.feature i k)
          ≡ some hi')
        × IsCopy hi hi'
  unfolding read_loop encode
  read_loop-encode zero i room feature count some_room inside words same =
      let last : i ≡ hi.nfeature = omega (arith, count) in
      let (hi', e, c) = end_read-IsCopy feature (λ j h. same j (omega (arith, count))) in
      (hi', ap (λ i. end_read mem hi.nshingle i feature) last ∙ e, c)
  read_loop-encode (suc k) i room feature count some_room inside words same =
      let (room', feature', made, larger, kept) =
        make_room_made mem r i room feature some_room inside in
      let v = hi.feature i in
      let value = long_of_bytes (v / 16777216 % 256) (v / 65536 % 256) (v / 256 % 256) (v % 256) in
      let word : value ≡ v = long_of_bytes_of_long v (words i (omega (arith, count))) in
      let (hi', e, c) =
        read_loop-encode k (i + 1) room' (update feature' i value) (omega (arith, count))
          (omega (arith, larger)) (omega (arith, larger)) words
          (λ j h. elim (Bool-cases (i == j)) [
            | inl here ↦ let at : i ≡ j = ground arith in rw here (word ∙ ap hi.feature at)
            | inr other ↦ rw other (kept j (ground arith) ∙ same j (ground arith))
          ]) in
      (
        hi',
        read_loop_next hi.nshingle i room (v / 16777216 % 256) (v / 65536 % 256) (v / 256 % 256)
              (v % 256) room' feature feature' (encode hi.feature (i + 1) k) made
            ∙ e,
        c,
      )

-- A print of features of 32 bits, with a shingle size of 16, is read back from what is written of it,
-- if every write succeeds, there is memory, and the end of the file is no error.
pub simhash_read-simhash_write :
    (mem : ReadMemory) (hi : Simhash) (fits : ℕ → Bool)
    → IsReadable mem
    → hi.nshingle < 2 ^ 16
    → ((j : ℕ) → j < hi.nfeature → hi.feature j < 2 ^ 32)
    → ((j : ℕ) → fits j ≡ true)
    → let (success, f) = simhash_write true true fits hi [] in
      (success ≡ true) × (hi' : Simhash) × (simhash_read mem f ≡ some hi') × IsCopy hi hi'
unfolding simhash_write simhash_read
simhash_read-simhash_write mem hi fits r size words all =
    let header = bytes_of_short file_version ++ bytes_of_short hi.nshingle in
    let written = write_loop-encode hi.nfeature 0 fits hi header all in
    let (hi', e, c) =
      read_loop-encode mem r hi hi.nfeature 0 16 r.cells (omega arith) (omega arith) (omega arith)
        words (λ j h. absurd (omega (arith, h))) in
    let shingle : short_of_bytes (hi.nshingle / 256 % 256) (hi.nshingle % 256) ≡ hi.nshingle =
      omega arith in
    let whole =
      read_header mem r hi (hi.nshingle / 256 % 256) (hi.nshingle % 256)
        (encode hi.feature 0 hi.nfeature) in
    rw written (
      refl,
      hi',
      whole ∙ ap (λ n. read_loop mem n 0 16 r.cells (encode hi.feature 0 hi.nfeature)) shingle ∙ e,
      c,
    )
