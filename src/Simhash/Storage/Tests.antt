-- ===== src/Simhash/Storage/Tests.antt =====
-- The theorems on the file format at a print of two features.
use binsort.Base.{
  ℕ, zero, suc, ◌/◌, ◌<◌, ◌^◌, ◌≡◌, refl, true, false, some, List, [], ◌∷◌, Cells, update, length,
  arith,
}
use binsort.Simhash.Global.{Simhash}
use binsort.Simhash.Storage.{
  file_version, short_of_bytes, realloc, ReadMemory, make_room, end_read, read_loop, read_features,
  read_shingle, simhash_read, simhash_write,
}
use binsort.Simhash.Storage.Trip.{IsReadable, IsCopy, simhash_read-simhash_write}
use binsort.Simhash.Storage.Sized.{simhash_read-IsSized}

abbrev zeros : Cells ℕ
zeros i = 0

abbrev ample : ReadMemory
ample = record {
  info = true;
  features = some zeros;
  grow = λ i. some zeros;
  shrink = some zeros;
  error = false;
}

ample-IsReadable : IsReadable ample
ample-IsReadable = record {
  some_info = refl;
  cells = zeros;
  some_cells = refl;
  fresh = λ i. zeros;
  grows = λ i. refl;
  kept = zeros;
  shrinks = refl;
  no_error = refl;
}

abbrev two_features : Simhash
two_features = record {
  feature = update (update zeros 0 0xdeadbeef) 1 77;
  nfeature = 2;
  nshingle = 8;
}

two_features_lt : (j : ℕ) → j < 2 → two_features.feature j < 2 ^ 32
two_features_lt zero h = omega arith
two_features_lt (suc zero) h = omega arith
two_features_lt (suc (suc j)) h = absurd (omega (arith, h))

abbrev two_bytes_short : List ℕ
two_bytes_short = 0xcb ∷ 1 ∷ 0 ∷ 8 ∷ 0xde ∷ 0xad ∷ 0xbe ∷ 0xef ∷ 0 ∷ 0 ∷ []

-- The second feature is cut off.
written :
    (simhash_write true true (λ j. true) two_features []).1
    ≡ 0xcb ∷ 1 ∷ 0 ∷ 8 ∷ 0xde ∷ 0xad ∷ 0xbe ∷ 0xef ∷ 0 ∷ 0 ∷ 0 ∷ 77 ∷ []
unfolding simhash_write
written = refl

simhash_read-simhash_write_example :
    let (success, f) = simhash_write true true (λ j. true) two_features [] in
    (success ≡ true) × (hi' : Simhash) × (simhash_read ample f ≡ some hi') × IsCopy two_features hi'
simhash_read-simhash_write_example =
    simhash_read-simhash_write ample two_features (λ j. true) ample-IsReadable (omega arith)
      two_features_lt (λ j. refl)

abbrev one_feature : Simhash
one_feature = record {
  feature = realloc (update zeros 0 0xdeadbeef) 1 zeros;
  nfeature = 1;
  nshingle = 8;
}

short_read : simhash_read ample two_bytes_short ≡ some one_feature
unfolding simhash_read read_shingle read_features read_loop make_room end_read
short_read = refl

simhash_read-IsSized_example :
    (a b c d : ℕ) × (rest : List ℕ) × (two_bytes_short ≡ a ∷ b ∷ c ∷ d ∷ rest)
    × (short_of_bytes a b ≡ file_version)
    × (one_feature.nshingle ≡ short_of_bytes c d)
    × (one_feature.nfeature ≡ length rest / 4)
simhash_read-IsSized_example = simhash_read-IsSized ample two_bytes_short one_feature short_read
