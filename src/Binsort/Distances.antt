-- ===== src/Binsort/Distances.antt =====
-- binsort_worker_calcdist: the rows of the matrix of distances that one message asks a worker for.
-- The list of hashes is an array with its length. The score is a `double`, and its product with 255 is cut
-- to an `int`: that conversion, of a score between 0 and 1, is the parameter `scale`, a number up to 255.
pub mod Matrix
use Prim.Native.Nat.{bit_and}
use binsort.Base.{
  ℕ, zero, suc, ◌+◌, ◌-◌, ◌*◌, ◌/◌, min, Option, none, some, Cells, update, ◌==◌, if◌then◌else◌,
}
use binsort.Base.Int.{ℤ, pos, ◌-ℤ◌}
use binsort.Simhash.Global.{Simhash, simhash_nshingle}
use binsort.Simhash.Score.{Score, simhash_compare}

-- `struct HashNode`: the words of the hash, and its size in bytes.
pub record HashNode : Type 0 where
  pub hash : Cells ℕ
  pub size : ℕ

unfoldable pub simhash_init : Cells ℕ → ℕ → Simhash
simhash_init hash len = record { feature = hash; nfeature = len / 4; nshingle = simhash_nshingle }

-- `vali`. The sizes of the shingles are the same, so that there is always a score.
unfoldable pub distance : (Score → ℕ) → HashNode → HashNode → ℕ
distance scale yhash xhash =
    let h1 = simhash_init yhash.hash yhash.size in
    let h2 = simhash_init xhash.hash xhash.size in
    elim (simhash_compare h1 h2) [ some val ↦ 255 - scale val | none ↦ 0 ]

-- The array, the counter `i`, `b_DistancesLeft`, and the updates signalled to the main thread.
pub record Work : Type 0 where
  pub array : Cells ℕ
  pub pairs : ℕ
  pub distances_left : ℤ
  pub updates : ℕ

unfoldable pub set_pair : ℕ → Cells ℕ → ℕ → ℕ → ℕ → Cells ℕ
set_pair num array x y v = update (update array (x + y * num) v) (y + x * num) v

unfoldable pub count_pair : Work → Work
count_pair w =
    let i = w.pairs + 1 in
    if bit_and i 262143 == 0
    then record w {
      pairs = i;
      distances_left = w.distances_left -ℤ pos 262144;
      updates = w.updates + 1;
    }
    else record w { pairs = i }

-- The inner loop from `x` on with `k` rounds left.
unfoldable pub column_loop : ℕ → ℕ → ℕ → ℕ → (Score → ℕ) → Cells HashNode → Work → Work
column_loop zero x y num scale hashes w = w
column_loop (suc k) x y num scale hashes w =
    let v = distance scale (hashes y) (hashes x) in
    column_loop k (x + 1) y num scale hashes
      (count_pair (record w { array = set_pair num w.array x y v }))

-- The outer loop from row `y` on with `k` rounds left.
unfoldable pub row_loop : ℕ → ℕ → ℕ → (Score → ℕ) → Cells HashNode → Work → Work
row_loop zero y num scale hashes w = w
row_loop (suc k) y num scale hashes w =
    row_loop k (y + 1) num scale hashes (column_loop (min y num) 0 y num scale hashes w)

unfoldable pub calcdist : ℕ → ℕ → ℕ → (Score → ℕ) → Cells HashNode → Work → Work
calcdist first last num scale hashes w =
    row_loop (min (last + 1) num - first) first num scale hashes (record w { pairs = 0 })
