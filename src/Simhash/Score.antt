-- ===== src/Simhash/Score.antt =====
-- hashinfo_score and simhash_compare: how much two shingleprints share. The score is a `double`
-- there, the quotient of two small integers; here it is these two, and the division is left to the
-- caller.
pub mod Merge
use binsort.Base.{
  ℕ, zero, suc, ◌+◌, ◌-◌, ◌*◌, Bool, Option, none, some, Cells, ltb, ◌==◌, if◌then◌else◌,
}
use binsort.Simhash.Global.{Simhash}

-- `matchcount` and the `double`s that are divided.
pub record Score : Type 0 where
  pub intersectsize : ℕ
  pub unionsize : ℕ

-- The loop of hashinfo_score on fuel, one step back in some array to a round. `n1` and `n2` are
-- `i1 + 1` and `i2 + 1`, so an index of -1 is the 0 here.
pub match_loop : ℕ → Cells ℕ → Cells ℕ → ℕ → ℕ → ℕ → ℕ
match_loop zero f1 f2 n1 n2 matchcount = matchcount
match_loop (suc k) f1 f2 zero n2 matchcount = matchcount
match_loop (suc k) f1 f2 (suc i1) zero matchcount = matchcount
match_loop (suc k) f1 f2 (suc i1) (suc i2) matchcount =
    let first = match_loop k f1 f2 i1 (suc i2) matchcount in
    let second = match_loop k f1 f2 (suc i1) i2 matchcount in
    let both = match_loop k f1 f2 i1 i2 (matchcount + 1) in
    if ltb (f1 i1) (f2 i2) then first else if ltb (f2 i2) (f1 i1) then second else both

pub hashinfo_score : Simhash → Simhash → Score
hashinfo_score hi1 hi2 =
    let matchcount =
      match_loop (hi1.nfeature + hi2.nfeature) hi1.feature hi2.feature hi1.nfeature hi2.nfeature
        0 in
    let count = if ltb hi2.nfeature hi1.nfeature then hi2.nfeature else hi1.nfeature in
    record { intersectsize = matchcount; unionsize = 2 * count - matchcount }

-- `none` is the result 0 for prints of different shingle sizes. (Neither print is NULL in a call.)
pub simhash_compare : Simhash → Simhash → Option Score
simhash_compare h1 h2 = if h1.nshingle == h2.nshingle then some (hashinfo_score h1 h2) else none
