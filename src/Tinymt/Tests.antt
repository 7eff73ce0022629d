-- ===== src/Tinymt/Tests.antt =====
-- The theorems on the generator at the state that binsort_genorder starts from.
use binsort.Base.{ℕ, ◌≡◌, ◌⊎◌, arith}
use binsort.Tinymt.{Tinymt32, period_certification, next_states}
use binsort.Tinymt.Words.{IsWords}
use binsort.Tinymt.Period.{IsZero, GivesZeros, period_certification_correct}

-- `memset(&rnd_Seed, 0x5a, ...)`
abbrev unseeded : Tinymt32
unseeded = record {
  status = λ i. 0x5a5a_5a5a;
  mat1 = 0x5a5a_5a5a;
  mat2 = 0x5a5a_5a5a;
  tmat = 0x5a5a_5a5a;
}

abbrev all_zero : Tinymt32
all_zero = record unseeded { status = λ i. 0 }

all_zero-IsWords : IsWords all_zero
all_zero-IsWords = record {
  status = λ i. omega arith;
  mat1 = omega arith;
  mat2 = omega arith;
  tmat = omega arith;
}

period_certification_correct_example :
    ((period_certification all_zero ≡ all_zero) ⊎ GivesZeros all_zero)
    × ((k : ℕ) → ¬ IsZero (next_states k (period_certification all_zero)))
period_certification_correct_example = period_certification_correct all_zero all_zero-IsWords
