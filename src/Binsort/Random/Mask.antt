-- ===== src/Binsort/Random/Mask.antt =====
-- random_init: the mask has as many digits as the range needs.
use binsort.Base.{
  ℕ, zero, suc, ◌+◌, ◌*◌, ◌^◌, ◌<◌, ◌≤◌, ◌≡◌, refl, ◌⊎◌, inl, inr, Bool-cases, ltb, arith,
}
use binsort.Base.Bits.{two_pow_suc}
use binsort.Binsort.Random.{Random, mask_loop, random_init}

-- `mask` is `bits` ones, not below `range`, and no smaller such mask will do.
pub record IsMask (range mask bits : ℕ) : Type 0 where
  pub ones : mask + 1 ≡ 2 ^ bits
  pub above : range ≤ mask
  pub tight : (bits ≡ 1) ⊎ (mask < 2 * range)
  pub some_bit : 0 < bits

mask_loop-IsMask :
    (k range bitmask numbits : ℕ)
    → range ≤ bitmask + k
    → bitmask + 1 ≡ 2 ^ numbits
    → 0 < numbits
    → (numbits ≡ 1) ⊎ (bitmask < 2 * range)
    → IsMask range (mask_loop k range bitmask numbits).0 (mask_loop k range bitmask numbits).1
unfolding mask_loop
mask_loop-IsMask zero range bitmask numbits h ones pos tight = record {
  ones = ones;
  above = omega arith;
  tight = tight;
  some_bit = pos;
}
mask_loop-IsMask (suc k) range bitmask numbits h ones pos tight =
    elim (Bool-cases (ltb bitmask range)) [
      | inr enough ↦
          rw enough (record { ones = ones; above = ground arith; tight = tight; some_bit = pos })
      | inl less ↦
          let next : numbits + 1 ≡ suc numbits = omega arith in
          rw less (
            mask_loop-IsMask k range (2 * bitmask + 1) (numbits + 1) (omega arith)
              (rw next (omega (arith, two_pow_suc numbits))) (omega arith) (inr (ground arith)))
    ]

-- random_init finds the smallest mask of ones, of at least one digit, that is not below the range that
-- it is given, and starts with an empty pool.
pub random_init-IsMask :
    (rnd : Random) (range : ℕ)
    → IsMask range (random_init rnd range).bit_mask (random_init rnd range).num_bits
      × ((random_init rnd range).num_range ≡ range)
      × ((random_init rnd range).rand_pool ≡ 0)
      × ((random_init rnd range).rand_bits ≡ 0)
unfolding random_init
random_init-IsMask rnd range = (
  mask_loop-IsMask range range 1 1 (omega arith) (omega arith) (omega arith) (inl refl),
  refl,
  refl,
  refl,
)
