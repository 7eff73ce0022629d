-- ===== src/Binsort/Random.antt =====
-- random_init and random_get: positions below the number of files, from the bits of the generator.
-- A `num_t` stays far below 2 ^ 63. The pool is a `uint64_t`.
-- There are at most 32 bits in a range below 2 ^ 32, so that `rnd_RandBits` does not fall below 0.
pub mod Mask
pub mod Draw
pub mod Stream
use Prim.Native.Nat.{bit_and, bit_or}
use binsort.Base.{
  ℕ, zero, suc, ◌+◌, ◌-◌, ◌*◌, ◌/◌, ◌%◌, ◌^◌, Bool, Option, none, some, ltb, leb, if◌then◌else◌,
}
use binsort.Tinymt.{Tinymt32, tinymt32_generate_uint32}

-- `struct Random`
pub record Random : Type 0 where
  pub rand_pool : ℕ
  pub seed : Tinymt32
  pub num_range : ℕ
  pub bit_mask : ℕ
  pub num_bits : ℕ
  pub rand_bits : ℕ

-- The loop of random_init with `k` rounds of fuel. `(bitmask << 1) | 1` is `2 * bitmask + 1`.
unfoldable pub mask_loop : ℕ → ℕ → ℕ → ℕ → ℕ × ℕ
mask_loop zero range bitmask numbits = (bitmask, numbits)
mask_loop (suc k) range bitmask numbits =
    let rest = mask_loop k range (2 * bitmask + 1) (numbits + 1) in
    if ltb bitmask range then rest else (bitmask, numbits)

unfoldable pub random_init : Random → ℕ → Random
random_init rnd range =
    let (bitmask, numbits) = mask_loop range range 1 1 in
    record rnd {
      rand_pool = 0;
      num_range = range;
      bit_mask = bitmask;
      num_bits = numbits;
      rand_bits = 0;
    }

-- 32 more bits, if there are fewer in the pool.
unfoldable pub refill : Random → Random
refill rnd =
    let (word, seed) = tinymt32_generate_uint32 rnd.seed in
    if ltb rnd.rand_bits 32
    then record rnd {
      rand_pool = bit_or rnd.rand_pool (word * 2 ^ rnd.rand_bits % 2 ^ 64);
      seed = seed;
      rand_bits = rnd.rand_bits + 32;
    }
    else rnd

-- One round of random_get: a number of `num_bits` bits taken from the pool. `r` is a `uint32_t`.
unfoldable pub draw : Random → ℕ × Random
draw rnd =
    let full = refill rnd in
    (
      bit_and full.rand_pool full.bit_mask % 2 ^ 32,
      record full {
        rand_pool = full.rand_pool / 2 ^ full.num_bits;
        rand_bits = full.rand_bits - full.num_bits;
      },
    )

-- The loop of random_get with `k` rounds of fuel: draws until a number is in range.
unfoldable pub random_get : ℕ → Random → Option (ℕ × Random)
random_get zero rnd = none
random_get (suc k) rnd =
    let (r, rnd') = draw rnd in
    let rest = random_get k rnd' in if leb rnd.num_range r then rest else some (r, rnd')
