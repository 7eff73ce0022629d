-- ===== src/Binsort/Random/Draw.antt =====
-- The draws of random_get, from a pool that never overflows.
use native.Mathlib.Nat.{
  mod-lt, mod-eq_of_lt, pow-le-pow_right, mul-lt-mul_of_pos_right, div-lt_iff_lt-mul,
}
use Prim.Native.Nat.{bit_and}
use binsort.Base.{
  ℕ, zero, suc, ◌+◌, ◌-◌, ◌*◌, ◌/◌, ◌%◌, ◌^◌, ◌<◌, ◌≤◌, ◌≡◌, refl, sym, ap, ◌∙◌, inl, inr, some,
  true, false, Bool-cases, ltb, leb, arith,
}
use binsort.Base.Bits.{bit_and_mask, two_pow_pos, two_pow_suc}
use binsort.Base.Xor.{bit_or_lt}
use binsort.Tinymt.{tinymt32_generate_uint32}
use binsort.Tinymt.Words.{IsWords, generate_uint32_lt}
use binsort.Binsort.Random.{Random, refill, draw, random_get}

-- The mask is `num_bits` ones, at most 32, and the pool has `rand_bits` digits, at most 63.
pub record IsPool (rnd : Random) : Type 0 where
  pub words : IsWords rnd.seed
  pub ones : rnd.bit_mask + 1 ≡ 2 ^ rnd.num_bits
  pub narrow : rnd.num_bits ≤ 32
  pub pool : rnd.rand_pool < 2 ^ rnd.rand_bits
  pub room : rnd.rand_bits ≤ 63

-- The state after `k` draws.
unfoldable pub after : ℕ → Random → Random
after zero rnd = rnd
after (suc k) rnd = after k (draw rnd).1

pub pow_add : (a b : ℕ) → 2 ^ (a + b) ≡ 2 ^ a * 2 ^ b
pow_add zero b =
    let none_added : 0 + b ≡ b = omega arith in omega (arith, ap (λ n. 2 ^ n) none_added)
pow_add (suc a) b =
    let next : suc a + b ≡ suc (a + b) = omega arith in
    let twice : 2 * (2 ^ a * 2 ^ b) ≡ 2 * 2 ^ a * 2 ^ b = omega arith in
    ap (λ n. 2 ^ n) next
    ∙ two_pow_suc (a + b)
    ∙ ap (λ x. 2 * x) (pow_add a b)
    ∙ twice
    ∙ ap (λ x. x * 2 ^ b) (sym (two_pow_suc a))

pub shift_lt : (word bits : ℕ) → word < 2 ^ 32 → word * 2 ^ bits < 2 ^ (bits + 32)
shift_lt word bits h =
    omega (arith, pow_add bits 32, mul-lt-mul_of_pos_right {k = 2 ^ bits} h (two_pow_pos bits))

unshift_lt : (pool a b : ℕ) → pool < 2 ^ a → b ≤ a → pool / 2 ^ b < 2 ^ (a - b)
unshift_lt pool a b h le =
    let whole : a ≡ a - b + b = omega arith in
    let room : 2 ^ a ≡ 2 ^ (a - b) * 2 ^ b = ap (λ n. 2 ^ n) whole ∙ pow_add (a - b) b in
    (div-lt_iff_lt-mul {k = 2 ^ b} (two_pow_pos b)).1 (omega arith)

pub refill-IsPool :
    (rnd : Random) → IsPool rnd → IsPool (refill rnd) × (32 ≤ (refill rnd).rand_bits)
unfolding refill
refill-IsPool rnd p = elim (Bool-cases (ltb rnd.rand_bits 32)) [
  | inr enough ↦ rw enough (p, ground arith)
  | inl less ↦
      let word = (tinymt32_generate_uint32 rnd.seed).0 in
      let bits = rnd.rand_bits in
      let (small, words) = generate_uint32_lt rnd.seed p.words in
      let shifted = shift_lt word bits small in
      let fits : 2 ^ (bits + 32) ≤ 2 ^ 64 =
        pow-le-pow_right {n = 2} (omega arith) {i = bits + 32} {j = 64} (ground arith) in
      let grown : 2 ^ bits ≤ 2 ^ (bits + 32) =
        pow-le-pow_right {n = 2} (omega arith) (omega arith) in
      let same : word * 2 ^ bits % 2 ^ 64 ≡ word * 2 ^ bits = mod-eq_of_lt (omega arith) in
      rw less (
        record {
          words = words;
          ones = p.ones;
          narrow = p.narrow;
          pool = bit_or_lt (bits + 32) _ _ (omega (arith, p.pool)) (omega arith);
          room = ground arith;
        },
        omega arith,
      )
]

pub draw-IsPool : (rnd : Random) → IsPool rnd → IsPool (draw rnd).1
unfolding draw
draw-IsPool rnd p =
    let (full, many) = refill-IsPool rnd p in
    record {
      words = full.words;
      ones = full.ones;
      narrow = full.narrow;
      pool = unshift_lt _ _ _ full.pool (omega (arith, full.narrow));
      room = omega (arith, full.room);
    }

-- A draw takes the lowest `num_bits` digits of the pool.
pub draw_lem :
    (rnd : Random) → IsPool rnd → (draw rnd).0 ≡ (refill rnd).rand_pool % 2 ^ (refill rnd).num_bits
unfolding draw
draw_lem rnd p =
    let full = refill rnd in
    let (q, many) = refill-IsPool rnd p in
    let mask : full.bit_mask ≡ 2 ^ full.num_bits - 1 = omega (arith, q.ones) in
    let bound : 2 ^ full.num_bits ≤ 2 ^ 32 = pow-le-pow_right {n = 2} (omega arith) q.narrow in
    ap (λ m. bit_and full.rand_pool m % 2 ^ 32) mask
    ∙ ap (λ x. x % 2 ^ 32) (bit_and_mask full.num_bits full.rand_pool)
    ∙ mod-eq_of_lt (omega (arith, mod-lt full.rand_pool (two_pow_pos full.num_bits)))

-- The state stays a pool, and the bits never overflow it.
pub after-IsPool : (k : ℕ) (rnd : Random) → IsPool rnd → IsPool (after k rnd)
unfolding after
after-IsPool zero rnd p = p
after-IsPool (suc k) rnd p = after-IsPool k (draw rnd).1 (draw-IsPool rnd p)

pub draw_range : (rnd : Random) → (draw rnd).1.num_range ≡ rnd.num_range
unfolding draw refill
draw_range rnd = elim (Bool-cases (ltb rnd.rand_bits 32)) [
  | inl less ↦ rw less refl
  | inr enough ↦ rw enough refl
]

pub random_get-draws :
    (k : ℕ) (rnd : Random)
    → ((j : ℕ) → j < k → rnd.num_range ≤ (draw (after j rnd)).0)
    → (draw (after k rnd)).0 < rnd.num_range
    → random_get (suc k) rnd ≡ some ((draw (after k rnd)).0, after (suc k) rnd)
unfolding random_get after
random_get-draws zero rnd out inside =
    let accepted : leb rnd.num_range (draw rnd).0 ≡ false = ground arith in rw accepted refl
random_get-draws (suc k) rnd out inside =
    let rejected : leb rnd.num_range (draw rnd).0 ≡ true = ground (arith, out 0 (omega arith)) in
    let range = draw_range rnd in
    rw rejected (
      random_get-draws k (draw rnd).1 (λ j h. omega (arith, range, out (suc j) (omega arith)))
        (omega (arith, range)))
