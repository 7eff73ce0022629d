-- ===== src/Binsort/Random/Stream.antt =====
-- random_get takes its numbers, one after the other, from the digits of the words that the generator gives.
use native.Mathlib.Nat.{mod-eq_of_lt, pow-le-pow_right, add-mul-div_left, add-mul-mod_self_left}
use Prim.Native.Nat.{bit_or}
use binsort.Base.{
  ℕ, zero, suc, ◌+◌, ◌-◌, ◌*◌, ◌/◌, ◌%◌, ◌^◌, ◌<◌, ◌≤◌, ◌≡◌, refl, sym, ap, ap₂, ◌∙◌, inl, inr,
  some, Bool-cases, ltb, arith,
}
use binsort.Base.Bits.{two_pow_pos}
use binsort.Base.Xor.{bit_or_shifted}
use binsort.Tinymt.{Tinymt32, tinymt32_generate_uint32}
use binsort.Tinymt.Words.{generate_uint32_lt}
use binsort.Binsort.Random.{Random, refill, draw, random_get}
use binsort.Binsort.Random.Draw.{
  IsPool, after, pow_add, shift_lt, refill-IsPool, draw-IsPool, draw_lem, after-IsPool,
  random_get-draws,
}

-- The next `n` words of the generator as one number, the first word lowest.
unfoldable pub words : ℕ → Tinymt32 → ℕ
words zero seed = 0
words (suc n) seed =
    let (word, seed') = tinymt32_generate_uint32 seed in word + 2 ^ 32 * words n seed'

-- The digits of the pool, and above them those of the next `n` words.
unfoldable pub stream : ℕ → Random → ℕ
stream n rnd = rnd.rand_pool + 2 ^ rnd.rand_bits * words n rnd.seed

-- What is left of a number without its lowest `k` digits to a base.
unfoldable pub drop : ℕ → ℕ → ℕ → ℕ
drop base zero x = x
drop base (suc k) x = drop base k (x / base)

-- The `j`-th digit of a number to a base, the lowest first.
abbrev pub digit : ℕ → ℕ → ℕ → ℕ
digit base j x = drop base j x % base

-- What a word adds to the pool.
pool_added :
    (pool word bits : ℕ)
    → pool < 2 ^ bits
    → word < 2 ^ 32
    → bits < 32
    → bit_or pool (word * 2 ^ bits % 2 ^ 64) ≡ pool + word * 2 ^ bits
pool_added pool word bits inside small few =
    let fits : 2 ^ (bits + 32) ≤ 2 ^ 64 =
      pow-le-pow_right {n = 2} (omega arith) {i = bits + 32} {j = 64} (omega arith) in
    let whole : word * 2 ^ bits % 2 ^ 64 ≡ word * 2 ^ bits =
      mod-eq_of_lt (omega (arith, shift_lt word bits small, fits)) in
    ap (bit_or pool) whole ∙ bit_or_shifted bits pool word inside

stream-suc :
    (rnd : Random) (n : ℕ)
    → let (word, seed') = tinymt32_generate_uint32 rnd.seed in
      stream (n + 1) rnd
      ≡ rnd.rand_pool + word * 2 ^ rnd.rand_bits + 2 ^ (rnd.rand_bits + 32) * words n seed'
unfolding stream words
stream-suc rnd n =
    let word = (tinymt32_generate_uint32 rnd.seed).0 in
    let rest = words n (tinymt32_generate_uint32 rnd.seed).1 in
    let b = 2 ^ rnd.rand_bits in
    let next : n + 1 ≡ suc n = omega arith in
    let higher : 2 ^ (rnd.rand_bits + 32) * rest ≡ b * 2 ^ 32 * rest =
      ap (λ x. x * rest) (pow_add rnd.rand_bits 32) in
    let parts : b * (word + 2 ^ 32 * rest) ≡ word * b + b * 2 ^ 32 * rest = omega arith in
    ap (λ m. rnd.rand_pool + b * words m rnd.seed) next ∙ omega (arith, parts, higher)

-- The pool takes its words from the generator, in their order: with one word more or with none.
refill-stream :
    (rnd : Random)
    → IsPool rnd
    → (c : ℕ) × (c ≤ 1) × ((n : ℕ) → stream n (refill rnd) ≡ stream (n + c) rnd)
unfolding refill stream
refill-stream rnd p = elim (Bool-cases (ltb rnd.rand_bits 32)) [
  | inr enough ↦ rw enough (
    0,
    omega arith,
    λ n. ap (λ m. rnd.rand_pool + 2 ^ rnd.rand_bits * words m rnd.seed) (omega arith),
  )
  | inl less ↦
      let (word, seed') = tinymt32_generate_uint32 rnd.seed in
      let added =
        pool_added rnd.rand_pool word rnd.rand_bits p.pool (generate_uint32_lt rnd.seed p.words).0
          (ground (arith, less)) in
      rw less (
        1,
        omega arith,
        λ n. ap (λ x. x + 2 ^ (rnd.rand_bits + 32) * words n seed') added ∙ sym (stream-suc rnd n),
      )
]

-- A draw takes the lowest digit of the refilled pool.
draw-stream :
    (rnd : Random) (n : ℕ)
    → IsPool rnd
    → ((draw rnd).0 ≡ stream n (refill rnd) % 2 ^ (refill rnd).num_bits)
      × (stream n (draw rnd).1 ≡ stream n (refill rnd) / 2 ^ (refill rnd).num_bits)
unfolding draw stream
draw-stream rnd n p =
    let full = refill rnd in
    let (q, many) = refill-IsPool rnd p in
    let base = 2 ^ full.num_bits in
    let higher = 2 ^ (full.rand_bits - full.num_bits) * words n full.seed in
    let bits : full.rand_bits ≡ full.num_bits + (full.rand_bits - full.num_bits) =
      omega (arith, q.narrow, many) in
    let split : 2 ^ full.rand_bits * words n full.seed ≡ base * higher =
      let regrouped : base * 2 ^ (full.rand_bits - full.num_bits) * words n full.seed
          ≡ base * higher =
        omega arith in
      ap (λ b. 2 ^ b * words n full.seed) bits
      ∙ ap (λ x. x * words n full.seed) (pow_add full.num_bits (full.rand_bits - full.num_bits))
      ∙ regrouped in
    (
      draw_lem rnd p
          ∙ sym (
              ap (λ x. (full.rand_pool + x) % base) split
              ∙ add-mul-mod_self_left full.rand_pool base higher),
      sym (
          ap (λ x. (full.rand_pool + x) / base) split
          ∙ add-mul-div_left full.rand_pool higher (two_pow_pos full.num_bits)),
    )

draw_bits :
    (rnd : Random) → ((refill rnd).num_bits ≡ rnd.num_bits) × ((draw rnd).1.num_bits ≡ rnd.num_bits)
unfolding draw refill
draw_bits rnd = elim (Bool-cases (ltb rnd.rand_bits 32)) [
  | inl less ↦ rw less (refl, refl)
  | inr enough ↦ rw enough (refl, refl)
]

-- One draw on the stream: it takes the lowest digit off, and at most one word more.
draw_digit :
    (rnd : Random)
    → IsPool rnd
    → let base = 2 ^ rnd.num_bits in
      (c : ℕ) × (c ≤ 1)
      × ((n : ℕ)
          → ((draw rnd).0 ≡ stream (n + c) rnd % base)
            × (stream n (draw rnd).1 ≡ stream (n + c) rnd / base))
draw_digit rnd p =
    let (c, few, same) = refill-stream rnd p in
    (
      c,
      few,
      λ n.
          let (taken, left) = draw-stream rnd n p in
          (
            taken ∙ ap₂ (λ b x. x % 2 ^ b) (draw_bits rnd).0 (same n),
            left ∙ ap₂ (λ b x. x / 2 ^ b) (draw_bits rnd).0 (same n),
          ),
    )

-- The draws are the digits of the stream.
draws-digits :
    (k : ℕ) (rnd : Random)
    → IsPool rnd
    → let base = 2 ^ rnd.num_bits in
      (c : ℕ) × (c ≤ suc k)
      × ((n : ℕ)
          → ((draw (after k rnd)).0 ≡ digit base k (stream (n + c) rnd))
            × (stream n (after (suc k) rnd) ≡ drop base (suc k) (stream (n + c) rnd)))
unfolding after drop
draws-digits zero rnd p = draw_digit rnd p
draws-digits (suc k) rnd p =
    let (c, few, step) = draw_digit rnd p in
    let (c', few', rest) = draws-digits k (draw rnd).1 (draw-IsPool rnd p) in
    let base = 2 ^ rnd.num_bits in
    (
      c' + c,
      omega (arith, few, few'),
      λ n.
          let (taken, left) = rest n in
          let shifted : stream (n + c') (draw rnd).1 ≡ stream (n + (c' + c)) rnd / base =
            (step (n + c')).1 ∙ ap (λ m. stream m rnd / base) (omega arith) in
          (
            taken ∙ ap₂ (λ b x. digit (2 ^ b) k x) (draw_bits rnd).1 shifted,
            left ∙ ap₂ (λ b x. drop (2 ^ b) (suc k) x) (draw_bits rnd).1 shifted,
          ),
    )

-- With enough words it is the same digit, however many they are.
draw-digit :
    (k n : ℕ) (rnd : Random)
    → IsPool rnd
    → k < n
    → (draw (after k rnd)).0 ≡ digit (2 ^ rnd.num_bits) k (stream n rnd)
draw-digit k n rnd p enough =
    let (c, few, rest) = draws-digits k rnd p in
    (rest (n - c)).0
    ∙ ap (λ m. digit (2 ^ rnd.num_bits) k (stream m rnd)) (omega (arith, few, enough))

-- The digits of the pool, and above them those of the next `n` words of the generator, make one number.
-- From a pool, and if its first digit to the base 2 ^ num_bits that is below the range is the `k`-th of
-- it, with `k` below `n`: random_get with fuel for that many draws returns this digit, and leaves a
-- pool from which the digits go on behind it, however many words are taken.
pub random_get_first :
    (k n : ℕ) (rnd : Random)
    → IsPool rnd
    → k < n
    → let base = 2 ^ rnd.num_bits in
      ((j : ℕ) → j < k → rnd.num_range ≤ digit base j (stream n rnd))
      → digit base k (stream n rnd) < rnd.num_range
      → (rnd' : Random) × (random_get (suc k) rnd ≡ some (digit base k (stream n rnd), rnd'))
        × IsPool rnd'
        × ((c : ℕ) × ((m : ℕ) → stream m rnd' ≡ drop base (suc k) (stream (m + c) rnd)))
random_get_first k n rnd p enough out inside =
    let drawn = λ (j : ℕ) (h : j ≤ k). draw-digit j n rnd p (omega (arith, h, enough)) in
    let got =
      random_get-draws k rnd (λ j h. omega (arith, out j h, drawn j (omega (arith, h))))
        (omega (arith, inside, drawn k (omega arith))) in
    let (c, few, rest) = draws-digits k rnd p in
    (
      after (suc k) rnd,
      got ∙ ap (λ r. some (r, after (suc k) rnd)) (drawn k (omega arith)),
      after-IsPool (suc k) rnd p,
      (c, λ m. (rest m).1),
    )
