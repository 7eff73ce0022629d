-- ===== src/Base/Bits.antt =====
-- Masks and powers of two: `x & (2^k - 1)` is `x % 2^k`, and a wrap at a higher power does not show.
use Prim.Native.Nat.{digits, bit_and, bit_and-bitwise}
use native.Mathlib.Nat.{
  pow-suc, one-le-pow, mod-add-div, mod-lt, mod-eq_of_lt, add-mul-mod_self_left,
  add-mul-mod_self_right,
}
use binsort.Base.{
  ℕ, zero, suc, ◌+◌, ◌-◌, ◌*◌, ◌/◌, ◌%◌, ◌^◌, ◌≤◌, ◌<◌, min, ◌≡◌, sym, ap, ◌∙◌, arith,
}

pub two_pow_suc : (k : ℕ) → 2 ^ suc k ≡ 2 * 2 ^ k
two_pow_suc k = omega (arith, pow-suc 2 k)

pub two_pow_pos : (k : ℕ) → 1 ≤ 2 ^ k
two_pow_pos k = one-le-pow k 2 (omega arith)

-- Splitting off the lowest digit of a remainder.
mod-double : (x m : ℕ) → 1 ≤ m → x % (2 * m) ≡ (x / 2 % m) * 2 + x % 2
mod-double x m h =
    let low = x / 2 % m in
    let q = x / 2 / m in
    let whole : x ≡ low * 2 + x % 2 + 2 * m * q = omega (arith, mod-add-div (x / 2) m) in
    let small : low * 2 + x % 2 < 2 * m = omega (arith, mod-lt (x / 2) h) in
    ap (λ y. y % (2 * m)) whole
    ∙ add-mul-mod_self_left (low * 2 + x % 2) (2 * m) q
    ∙ mod-eq_of_lt small

-- The digits that a mask of k ones lets through, read off on `n` steps of fuel.
masked_digits : (n k x : ℕ) → x ≤ n → digits (λ b. zero) min n x (2 ^ k - 1) ≡ x % 2 ^ k
masked_digits zero k zero h = sym (mod-eq_of_lt (two_pow_pos k))
masked_digits zero k (suc x) h = absurd (omega arith)
masked_digits (suc n) k zero h = sym (mod-eq_of_lt (two_pow_pos k))
masked_digits (suc n) zero (suc x) h = omega (arith, masked_digits n zero (suc x / 2) (omega arith))
masked_digits (suc n) (suc k) (suc x) h =
    let m = 2 ^ k in
    let half : (2 * m - 1) / 2 ≡ m - 1 = omega (arith, two_pow_pos k) in
    let odd : (2 * m - 1) % 2 ≡ 1 = omega (arith, two_pow_pos k) in
    let low : min (suc x % 2) 1 ≡ suc x % 2 = omega arith in
    rw (two_pow_suc k) (
      omega (
        arith,
        ap (digits (λ b. zero) min n (suc x / 2)) half,
        ap (min (suc x % 2)) odd,
        masked_digits n k (suc x / 2) (omega arith),
        mod-double (suc x) m (two_pow_pos k),
      ))

-- A mask of k ones keeps the remainder by 2^k.
pub bit_and_mask : (k x : ℕ) → bit_and x (2 ^ k - 1) ≡ x % 2 ^ k
bit_and_mask k x = bit_and-bitwise x (2 ^ k - 1) ∙ masked_digits x k x (omega arith)

pub two_pow_split : (k m : ℕ) → k ≤ m → (c : ℕ) × (2 ^ m ≡ c * 2 ^ k)
two_pow_split zero m h = (2 ^ m, omega arith)
two_pow_split (suc k) zero h = absurd (omega arith)
two_pow_split (suc k) (suc m) h =
    let (c, e) = two_pow_split k m (omega arith) in
    (c, rw (two_pow_suc k, two_pow_suc m, e) (omega arith))

pub mod-mod_pow : (k m x : ℕ) → k ≤ m → x % 2 ^ m % 2 ^ k ≡ x % 2 ^ k
mod-mod_pow k m x h =
    let (c, e) = two_pow_split k m h in
    let p = 2 ^ k in
    let whole : x ≡ x % (c * p) + x / (c * p) * c * p = omega (arith, mod-add-div x (c * p)) in
    rw e (sym (ap (λ y. y % p) whole ∙ add-mul-mod_self_right (x % (c * p)) (x / (c * p) * c) p))
