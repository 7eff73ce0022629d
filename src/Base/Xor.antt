-- ===== src/Base/Xor.antt =====
-- Laws of `^` and `|`, digit by digit: the result has no digit where neither number has one, numbers whose
-- `^` is 0 are the same, and `|` adds numbers that share no digit.
use Prim.Native.Nat.{digits, differ, max, bit_xor, bit_xor-bitwise, bit_or, bit_or-bitwise}
use binsort.Base.{ℕ, zero, suc, ◌+◌, ◌*◌, ◌/◌, ◌%◌, ◌^◌, ◌≤◌, ◌<◌, ◌≡◌, refl, sym, ap, ◌∙◌, arith}
use binsort.Base.Bits.{two_pow_suc}

-- A digitwise combination that keeps digits below 2 keeps numbers below 2 ^ k.
digits_lt :
    (op : ℕ → ℕ → ℕ) (k n a b : ℕ)
    → ((x y : ℕ) → x < 2 → y < 2 → op x y < 2)
    → a < 2 ^ k
    → b < 2 ^ k
    → digits (λ b. b) op n a b < 2 ^ k
digits_lt op zero zero a b small p q = omega arith
digits_lt op zero (suc n) zero b small p q = q
digits_lt op zero (suc n) (suc a) b small p q = absurd (omega arith)
digits_lt op (suc k) zero a b small p q = q
digits_lt op (suc k) (suc n) zero b small p q = q
digits_lt op (suc k) (suc n) (suc a) b small p q =
    let twice = two_pow_suc k in
    omega (
      arith,
      digits_lt op k n (suc a / 2) (b / 2) small (omega arith) (omega arith),
      small (suc a % 2) (b % 2) (omega arith) (omega arith),
    )

differ_lt : (x y : ℕ) → x < 2 → y < 2 → differ x y < 2
differ_lt zero y p q = q
differ_lt (suc zero) zero p q = p
differ_lt (suc zero) (suc y) p q = omega arith
differ_lt (suc (suc x)) y p q = absurd (omega arith)

pub bit_xor_lt : (k a b : ℕ) → a < 2 ^ k → b < 2 ^ k → bit_xor a b < 2 ^ k
bit_xor_lt k a b p q = omega (arith, bit_xor-bitwise a b, digits_lt differ k a a b differ_lt p q)

pub bit_or_lt : (k a b : ℕ) → a < 2 ^ k → b < 2 ^ k → bit_or a b < 2 ^ k
bit_or_lt k a b p q =
    omega (arith, bit_or-bitwise a b, digits_lt max k a a b (λ x y. omega arith) p q)

differ_same : (x y : ℕ) → x < 2 → y < 2 → differ x y ≡ 0 → x ≡ y
differ_same zero y p q e = sym e
differ_same (suc x) zero p q e = absurd (omega (arith, e))
differ_same (suc zero) (suc zero) p q e = refl
differ_same (suc zero) (suc (suc y)) p q e = absurd (omega (arith, q))
differ_same (suc (suc x)) (suc y) p q e = absurd (omega (arith, p))

same_digits : (n a b : ℕ) → a ≤ n → digits (λ b. b) differ n a b ≡ 0 → a ≡ b
same_digits zero zero b h e = sym e
same_digits zero (suc a) b h e = absurd (omega (arith, h))
same_digits (suc n) zero b h e = sym e
same_digits (suc n) (suc a) b h e = omega (
  arith,
  same_digits n (suc a / 2) (b / 2) (omega (arith, h)) (omega (arith, e)),
  differ_same (suc a % 2) (b % 2) (omega arith) (omega arith) (omega (arith, e)),
)

pub bit_xor_same : (a b : ℕ) → bit_xor a b ≡ 0 → a ≡ b
bit_xor_same a b e = same_digits a a b (omega arith) (sym (bit_xor-bitwise a b) ∙ e)

zero_digits : (n a : ℕ) → a ≤ n → digits (λ b. b) differ n a 0 ≡ a
zero_digits zero zero h = refl
zero_digits zero (suc a) h = absurd (omega (arith, h))
zero_digits (suc n) zero h = refl
zero_digits (suc n) (suc a) h =
    omega (arith, zero_digits n (suc a / 2) (omega (arith, h)), differ_zero (suc a % 2))
  where
    differ_zero : (x : ℕ) → differ x 0 ≡ x
    differ_zero zero = refl
    differ_zero (suc x) = refl

pub bit_xor_zero : (a : ℕ) → bit_xor a 0 ≡ a
bit_xor_zero a = bit_xor-bitwise a 0 ∙ zero_digits a a (omega arith)

joined_digits :
    (n k a w : ℕ) → a ≤ n → a < 2 ^ k → digits (λ b. b) max n a (w * 2 ^ k) ≡ a + w * 2 ^ k
joined_digits zero k zero w h p = omega arith
joined_digits zero k (suc a) w h p = absurd (omega (arith, h))
joined_digits (suc n) k zero w h p = omega arith
joined_digits (suc n) zero (suc a) w h p = absurd (omega (arith, p))
joined_digits (suc n) (suc k) (suc a) w h p =
    let regrouped : w * (2 * 2 ^ k) ≡ w * 2 ^ k * 2 = omega arith in
    let shifted : w * 2 ^ suc k ≡ w * 2 ^ k * 2 = ap (λ x. w * x) (two_pow_suc k) ∙ regrouped in
    let half : w * 2 ^ suc k / 2 ≡ w * 2 ^ k = omega (arith, shifted) in
    let even : w * 2 ^ suc k % 2 ≡ 0 = omega (arith, shifted) in
    rw (half, even)
      (omega (
        arith,
        joined_digits n k (suc a / 2) w (omega (arith, h)) (omega (arith, p, two_pow_suc k)),
        shifted,
      ))

-- `|` with a number shifted beyond all digits of the other.
pub bit_or_shifted : (k a w : ℕ) → a < 2 ^ k → bit_or a (w * 2 ^ k) ≡ a + w * 2 ^ k
bit_or_shifted k a w p = bit_or-bitwise a (w * 2 ^ k) ∙ joined_digits a k a w (omega arith) p
