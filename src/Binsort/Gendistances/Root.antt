-- ===== src/Binsort/Gendistances/Root.antt =====
-- The rows at which the messages begin are in order.
use native.Mathlib.Nat.{mul-le-mul, mul-le-mul_right, mul-div-le, le-div_iff_mul-le}
use native.Mathlib.Decide.{dec_lt}
use binsort.Base.{
  ℕ, zero, suc, ◌+◌, ◌*◌, ◌/◌, ◌<◌, ◌≤◌, ◌≡◌, inl, inr, leb, if◌then◌else◌, Bool-cases, arith,
}

-- `root k` is the whole part of the square root of `k`.
abbrev pub IsRoot : (ℕ → ℕ) → Type 0
IsRoot root = (k : ℕ) → (root k * root k ≤ k) × (k < (root k + 1) * (root k + 1))

-- The whole part of a square root, found from above.
unfoldable pub root_loop : ℕ → ℕ → ℕ
root_loop zero k = 0
root_loop (suc r) k = let rest = root_loop r k in if leb (suc r * suc r) k then suc r else rest

unfoldable pub square_root : ℕ → ℕ
unfolding root_loop
square_root k = root_loop k k

root_loop-IsRoot :
    (r k : ℕ)
    → k < (r + 1) * (r + 1)
    → (root_loop r k * root_loop r k ≤ k) × (k < (root_loop r k + 1) * (root_loop r k + 1))
unfolding root_loop
root_loop-IsRoot zero k h = (omega arith, h)
root_loop-IsRoot (suc r) k h = elim (Bool-cases (leb (suc r * suc r) k)) [
  | inl fits ↦ rw fits (ground arith, h)
  | inr large ↦
      let low : k < suc r * suc r = ground arith in
      rw large (root_loop-IsRoot r k (omega (arith, low)))
]

pub square_root-IsRoot : IsRoot square_root
unfolding square_root
square_root-IsRoot k = root_loop-IsRoot k k (grind arith)

-- Smaller squares have smaller roots.
square_lt : (a b : ℕ) → a * a < b * b → a < b
square_lt a b h = elim (dec_lt a b) [
  | yes low ↦ low
  | no high ↦
      absurd (
        omega
          (arith, h, mul-le-mul {n₁ = b} {m₁ = b} {n₂ = a} {m₂ = a} (omega arith) (omega arith)))
]

pub root_zero : (root : ℕ → ℕ) → IsRoot root → root 0 ≡ 0
root_zero root is_root = elim (dec_lt 0 (root 0)) [
  | yes more ↦ absurd (
      omega
        (arith, (is_root 0).0, mul-le-mul {n₁ = 1} {m₁ = 1} {n₂ = root 0} {m₂ = root 0} more more))
  | no none ↦ omega (arith, none)
]

module _ (root : ℕ → ℕ) (num n : ℕ) (is_root : IsRoot root) (some_worker : 0 < n)
    (enough : 10 * n ≤ num) where
  abbrev a0 : ℕ
  a0 = num * num / n

  a0_large : 10 * num ≤ a0
  a0_large = (le-div_iff_mul-le some_worker).1 (grind (arith, mul-le-mul_right num enough))

  a0_small : n * a0 ≤ num * num
  a0_small = mul-div-le (num * num) n

  -- Each root is below the number of hashes, but for the last worker.
  pub root_lt : (i : ℕ) → i < n → root (i * a0) < num
  root_lt i h = square_lt (root (i * a0)) num (
      omega (
        arith,
        (is_root (i * a0)).0,
        mul-le-mul_right {m = suc i} {n = n} a0 (omega arith),
        a0_small,
        a0_large,
      ))

  -- The roots grow from one worker to the next.
  pub root_grows : (i : ℕ) → i < n → root (i * a0) < root (suc i * a0)
  root_grows i h =
      let low = root_lt i h in
      omega (
        arith,
        square_lt (root (i * a0) + 1) (root (suc i * a0) + 1)
            (grind (arith, low, a0_large, is_root (i * a0), is_root (suc i * a0))),
      )
