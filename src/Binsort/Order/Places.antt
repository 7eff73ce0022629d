-- ===== src/Binsort/Order/Places.antt =====
-- The places of a range, counted from its first one and going round the array, and exchanges.
use native.Mathlib.Decide.{ℕ_discrete, dec_lt}
use native.Mathlib.Nat.{mod-eq_of_lt, mod-eq-sub-mod, mod-add-mod, add-mod_right}
use binsort.Base.{
  ℕ, suc, ◌+◌, ◌-◌, ◌%◌, ◌<◌, ◌≤◌, ◌≡◌, ◌≢◌, ◌⊎◌, ap, ◌∙◌, inl, inr, Cells, swap, arith,
}
use binsort.Binsort.Order.{DirEntry, before}

pub swap_first : (o : Cells DirEntry) (p q : ℕ) → swap o p q p ≡ o q
swap_first o p q = elim (ℕ_discrete q p) [ yes e ↦ rw e (ground arith) | no ne ↦ ground arith ]

pub swap_second : (o : Cells DirEntry) (p q : ℕ) → swap o p q q ≡ o p
swap_second o p q = ground arith

pub swap_other : (o : Cells DirEntry) (p q j : ℕ) → j ≢ p → j ≢ q → swap o p q j ≡ o j
swap_other o p q j np nq = ground arith

-- The `k`-th place from `i0` on, going round.
abbrev pub place : ℕ → ℕ → ℕ → ℕ
place num i0 k = (i0 + k) % num

module _ (num i0 : ℕ) (h0 : i0 < num) where
  pub place_cases :
      (k : ℕ)
      → k < num
      → ((place num i0 k ≡ i0 + k) × (i0 + k < num))
        ⊎ ((place num i0 k + num ≡ i0 + k) × (num ≤ i0 + k))
  place_cases k h = elim (dec_lt (i0 + k) num) [
    | yes p ↦ inl (mod-eq_of_lt p, p)
    | no p ↦ inr (
      omega (
        arith,
        mod-eq-sub-mod {n = i0 + k} {m = num} (omega arith),
        mod-eq_of_lt {n = i0 + k - num} {m = num} (omega arith),
      ),
      omega arith,
    )
  ]

  pub place_injective : (a b : ℕ) → a < num → b < num → place num i0 a ≡ place num i0 b → a ≡ b
  place_injective a b ha hb e = omega (arith, place_cases a ha, place_cases b hb)

  pub place_next : (k : ℕ) → (place num i0 k + 1) % num ≡ place num i0 (suc k)
  place_next k = mod-add-mod (i0 + k) num 1 ∙ ap (λ y. y % num) (omega arith)

  pub before-place : (k : ℕ) → suc k < num → before num (place num i0 (suc k)) ≡ place num i0 k
  before-place k h = ground (arith, place_cases k (omega arith), place_cases (suc k) h)

  pub place_round : place num i0 num ≡ i0
  place_round = add-mod_right i0 num ∙ mod-eq_of_lt h0

  -- The last place going round is the one before the first.
  pub place_last : (k : ℕ) → suc k ≡ num → place num i0 k ≡ before num i0
  place_last k e = ground (arith, place_cases k (omega arith))
