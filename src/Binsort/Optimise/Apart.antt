-- ===== src/Binsort/Optimise/Apart.antt =====
-- The positions that a range covers, and those next to it.
use native.Mathlib.Decide.{dec_lt}
use native.Mathlib.Nat.{mod-eq_of_lt, mod_self}
use binsort.Base.{ℕ, ◌+◌, ◌-◌, ◌%◌, ◌<◌, ◌≡◌, ◌⊎◌, ◌↔◌, ap, ◌∙◌, inl, inr, arith}
use binsort.Binsort.Order.{Span, before}
use binsort.Binsort.Order.Range.{IsSpan}
use binsort.Binsort.Order.Places.{place, place_cases}
use binsort.Binsort.Ranges.Disjoint.{Covers}

-- Every position is some place, counted from any other.
pub place_reaches : (num i0 x : ℕ) → i0 < num → x < num → (k : ℕ) × (k < num) × (place num i0 k ≡ x)
place_reaches num i0 x h0 hx = elim (dec_lt x i0) [
  | yes below ↦
      let k = x + num - i0 in (k, omega arith, omega (arith, place_cases num i0 h0 k (omega arith)))
  | no above ↦
      let k = x - i0 in (k, omega arith, omega (arith, place_cases num i0 h0 k (omega arith)))
]

module _ (num : ℕ) (r : Span) (s : IsSpan num r) where
  -- The range covers its first `n` places.
  pub Covers-place : (k : ℕ) → k < num → Covers r.i0 r.i1 (place num r.i0 k) ↔ (k < r.n)
  Covers-place k h = (
    λ c. ground (arith, place_cases num r.i0 s.first k h, s.ends, s.last, s.half, s.some_position),
    λ c. ground (arith, place_cases num r.i0 s.first k h, s.ends, s.last, s.half, s.some_position),
  )

  next_cases :
      (x : ℕ)
      → x < num
      → (((x + 1) % num ≡ x + 1) × (x + 1 < num)) ⊎ (((x + 1) % num ≡ 0) × (x + 1 ≡ num))
  next_cases x h = elim (dec_lt (x + 1) num) [
    | yes p ↦ inl (mod-eq_of_lt p, p)
    | no p ↦ let e : x + 1 ≡ num = omega arith in inr (ap (λ y. y % num) e ∙ mod_self num, e)
  ]

  -- Where the position before is not covered the range begins.
  pub Covers-next :
      (x : ℕ)
      → x < num
      → ¬ Covers r.i0 r.i1 x
      → Covers r.i0 r.i1 ((x + 1) % num)
      → (x + 1) % num ≡ r.i0
  Covers-next x h out c = ground (arith, next_cases x h, s.first, s.last)

  -- Where the position behind is not covered the range ends.
  pub Covers-before :
      (x : ℕ)
      → x < num
      → ¬ Covers r.i0 r.i1 x
      → Covers r.i0 r.i1 (before num x)
      → before num x ≡ r.i1
  Covers-before x h out c = ground (arith, s.first, s.last)
