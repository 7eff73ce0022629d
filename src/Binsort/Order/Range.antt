-- ===== src/Binsort/Order/Range.antt =====
-- What choose_range chooses.
use binsort.Base.{
  ℕ, ◌+◌, ◌-◌, ◌*◌, ◌%◌, ◌<◌, ◌≤◌, ◌≡◌, ◌⊎◌, ◌↔◌, ◌&&◌, none, some, ltb, leb, if◌then◌else◌,
  Bool-cases, ap, ◌∙◌, inl, inr, arith,
}
use native.Mathlib.Decide.{dec_lt}
use native.Mathlib.Nat.{mod-eq_of_lt, mod_self}
use binsort.Binsort.Order.{Span, choose_range, before}

-- The range is `n` positions from `i0` round to `i1`, at least one and at most half of all.
pub record IsSpan (num : ℕ) (r : Span) : Type 0 where
  pub first : r.i0 < num
  pub last : r.i1 < num
  pub some_position : 0 < r.n
  pub half : 2 * r.n ≤ num
  -- either the range does not go round the end of the array, or it does
  pub ends : (r.i0 + r.n ≡ r.i1 + 1) ⊎ (r.i0 + r.n ≡ r.i1 + 1 + num)

next_position :
    (num i : ℕ)
    → i < num
    → ((i + 1) % num ≡ i + 1) × (i + 1 < num) ⊎ ((i + 1) % num ≡ 0) × (i + 1 ≡ num)
next_position num i h = elim (dec_lt (i + 1) num) [
  | yes p ↦ inl (mod-eq_of_lt p, p)
  | no p ↦ let e : i + 1 ≡ num = omega arith in inr (ap (λ y. y % num) e ∙ mod_self num, e)
]

-- The other side of a range that is more than half of all positions.
other_side :
    (num i0 i1 : ℕ) {r : Span}
    → i0 < i1
    → i1 < num
    → i1 - i0 + 2 ≤ num
    → num + i0 - i1 - 1 < i1 - i0 + 1
    → (if ltb (before num i0) ((i1 + 1) % num)
        then some (record {
          i0 = (i1 + 1) % num;
          i1 = before num i0;
          n = num + before num i0 + 1 - (i1 + 1) % num;
        })
        else some (record {
          i0 = (i1 + 1) % num;
          i1 = before num i0;
          n = before num i0 - (i1 + 1) % num + 1;
        }))
      ≡ some r
    → IsSpan num r
other_side num i0 i1 lt h wide small e = elim (next_position num i1 h) [
  | inl (j, inside) ↦ ground (arith, j)
  | inr (j, end) ↦ ground (arith, j)
]

-- A range chosen from two positions of the array is within the array, begins and ends as its number of
-- positions says, and has at most half of all files.
pub choose_range-IsSpan :
    (num i0 i1 : ℕ) {r : Span}
    → i0 < num
    → i1 < num
    → choose_range num i0 i1 ≡ some r
    → IsSpan num r
unfolding choose_range
choose_range-IsSpan num i0 i1 {r} h0 h1 e = elim (Bool-cases (leb (i1 + 2) i0)) [
  | inl apart ↦ ground arith
  | inr near ↦ elim (Bool-cases (ltb i0 i1 && leb (i1 - i0 + 2) num)) [
    | inr neither ↦ let nothing = rw (near, neither) at e in cc
    | inl inner ↦ elim (Bool-cases (ltb (num + i0 - i1 - 1) (i1 - i0 + 1))) [
      | inr kept ↦ ground arith
      | inl other ↦
          other_side num i0 i1 (ground arith) h1 (ground arith) (ground arith)
            (rw (near, inner, other) at e)
    ]
  ]
]

-- choose_range asks for new positions exactly where the second is the first, comes just before it,
-- or makes up all positions with it.
pub choose_range-none :
    (num i0 i1 : ℕ)
    → i0 < num
    → i1 < num
    → (choose_range num i0 i1 ≡ none) ↔ ((i0 ≡ i1) ⊎ (i0 ≡ i1 + 1) ⊎ ((i0 ≡ 0) × (i1 + 1 ≡ num)))
unfolding choose_range
choose_range-none num i0 i1 h0 h1 = (λ e. ground arith, λ p. ground arith)
