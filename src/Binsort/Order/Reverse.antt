-- ===== src/Binsort/Order/Reverse.antt =====
-- The reversal of a range, exchange by exchange round the array, as one permutation of places.
use native.Mathlib.Decide.{ℕ_discrete, dec_lt}
use native.Mathlib.Nat.{mod-eq_of_lt}
use binsort.Base.{
  ℕ, suc, ◌+◌, ◌-◌, ◌/◌, ◌%◌, ◌<◌, ◌≤◌, ◌≡◌, sym, ap, ◌∙◌, inl, inr, false, Bool-cases, Cells, swap,
  ltb, arith,
}
use binsort.Binsort.Order.{DirEntry, Span, before, reverse_loop, reverse_range}
use binsort.Binsort.Order.Range.{IsSpan}
use binsort.Binsort.Order.Places.{place, place_cases}
use binsort.Binsort.Order.Turned.{Turned, reverse_loop-Turned}

-- What the reversal of a range makes of the order: the places of the range in reverse, and no other
-- place changed.
pub record IsReversed (num : ℕ) (r : Span) (o o' : Cells DirEntry) : Type 0 where
  pub turned : (k : ℕ) → k < r.n → o' (place num r.i0 k) ≡ o (place num r.i0 (r.n - 1 - k))
  pub kept : (k : ℕ) → r.n ≤ k → k < num → o' (place num r.i0 k) ≡ o (place num r.i0 k)

-- The last place of a range.
pub span_last : (num : ℕ) (r : Span) → IsSpan num r → r.i1 ≡ place num r.i0 (r.n - 1)
span_last num r s = omega (
  arith,
  place_cases num r.i0 s.first (r.n - 1) (omega (arith, s.half, s.some_position)),
  s.ends,
  s.last,
  s.some_position,
)

-- The exchanges of reverse_range, as rounds of its loop.
reverse_range-loop :
    (o : Cells DirEntry) (num : ℕ) (r : Span)
    → 2 ≤ r.n
    → reverse_range o num r ≡ reverse_loop (r.n / 2) o num r.i0 r.i1
unfolding reverse_range reverse_loop
reverse_range-loop o num r h =
    let k = r.n / 2 - 1 in let rounds : r.n / 2 ≡ suc k = omega arith in rounds_path k rounds
  where
    rounds_path :
        (k : ℕ) → r.n / 2 ≡ suc k → reverse_range o num r ≡ reverse_loop (r.n / 2) o num r.i0 r.i1
    rounds_path k e = elim (Bool-cases (ltb 3 r.n)) [
      | inl long ↦
          let less : r.n / 2 - 1 ≡ k = omega arith in
          rw (long, reverse_range)
            (ap (λ m. reverse_loop m (swap o r.i0 r.i1) num ((r.i0 + 1) % num) (before num r.i1))
                less
              ∙ ap (λ m. reverse_loop m o num r.i0 r.i1) (sym e))
      | inr short ↦
          let none_left : k ≡ 0 = ground arith in
          rw (short, reverse_range)
            (ap (λ m. reverse_loop (suc m) o num r.i0 r.i1) (sym none_left)
              ∙ ap (λ m. reverse_loop m o num r.i0 r.i1) (sym e))
    ]

swap_same : (o : Cells DirEntry) (p q j : ℕ) → p ≡ q → swap o p q j ≡ o j
swap_same o p q j e = elim (ℕ_discrete q j) [
  | yes at ↦ ground (arith, ap o (e ∙ at))
  | no elsewhere ↦ ground arith
]

-- A range of one place is exchanged with itself.
reverse_range_one :
    (o : Cells DirEntry) (num : ℕ) (r : Span) (j : ℕ)
    → r.n ≡ 1
    → r.i0 ≡ r.i1
    → reverse_range o num r j ≡ o j
unfolding reverse_range
reverse_range_one o num r j one e =
    let short : ltb 3 r.n ≡ false = ground arith in
    rw (short, reverse_range) (swap_same o r.i0 r.i1 j e)

-- For a range of at least one and at most half of all positions, reverse_range reverses the positions
-- of the range, going round the array, and changes no other.
pub reverse_range-IsReversed :
    (o : Cells DirEntry) (num : ℕ) (r : Span)
    → IsSpan num r
    → IsReversed num r o (reverse_range o num r)
reverse_range-IsReversed o num r s = elim (dec_lt 1 r.n) [
  | no one ↦
      let single : r.n ≡ 1 = omega (arith, s.some_position) in
      let same : r.i0 ≡ r.i1 = omega (arith, s.ends, s.first, s.last) in
      record {
        turned = λ k h.
            let mirror : k ≡ r.n - 1 - k = omega arith in
            reverse_range_one o num r (place num r.i0 k) single same
            ∙ ap (λ j. o (place num r.i0 j)) mirror;
        kept = λ k h b. reverse_range_one o num r (place num r.i0 k) single same;
      }
  | yes more ↦ loop_reversed (reverse_range-loop o num r more) (
      reverse_loop-Turned num r.i0 s.first (r.n / 2) o 0 (r.n - 1) r.i0 r.i1 (omega arith)
        (omega (arith, s.half)) (sym (mod-eq_of_lt s.first) ∙ ap (λ y. y % num) (omega arith))
        (span_last num r s))
]
  where
    loop_reversed :
        reverse_range o num r ≡ reverse_loop (r.n / 2) o num r.i0 r.i1
        → Turned num r.i0 s.first o (reverse_loop (r.n / 2) o num r.i0 r.i1) (r.n / 2) 0 (r.n - 1)
        → IsReversed num r o (reverse_range o num r)
    loop_reversed e t = record {
      turned = λ k h.
          let mirror : 0 + (r.n - 1) - k ≡ r.n - 1 - k = omega arith in
          let inside : k < num = omega (arith, s.half) in
          ap (λ f. f (place num r.i0 k)) e ∙ elim (dec_lt k (r.n / 2)) [
            | yes left ↦
                t.turned k inside (inl (omega arith, omega arith))
                ∙ ap (λ j. o (place num r.i0 j)) mirror
            | no nl ↦ elim (dec_lt (r.n - 1) (k + r.n / 2)) [
              | yes right ↦
                  t.turned k inside (inr (right, omega arith))
                  ∙ ap (λ j. o (place num r.i0 j)) mirror
              | no nr ↦
                  let middle : k ≡ r.n - 1 - k = omega arith in
                  t.kept k inside (inr (inr (omega arith, omega arith)))
                  ∙ ap (λ j. o (place num r.i0 j)) middle
            ]
          ];
      kept = λ k b h.
          ap (λ f. f (place num r.i0 k)) e
          ∙ t.kept k h (inr (inl (omega (arith, s.some_position))));
    }
