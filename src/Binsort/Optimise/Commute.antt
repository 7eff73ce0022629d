-- ===== src/Binsort/Optimise/Commute.antt =====
-- What is left of a reversal touches only places within its range, and so commutes with an exchange
-- elsewhere.
use mathlib.Core.Path.{fun_ext}
use binsort.Base.{
  ℕ, zero, suc, ◌+◌, ◌-◌, ◌*◌, ◌%◌, ◌<◌, ◌≤◌, ◌≡◌, ◌≢◌, ◌⊎◌, refl, sym, ap, ◌∙◌, inl, inr, Cells,
  swap, arith,
}
use binsort.Binsort.Order.{DirEntry, Distances, before, reverse_loop}
use binsort.Binsort.Order.Range.{IsSpan}
use native.Mathlib.Nat.{mod-lt}
use native.Mathlib.Decide.{ℕ_discrete}
use binsort.Binsort.Order.Places.{
  swap_first, swap_second, swap_other, place, place_cases, place_injective, place_next,
  before-place,
}
use binsort.Binsort.Order.Turned.{reverse_loop-Turned}
use binsort.Binsort.Order.Reverse.{span_last}
use binsort.Binsort.Order.Delta.{IsIndexed}
use binsort.Binsort.Ranges.Disjoint.{Covers}
use binsort.Binsort.Optimise.{Reversal, advance}
use binsort.Binsort.Optimise.Apart.{Covers-place, place_reaches}

-- What is left of a range under way: `p` and `q` are at the same distance from its ends, and the
-- exchanges that are left are those between them.
pub record IsUnderWay (num : ℕ) (j : Reversal) : Type 0 where
  pub span : IsSpan num j.span
  pub from_left : ℕ
  pub from_right : ℕ
  pub some_done : 0 < from_left
  pub mirrored : from_left + from_right + 1 ≡ j.span.n
  pub rest : from_left + 2 * j.left ≤ from_right + 1
  pub at_p : j.p ≡ place num j.span.i0 from_left
  pub at_q : j.q ≡ place num j.span.i0 from_right

-- The exchanges of a range that are left, made on an order.
abbrev pub finish : ℕ → Reversal → Cells DirEntry → Cells DirEntry
finish num j o = reverse_loop j.left o num j.p j.q

swap-swap :
    (o : Cells DirEntry) (x y p q : ℕ)
    → x ≢ p
    → x ≢ q
    → y ≢ p
    → y ≢ q
    → swap (swap o x y) p q ≡ swap (swap o p q) x y
swap-swap o x y p q a b c d = fun_ext (λ j. ground arith)

module _ (num : ℕ) (j : Reversal) (u : IsUnderWay num j) where
  -- An end of the range, or a place that it does not cover, is as before.
  pub finish_kept :
      (o : Cells DirEntry) (x : ℕ)
      → x < num
      → (x ≡ j.span.i0) ⊎ (x ≡ j.span.i1) ⊎ (¬ Covers j.span.i0 j.span.i1 x)
      → finish num j o x ≡ o x
  finish_kept o x h out =
      let (k, hk, at) = place_reaches num j.span.i0 x u.span.first h in
      let t =
        reverse_loop-Turned num j.span.i0 u.span.first j.left o u.from_left u.from_right j.p j.q
          u.rest inside u.at_p u.at_q in
      ap (finish num j o) (sym at) ∙ t.kept k hk (outside k hk at out) ∙ ap o at
    where
      inside : u.from_right < num
      inside = omega (arith, u.span.half, u.mirrored, u.some_done)

      outside :
          (k : ℕ)
          → k < num
          → place num j.span.i0 k ≡ x
          → (x ≡ j.span.i0) ⊎ (x ≡ j.span.i1) ⊎ (¬ Covers j.span.i0 j.span.i1 x)
          → (k < u.from_left)
            ⊎ (u.from_right < k)
            ⊎ ((u.from_left + j.left ≤ k) × (k + j.left ≤ u.from_right))
      outside k hk at (inl first) =
          inl
            (omega (arith, place_cases num j.span.i0 u.span.first k hk, u.span.first, u.some_done))
      outside k hk at (inr (inl last)) =
          let n = j.span.n in
          inr (
            inl (
              omega (
                arith,
                place_injective num j.span.i0 u.span.first k (n - 1) hk
                    (omega (arith, u.span.half, u.span.some_position))
                    (at ∙ last ∙ span_last num j.span u.span),
                u.mirrored,
                u.some_done,
              )))
      outside k hk at (inr (inr out)) =
          let far : ¬ (k < j.span.n) =
            λ low. out (rw at at ((Covers-place num j.span u.span k hk).1 low)) in
          inr (inl (omega (arith, u.mirrored)))

reverse_loop-swap :
    (k : ℕ) (num i0 : ℕ) (h0 : i0 < num) (o : Cells DirEntry) (a b p q x y : ℕ)
    → a + 2 * k ≤ b + 1
    → b < num
    → p ≡ place num i0 a
    → q ≡ place num i0 b
    → ((i : ℕ) → a ≤ i → i ≤ b → (x ≢ place num i0 i) × (y ≢ place num i0 i))
    → reverse_loop k (swap o x y) num p q ≡ swap (reverse_loop k o num p q) x y
unfolding reverse_loop
reverse_loop-swap zero num i0 h0 o a b p q x y room inside ep eq apart = refl
reverse_loop-swap (suc k) num i0 h0 o a zero p q x y room inside ep eq apart = absurd (omega arith)
reverse_loop-swap (suc k) num i0 h0 o a (suc b) p q x y room inside ep eq apart =
    let next = ap (λ x. (x + 1) % num) ep ∙ place_next num i0 h0 a in
    let previous = ap (before num) eq ∙ before-place num i0 h0 b inside in
    let (xa, ya) = apart a (omega arith) (omega arith) in
    let (xb, yb) = apart (suc b) (omega arith) (omega arith) in
    ap (λ o. reverse_loop k o num ((p + 1) % num) (before num q))
      (swap-swap o x y p q (λ e. xa (e ∙ ep)) (λ e. xb (e ∙ eq)) (λ e. ya (e ∙ ep))
        (λ e. yb (e ∙ eq)))
    ∙ reverse_loop-swap k num i0 h0 (swap o p q) (suc a) b _ _ x y (omega arith) (omega arith) next
        previous (λ i l u. apart i (omega arith) (omega arith))

-- An exchange within the array keeps the rows of the matrix.
pub swap-IsIndexed :
    (dist : Distances) (o : Cells DirEntry) (num p q : ℕ)
    → IsIndexed dist o num
    → p < num
    → q < num
    → IsIndexed dist (swap o p q) num
swap-IsIndexed dist o num p q rows hp hq i h = elim (ℕ_discrete i q) [
  | yes at_q ↦ rw at_q (rw (swap_second o p q) (rows p hp))
  | no nq ↦ elim (ℕ_discrete i p) [
    | yes at_p ↦ rw at_p (rw (swap_first o p q) (rows q hq))
    | no np ↦ rw (swap_other o p q i np nq) (rows i h)
  ]
]

reverse_loop-IsIndexed :
    (k : ℕ) (dist : Distances) (o : Cells DirEntry) (num p q : ℕ)
    → IsIndexed dist o num
    → p < num
    → q < num
    → IsIndexed dist (reverse_loop k o num p q) num
unfolding reverse_loop
reverse_loop-IsIndexed zero dist o num p q rows hp hq = rows
reverse_loop-IsIndexed (suc k) dist o num p q rows hp hq =
    reverse_loop-IsIndexed k dist (swap o p q) num _ _ (swap-IsIndexed dist o num p q rows hp hq)
      (mod-lt (p + 1) (omega arith)) (ground arith)

module _ (num : ℕ) (j : Reversal) (u : IsUnderWay num j) where
  -- What is left of a reversal commutes with an exchange of two places that its range does not cover.
  pub finish-swap :
      (o : Cells DirEntry) (x y : ℕ)
      → ¬ Covers j.span.i0 j.span.i1 x
      → ¬ Covers j.span.i0 j.span.i1 y
      → finish num j (swap o x y) ≡ swap (finish num j o) x y
  finish-swap o x y nx ny =
      reverse_loop-swap j.left num j.span.i0 u.span.first o u.from_left u.from_right j.p j.q x y
        u.rest (omega (arith, u.span.half, u.mirrored, u.some_done)) u.at_p u.at_q
        (λ i l m.
          let covered =
            (Covers-place num j.span u.span i
                (omega (arith, u.span.half, u.mirrored, u.some_done))).1
              (omega (arith, u.mirrored, u.some_done)) in
          (λ e. nx (rw e covered), λ e. ny (rw e covered)))

  -- The two places of the next exchange are covered by the range.
  pub at_covered : Covers j.span.i0 j.span.i1 j.p × Covers j.span.i0 j.span.i1 j.q
  at_covered =
      let covered = λ (i : ℕ) (l : i < j.span.n).
        (Covers-place num j.span u.span i (omega (arith, u.span.half, u.span.some_position))).1 l in
      (
        rw u.at_p (covered u.from_left (omega (arith, u.mirrored))),
        rw u.at_q (covered u.from_right (omega (arith, u.mirrored, u.some_done))),
      )

  pub at-lt : (j.p < num) × (j.q < num)
  at-lt =
      let some_file : 0 < num = omega (arith, u.span.first) in
      (rw u.at_p (mod-lt _ some_file), rw u.at_q (mod-lt _ some_file))

  pub finish-IsIndexed :
      (dist : Distances) (o : Cells DirEntry)
      → IsIndexed dist o num
      → IsIndexed dist (finish num j o) num
  finish-IsIndexed dist o rows =
      reverse_loop-IsIndexed j.left dist o num j.p j.q rows at-lt.0 at-lt.1

  -- After an exchange the range is still under way.
  pub advance-IsUnderWay : (left : ℕ) → j.left ≡ suc left → IsUnderWay num (advance num left j)
  unfolding advance
  advance-IsUnderWay left e = advanced u.from_right refl
    where
      advanced : (b : ℕ) → u.from_right ≡ b → IsUnderWay num (advance num left j)
      advanced zero at = absurd (omega (arith, u.rest))
      advanced (suc b) at = record {
        span = u.span;
        from_left = suc u.from_left;
        from_right = b;
        some_done = omega arith;
        mirrored = omega (arith, u.mirrored);
        rest = omega (arith, u.rest);
        at_p = ap (λ x. (x + 1) % num) u.at_p ∙ place_next num j.span.i0 u.span.first u.from_left;
        at_q =
            ap (before num) (u.at_q ∙ ap (place num j.span.i0) at)
            ∙ before-place num j.span.i0 u.span.first b
                (omega (arith, u.span.half, u.mirrored, u.some_done));
      }
