-- ===== src/Binsort/Order/Turned.antt =====
-- What the exchanges of reverse_loop make of the places between its two ends.
use native.Mathlib.Decide.{ℕ_discrete}
use mathlib.Core.Path.{subst₂}
use binsort.Base.{
  ℕ, zero, suc, ◌+◌, ◌-◌, ◌*◌, ◌%◌, ◌<◌, ◌≤◌, ◌≡◌, ◌≢◌, ◌⊎◌, refl, ap, ◌∙◌, inl, inr, Cells, swap,
  arith,
}
use binsort.Binsort.Order.{DirEntry, before, reverse_loop}
use binsort.Binsort.Order.Places.{
  swap_first, swap_second, swap_other, place, place_injective, place_next, before-place,
}

module _ (num i0 : ℕ) (h0 : i0 < num) where
  -- `o'` is `o` with the places from `a` on and from `b` down exchanged, `r` on each side.
  pub record Turned (o o' : Cells DirEntry) (r a b : ℕ) : Type 0 where
    pub turned :
        (k : ℕ)
        → k < num
        → ((a ≤ k) × (k < a + r)) ⊎ ((b < k + r) × (k ≤ b))
        → o' (place num i0 k) ≡ o (place num i0 (a + b - k))
    pub kept :
        (k : ℕ)
        → k < num
        → (k < a) ⊎ (b < k) ⊎ ((a + r ≤ k) × (k + r ≤ b))
        → o' (place num i0 k) ≡ o (place num i0 k)

  module _ (o o' : Cells DirEntry) (r a b : ℕ) (room : a + 2 * suc r ≤ suc b + 1)
      (inside : suc b < num)
      (t : Turned (swap o (place num i0 a) (place num i0 (suc b))) o' r (suc a) b) where
    abbrev swapped : Cells DirEntry
    swapped = swap o (place num i0 a) (place num i0 (suc b))

    -- A place that is neither end of the exchange.
    swapped_inner :
        (j : ℕ) → j < num → j ≢ a → j ≢ suc b → swapped (place num i0 j) ≡ o (place num i0 j)
    swapped_inner j h na nb =
        swap_other o (place num i0 a) (place num i0 (suc b)) (place num i0 j)
          (λ e. na (place_injective num i0 h0 j a h (omega arith) e))
          (λ e. nb (place_injective num i0 h0 j (suc b) h inside e))

    step_turned :
        (k : ℕ)
        → k < num
        → ((a ≤ k) × (k < a + suc r)) ⊎ ((suc b < k + suc r) × (k ≤ suc b))
        → o' (place num i0 k) ≡ o (place num i0 (a + suc b - k))
    step_turned k h s = elim (ℕ_discrete k a) [
      | yes first ↦
          let other : suc b ≡ a + suc b - k = omega arith in
          t.kept k h (inl (omega arith))
          ∙ ap (λ j. swapped (place num i0 j)) first
          ∙ swap_first o (place num i0 a) (place num i0 (suc b))
          ∙ ap (λ j. o (place num i0 j)) other
      | no nf ↦ elim (ℕ_discrete k (suc b)) [
        | yes last ↦
            let other : a ≡ a + suc b - k = omega arith in
            t.kept k h (inr (inl (omega arith)))
            ∙ ap (λ j. swapped (place num i0 j)) last
            ∙ swap_second o (place num i0 a) (place num i0 (suc b))
            ∙ ap (λ j. o (place num i0 j)) other
        | no nl ↦
            let other : suc a + b - k ≡ a + suc b - k = omega arith in
            t.turned k h (elim s [
              | inl (p, q) ↦ inl (omega arith, omega arith)
              | inr (p, q) ↦ inr (omega arith, omega arith)
            ])
            ∙ swapped_inner (suc a + b - k) (omega arith) (omega arith) (omega arith)
            ∙ ap (λ j. o (place num i0 j)) other
      ]
    ]

    step_kept :
        (k : ℕ)
        → k < num
        → (k < a) ⊎ (suc b < k) ⊎ ((a + suc r ≤ k) × (k + suc r ≤ suc b))
        → o' (place num i0 k) ≡ o (place num i0 k)
    step_kept k h s =
        t.kept k h (elim s [
          | inl p ↦ inl (omega arith)
          | inr (inl p) ↦ inr (inl (omega arith))
          | inr (inr (p, q)) ↦ inr (inr (omega arith, omega arith))
        ])
        ∙ swapped_inner k h (omega arith) (omega arith)

  pub reverse_loop-Turned :
      (r : ℕ) (o : Cells DirEntry) (a b p q : ℕ)
      → a + 2 * r ≤ b + 1
      → b < num
      → p ≡ place num i0 a
      → q ≡ place num i0 b
      → Turned o (reverse_loop r o num p q) r a b
  unfolding reverse_loop
  reverse_loop-Turned zero o a b p q room inside ep eq = record {
    turned = λ k h s. absurd (omega arith);
    kept = λ k h s. refl;
  }
  reverse_loop-Turned (suc r) o a zero p q room inside ep eq = absurd (omega arith)
  reverse_loop-Turned (suc r) o a (suc b) p q room inside ep eq =
      let next = ap (λ x. (x + 1) % num) ep ∙ place_next num i0 h0 a in
      let previous = ap (before num) eq ∙ before-place num i0 h0 b inside in
      let rest =
        reverse_loop-Turned r (swap o p q) (suc a) b _ _ (omega arith) (omega arith) next
          previous in
      let rest' =
        subst₂
          (λ x y.
            Turned (swap o x y) (reverse_loop r (swap o p q) num ((p + 1) % num) (before num q)) r
              (suc a) b)
          ep eq rest in
      record {
        turned = step_turned o _ r a b room inside rest';
        kept = step_kept o _ r a b room inside rest';
      }
