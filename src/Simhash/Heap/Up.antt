-- ===== src/Simhash/Heap/Up.antt =====
-- upheap restores the order after a value was put at the end.
use native.Mathlib.Decide.{ℕ_discrete}
use binsort.Base.{
  ℕ, zero, suc, ◌≤◌, ◌<◌, refl, Cells, swap, count-swap, ltb, leb, Bool-cases, inl, inr, arith,
}
use binsort.Simhash.Heap.{parent, up_loop}
use binsort.Simhash.Heap.Order.{UpInv, Restored, Restored-trans}

module _ (a : Cells ℕ) (n i : ℕ) (v : UpInv a n i) (pos : 0 < i) (out : a (parent i) < a i) where
  up_step : UpInv (swap a (parent i) i) n (parent i)
  up_step = record {
    inside = ground (arith, v.inside);
    edges = λ c p q r. ground (arith, v.edges c, v.bridged c, v.edges (parent i));
    bridged = λ c p q e f. ground (arith, v.edges c, v.edges (parent i), v.bridged c);
  }

-- With nothing above its parent but at the root, the order is restored already.
up_done : (a : Cells ℕ) (n i : ℕ) → UpInv a n i → (0 < i → a i ≤ a (parent i)) → Restored a a n
up_done a n i v h = record {
  heap = λ c p q. elim (ℕ_discrete c i) [
    | yes e ↦ let k : 0 < i = omega arith in rw e (h k)
    | no ne ↦ v.edges c p q ne
  ];
  same = λ v. refl;
  beyond = λ j h. refl;
}

pub up_loop-Restored :
    (k : ℕ) (a : Cells ℕ) (n i : ℕ) → i < k → UpInv a n i → Restored a (up_loop k a i) n
unfolding up_loop
up_loop-Restored zero a n i f v = absurd (omega arith)
up_loop-Restored (suc k) a n i f v = elim (Bool-cases (ltb 0 i)) [
  | inr root ↦ rw root (up_done a n i v (λ p. absurd (ground arith)))
  | inl pos ↦ elim (Bool-cases (leb (a i) (a (parent i)))) [
    | inl ordered ↦ rw (pos, ordered) (up_done a n i v (λ p. ground arith))
    | inr out ↦
        let lt : 0 < i = ground arith in
        let above : a (parent i) < a i = ground arith in
        let inside : i < n = v.inside in
        rw (pos, out)
          (Restored-trans
            (up_loop-Restored k _ n (parent i) (omega arith) (up_step a n i v lt above))
            (λ w. count-swap a n (parent i) i w (omega arith) inside) (λ j h. ground arith))
  ]
]
