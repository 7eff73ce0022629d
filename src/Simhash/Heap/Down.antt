-- ===== src/Simhash/Heap/Down.antt =====
-- downheap restores the order after the root was replaced.
use native.Mathlib.Decide.{ℕ_discrete}
use binsort.Base.{
  ℕ, zero, suc, ◌+◌, ◌*◌, ◌≤◌, ◌<◌, ◌≡◌, refl, ◌&&◌, Cells, swap, count-swap, ltb, leb, Bool-cases,
  inl, inr, arith,
}
use binsort.Simhash.Heap.{parent, down_loop}
use binsort.Simhash.Heap.Order.{DownInv, Restored, Restored-trans}

-- The loop goes down to the greater child `g`.
module _ (a : Cells ℕ) (n i g : ℕ) (v : DownInv a n i) (is_child : parent g ≡ i) (inside : g < n)
    (below : i < g) (greater : (c : ℕ) → 0 < c → c < n → parent c ≡ i → a c ≤ a g)
    (out : a i ≤ a g) where
  down_step : DownInv (swap a g i) n g
  down_step = record {
    edges = λ c p q r. ground (arith, v.edges c, v.bridged g, greater c);
    bridged = λ c p q e f. ground (arith, v.edges c);
  }

-- A node that is not below a child is in order.
down_done :
    (a : Cells ℕ) (n i : ℕ)
    → DownInv a n i
    → ((c : ℕ) → 0 < c → c < n → parent c ≡ i → a c ≤ a i)
    → Restored a a n
down_done a n i v h = record {
  heap = λ c p q. elim (ℕ_discrete (parent c) i) [
    | yes e ↦ rw e (h c p q e)
    | no ne ↦ v.edges c p q ne
  ];
  same = λ v. refl;
  beyond = λ j h. refl;
}

-- A call that goes on at the greater child `g`.
down_next : (a r : Cells ℕ) (n i g : ℕ) → i < g → g < n → Restored (swap a g i) r n → Restored a r n
down_next a r n i g below inside rest =
    Restored-trans rest (λ w. count-swap a n g i w inside (omega arith)) (λ j h. ground arith)

-- The last node with only a left child.
down_last :
    (a : Cells ℕ) (n i g : ℕ)
    → DownInv a n i
    → g ≡ 2 * i + 1
    → n ≡ g + 1
    → a i ≤ a g
    → Restored a (swap a g i) n
down_last a n i g v e size out = down_next a _ n i g (omega arith) (omega arith) (
    down_done (swap a g i) n g
      (down_step a n i g v (omega arith) (omega arith) (omega arith)
        (λ c p q r. let same : c ≡ g = omega arith in rw same (omega arith)) out)
      (λ c p q r. absurd (omega arith)))

either_child :
    (a : Cells ℕ) (i c g : ℕ)
    → (a (2 * i + 1) ≤ a g) × (a (2 * i + 2) ≤ a g)
    → parent c ≡ i
    → 0 < c
    → a c ≤ a g
either_child a i c g h e p = elim (ℕ_discrete c (2 * i + 1)) [
  | yes left ↦ rw left h.0
  | no ne ↦ let right : c ≡ 2 * i + 2 = omega arith in rw right h.1
]

pub down_loop-Restored :
    (k : ℕ) (a : Cells ℕ) (n i : ℕ) → n < k + i → DownInv a n i → Restored a (down_loop k a n i) n
unfolding down_loop
down_loop-Restored zero a n i f v = down_done a n i v (λ c p q r. absurd (omega arith))
down_loop-Restored (suc k) a n i f v =
    let l = 2 * i + 1 in
    let r = l + 1 in
    elim (Bool-cases (leb n l)) [
      | inl leaf ↦ rw leaf (down_done a n i v (λ c p q e. absurd (ground arith)))
      | inr some_child ↦ elim (Bool-cases (leb n r)) [
        | inl single ↦ elim (Bool-cases (ltb (a i) (a l))) [
          | inl out ↦
              rw (some_child, single, out) (down_last a n i l v refl (ground arith) (ground arith))
          | inr ordered ↦
              rw (some_child, single, ordered)
                (down_done a n i v
                  (λ c p q e. let same : c ≡ l = ground arith in rw same (ground arith)))
        ]
        | inr both ↦ elim (Bool-cases (leb (a l) (a i) && leb (a r) (a i))) [
          | inl ordered ↦
              rw (some_child, both, ordered)
                (down_done a n i v (λ c p q e. elim (ℕ_discrete c l) [
                  | yes same ↦ rw same (ground arith)
                  | no ne ↦ let same : c ≡ r = omega arith in rw same (ground arith)
                ]))
          | inr out ↦ elim (Bool-cases (ltb (a r) (a l))) [
            | inl left ↦
                rw (some_child, both, out, left)
                  (down_next a _ n i l (omega arith) (ground arith) (
                    down_loop-Restored k _ n l (omega arith) (
                      down_step a n i l v (omega arith) (ground arith) (omega arith)
                        (λ c p q e. either_child a i c l (ground arith) e (ground arith))
                        (ground arith))))
            | inr right ↦
                rw (some_child, both, out, right)
                  (down_next a _ n i r (omega arith) (ground arith) (
                    down_loop-Restored k _ n r (omega arith) (
                      down_step a n i r v (omega arith) (ground arith) (omega arith)
                        (λ c p q e. either_child a i c r (ground arith) e (ground arith))
                        (ground arith))))
          ]
        ]
      ]
    ]
