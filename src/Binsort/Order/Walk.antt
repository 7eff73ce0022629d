-- ===== src/Binsort/Order/Walk.antt =====
-- The length of a path through a sequence of files, and of one with a part of it turned round.
use binsort.Base.{ℕ, zero, suc, ◌+◌, ◌-◌, ◌<◌, ◌≤◌, ◌≡◌, refl, ap, ap₂, ◌∙◌, Cells, arith}

module _ {A : Type 0} (w : A → A → ℕ) where
  -- The `l` steps from `x a` on.
  unfoldable pub walk : Cells A → ℕ → ℕ → ℕ
  walk x a zero = 0
  walk x a (suc l) = w (x a) (x (suc a)) + walk x (suc a) l

  walk-zero : (x : Cells A) (a : ℕ) → walk x a 0 ≡ 0
  unfolding walk
  walk-zero x a = refl

  pub walk-one : (x : Cells A) (a : ℕ) → walk x a 1 ≡ w (x a) (x (suc a))
  unfolding walk
  walk-one x a = omega arith

  pub walk-append : (x : Cells A) (l k a : ℕ) → walk x a (l + k) ≡ walk x a l + walk x (a + l) k
  unfolding walk
  walk-append x zero k a =
      let start : a + 0 ≡ a = omega arith in
      let length : 0 + k ≡ k = omega arith in
      omega (arith, ap (walk x a) length, ap (λ b. walk x b k) start)
  walk-append x (suc l) k a =
      let start : a + suc l ≡ suc a + l = omega arith in
      let length : suc l + k ≡ suc (l + k) = omega arith in
      omega (arith, ap (walk x a) length, ap (λ b. walk x b k) start, walk-append x l k (suc a))

  pub walk-cong :
      (x y : Cells A) (l a b : ℕ)
      → ((j : ℕ) → j ≤ l → y (a + j) ≡ x (b + j))
      → walk y a l ≡ walk x b l
  unfolding walk
  walk-cong x y zero a b h = refl
  walk-cong x y (suc l) a b h =
      let here : y a ≡ x b = ap y (omega arith) ∙ h 0 (omega arith) ∙ ap x (omega arith) in
      let next : y (suc a) ≡ x (suc b) =
        ap y (omega arith) ∙ h 1 (omega arith) ∙ ap x (omega arith) in
      ap₂ ◌+◌ (ap₂ w here next) (
        walk-cong x y l (suc a) (suc b)
          λ j lt. ap y (omega arith) ∙ h (suc j) (omega arith) ∙ ap x (omega arith))

  -- A round trip in four parts: to `n`, one step, to its last place, and one step.
  walk_split :
      (x : Cells A) (n m : ℕ)
      → walk x 0 (suc n + suc m)
        ≡ walk x 0 n
          + w (x n) (x (suc n))
          + walk x (suc n) m
          + w (x (suc n + m)) (x (suc n + suc m))
  unfolding walk
  walk_split x n m =
      let whole : suc n + suc m ≡ n + suc (m + 1) = omega arith in
      let start : 0 + n ≡ n = omega arith in
      let end : suc (suc n + m) ≡ suc n + suc m = omega arith in
      omega (
        arith,
        ap (walk x 0) whole,
        walk-append x n (suc (m + 1)) 0,
        ap (λ a. walk x a (suc (m + 1))) start,
        walk-append x m 1 (suc n),
        walk-one x (suc n + m),
        ap (λ k. w (x (suc n + m)) (x k)) end,
      )

  -- A round trip may start at its second place.
  pub walk_rotate :
      (x : Cells A) (n : ℕ)
      → x (suc n) ≡ x 0
      → x (suc (suc n)) ≡ x 1
      → walk x 1 (suc n) ≡ walk x 0 (suc n)
  unfolding walk
  walk_rotate x n first second =
      let longer : suc n ≡ n + 1 = omega arith in
      let at : 1 + n ≡ suc n = omega arith in
      omega (
        arith,
        ap (walk x 1) longer,
        walk-append x n 1 1,
        walk-one x (1 + n),
        ap (λ k. w (x k) (x (suc k))) at,
        ap₂ w first second,
      )

  -- A walk taken backwards is as long.
  pub walk-reverse :
      (x y : Cells A) (l a b : ℕ)
      → ((j k : ℕ) → w (x j) (x k) ≡ w (x k) (x j))
      → ((j : ℕ) → j ≤ l → y (a + j) ≡ x (b + (l - j)))
      → walk y a l ≡ walk x b l
  unfolding walk
  walk-reverse x y zero a b sym_w h = refl
  walk-reverse x y (suc l) a b sym_w h =
      let here : y a ≡ x (suc (b + l)) =
        ap y (omega arith) ∙ h 0 (omega arith) ∙ ap x (omega arith) in
      let next : y (suc a) ≡ x (b + l) =
        ap y (omega arith) ∙ h 1 (omega arith) ∙ ap x (omega arith) in
      let rest =
        walk-reverse x y l (suc a) b sym_w
          λ j lt. ap y (omega arith) ∙ h (suc j) (omega arith) ∙ ap x (omega arith) in
      let split : walk x b (suc l) ≡ walk x b l + walk x (b + l) 1 =
        let length : suc l ≡ l + 1 = omega arith in ap (walk x b) length ∙ walk-append x l 1 b in
      omega (arith, ap₂ w here next, sym_w (suc (b + l)) (b + l), rest, split, walk-one x (b + l))

  -- Turning round the first `n` of `n + suc m` places of a round trip changes its two ends only.
  pub walk_turned :
      (x y : Cells A) (n m : ℕ)
      → ((j k : ℕ) → w (x j) (x k) ≡ w (x k) (x j))
      → ((k : ℕ) → k < suc n → y k ≡ x (n - k))
      → ((k : ℕ) → suc n ≤ k → k < suc n + suc m → y k ≡ x k)
      → x (suc n + suc m) ≡ x 0
      → y (suc n + suc m) ≡ y 0
      → walk y 0 (suc n + suc m) + w (x n) (x (suc n)) + w (x (suc n + m)) (x 0)
        ≡ walk x 0 (suc n + suc m) + w (x 0) (x (suc n)) + w (x (suc n + m)) (x n)
  walk_turned x y n m sym_w turned kept round round' =
      let first : y 0 ≡ x n = turned 0 (omega arith) ∙ ap x (omega arith) in
      let last : y n ≡ x 0 = turned n (omega arith) ∙ ap x (omega arith) in
      let after : y (suc n) ≡ x (suc n) = kept (suc n) (omega arith) (omega arith) in
      let before : y (suc n + m) ≡ x (suc n + m) = kept (suc n + m) (omega arith) (omega arith) in
      let inner =
        walk-reverse x y n 0 0 sym_w
          λ j lt. ap y (omega arith) ∙ turned j (omega arith) ∙ ap x (omega arith) in
      let outer =
        walk-cong x y m (suc n) (suc n) λ j lt. kept (suc n + j) (omega arith) (omega arith) in
      omega (
        arith,
        walk_split x n m,
        walk_split y n m,
        inner,
        outer,
        ap₂ w last after,
        ap₂ w before (round' ∙ first),
        ap (w (x (suc n + m))) round,
      )
