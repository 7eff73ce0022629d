-- ===== src/Base/Arrays.antt =====
-- C arrays as functions from the index. The extent is kept beside them, and theorems bound the
-- cells that a routine writes.
use Prim.Native.Nat.{ℕ, zero, suc, ◌+◌, ◌≤◌, ◌<◌}
use mathlib.Core.Path.{◌≡◌, refl}
use mathlib.Core.Bool.{Bool}
use native.Mathlib.Omega.{arith}
use mathlib.Core.Logic.{inl, inr}
use binsort.Base.Tests.{◌==◌, if◌then◌else◌, Bool-cases}

abbrev pub Cells {ℓ} : Type ℓ → Type ℓ
Cells A = ℕ → A

-- `a[i] = v`
abbrev pub update {ℓ} : {A : Type ℓ} → Cells A → ℕ → A → Cells A
update a i v j = if i == j then v else a j

-- Exchanges `a[i]` and `a[j]` through a temporary.
abbrev pub swap {ℓ} : {A : Type ℓ} → Cells A → ℕ → ℕ → Cells A
swap a i j = update (update a i (a j)) j (a i)

abbrev pub bit : Bool → ℕ
bit b = if b then 1 else 0

-- How many of the first `n` cells hold `v`.
pub count : Cells ℕ → ℕ → ℕ → ℕ
count a zero v = 0
count a (suc n) v = bit (a n == v) + count a n v

pub count-zero : (a : Cells ℕ) (v : ℕ) → count a 0 v ≡ 0
unfolding count
count-zero a v = refl

pub count-suc : (a : Cells ℕ) (n v : ℕ) → count a (suc n) v ≡ bit (a n == v) + count a n v
unfolding count
count-suc a n v = refl

pub count-update_above :
    (a : Cells ℕ) (n i x v : ℕ) → n ≤ i → count (update a i x) n v ≡ count a n v
unfolding count
count-update_above a zero i x v h = refl
count-update_above a (suc n) i x v h = ground (arith, count-update_above a n i x v)

-- A write trades the old value for the new one.
pub count-update :
    (a : Cells ℕ) (n i x v : ℕ)
    → i < n
    → count (update a i x) n v + bit (a i == v) ≡ count a n v + bit (x == v)
unfolding count
count-update a zero i x v h = absurd (omega arith)
count-update a (suc n) i x v h =
    ground (arith, count-update a n i x v, count-update_above a n i x v)

pub count-swap : (a : Cells ℕ) (n i j v : ℕ) → i < n → j < n → count (swap a i j) n v ≡ count a n v
count-swap a n i j v hi hj =
    ground (arith, count-update a n i (a j) v, count-update (update a i (a j)) n j (a i) v)

-- A value that a cell holds is counted, and a counted value stands in a cell.
pub mem_of_count : (a : Cells ℕ) (n i : ℕ) → i < n → 0 < count a n (a i)
unfolding count
mem_of_count a zero i h = absurd (omega arith)
mem_of_count a (suc n) i h = ground (arith, mem_of_count a n i)

pub find_of_count : (a : Cells ℕ) (n v : ℕ) → 0 < count a n v → (i : ℕ) × (i < n) × (a i ≡ v)
unfolding count
find_of_count a zero v h = absurd (omega arith)
find_of_count a (suc n) v h = elim (Bool-cases (a n == v)) [
  | inl found ↦ (n, omega arith, ground arith)
  | inr other ↦ let (i, below, e) = find_of_count a n v (ground arith) in (i, omega arith, e)
]

-- Only the first `n` cells count.
pub count-cong :
    (a b : Cells ℕ) (n v : ℕ) → ((i : ℕ) → i < n → a i ≡ b i) → count a n v ≡ count b n v
unfolding count
count-cong a b zero v h = refl
count-cong a b (suc n) v h = ground (arith, h n, count-cong a b n v (λ i lt. h i (omega arith)))
