-- ===== src/Simhash/Heap/Order.antt =====
-- The heap order, and the invariants of the two loops that restore it.
use binsort.Base.{ℕ, zero, suc, ◌≤◌, ◌<◌, ◌≡◌, ◌≢◌, ◌∙◌, Cells, count, arith}
use binsort.Simhash.Heap.{parent}

-- No value is above its parent's.
abbrev pub IsHeap : Cells ℕ → ℕ → Type 0
IsHeap a n = (c : ℕ) → 0 < c → c < n → a c ≤ a (parent c)

-- In order but for the edge from `i` to its parent.
pub record UpInv (a : Cells ℕ) (n i : ℕ) : Type 0 where
  pub inside : i < n
  pub edges : (c : ℕ) → 0 < c → c < n → c ≢ i → a c ≤ a (parent c)
  pub bridged : (c : ℕ) → 0 < c → c < n → parent c ≡ i → 0 < i → a c ≤ a (parent i)

-- In order but for the edges from `i` to its children.
pub record DownInv (a : Cells ℕ) (n i : ℕ) : Type 0 where
  pub edges : (c : ℕ) → 0 < c → c < n → parent c ≢ i → a c ≤ a (parent c)
  pub bridged : (c : ℕ) → 0 < c → c < n → parent c ≡ i → 0 < i → a c ≤ a (parent i)

-- `b` is `a` put in order: a heap of the same values, with nothing written from `n` on.
pub record Restored (a b : Cells ℕ) (n : ℕ) : Type 0 where
  pub heap : IsHeap b n
  pub same : (v : ℕ) → count b n v ≡ count a n v
  pub beyond : (j : ℕ) → n ≤ j → b j ≡ a j

root_greatest_below : (k : ℕ) (a : Cells ℕ) (n i : ℕ) → IsHeap a n → i < k → i < n → a i ≤ a 0
root_greatest_below zero a n i h f p = absurd (omega arith)
root_greatest_below (suc k) a n i h f p =
    ground (arith, h i, root_greatest_below k a n (parent i) h)

-- In a heap no value is above the root's.
pub root_greatest : (a : Cells ℕ) (n i : ℕ) → IsHeap a n → i < n → a i ≤ a 0
root_greatest a n i h p = root_greatest_below (suc i) a n i h (omega arith) p

pub Restored-trans :
    {a b c : Cells ℕ} {n : ℕ}
    → Restored b c n
    → ((v : ℕ) → count b n v ≡ count a n v)
    → ((j : ℕ) → n ≤ j → b j ≡ a j)
    → Restored a c n
Restored-trans r same beyond = record {
  heap = r.heap;
  same = λ v. r.same v ∙ same v;
  beyond = λ j h. r.beyond j h ∙ beyond j h;
}
