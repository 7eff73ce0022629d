-- ===== src/Simhash/Heap.antt =====
-- The binary max-heap of simhash.c (heap_reset to heap_insert), which holds the features kept so
-- far. `Heap` is the part of `struct simhash_global` that these functions touch.
-- `none` is a failed `assert`. The temporaries are `int`s there; a value goes through one unchanged.
pub mod Order
pub mod Up
pub mod Down
pub mod Ops
pub mod Drain
use binsort.Base.{
  ℕ, zero, suc, ◌+◌, ◌-◌, ◌*◌, ◌/◌, Bool, true, false, ◌&&◌, Option, none, some, Cells, update,
  swap, ltb, leb, ◌==◌, if◌then◌else◌,
}

pub record Heap : Type 0 where
  pub heap : Cells ℕ
  pub nheap : ℕ
  pub maxheap : ℕ

-- `mem` is what `malloc` returns: no memory, or an array with whatever it happens to hold.
unfoldable pub heap_reset : Option (Cells ℕ) → ℕ → Option Heap
heap_reset none size = none
heap_reset (some mem) size = some (record { heap = mem; nheap = 0; maxheap = size })

abbrev pub parent : ℕ → ℕ
parent c = (c - 1) / 2

-- The loop of `downheap`, on fuel: `i` at least doubles in each round.
pub down_loop : ℕ → Cells ℕ → ℕ → ℕ → Cells ℕ
down_loop zero a n i = a
down_loop (suc k) a n i =
    let left = 2 * i + 1 in
    let right = left + 1 in
    let go_left = down_loop k (swap a left i) n left in
    let go_right = down_loop k (swap a right i) n right in
    if leb n left
    then a
    else if leb n right
    then (if ltb (a i) (a left) then swap a left i else a)
    else if leb (a left) (a i) && leb (a right) (a i)
    then a
    else if ltb (a right) (a left)
    then go_left
    else go_right

pub downheap : Heap → Heap
downheap h = record h { heap = down_loop (h.nheap + 1) h.heap h.nheap 0 }

pub heap_extract_max : Heap → Option (ℕ × Heap)
heap_extract_max h =
    if ltb 0 h.nheap
    then some (
      h.heap 0,
      downheap (record h { heap = update h.heap 0 (h.heap (h.nheap - 1)); nheap = h.nheap - 1 }),
    )
    else none

-- The loop of `upheap`, on fuel: `i` at least halves in each round.
pub up_loop : ℕ → Cells ℕ → ℕ → Cells ℕ
up_loop zero a i = a
up_loop (suc k) a i =
    let rest = up_loop k (swap a (parent i) i) (parent i) in
    if ltb 0 i then (if leb (a i) (a (parent i)) then a else rest) else a

pub upheap : Heap → Option Heap
upheap h =
    if ltb 0 h.nheap then some (record h { heap = up_loop h.nheap h.heap (h.nheap - 1) }) else none

pub heap_insert : Heap → ℕ → Option Heap
heap_insert h v =
    if ltb h.nheap h.maxheap
    then upheap (record h { heap = update h.heap h.nheap v; nheap = h.nheap + 1 })
    else none

-- The loop of `get_hashinfo`, `while (sh->nheap > 0) crcs[i++] = heap_extract_max(sh);`, on fuel:
-- each round takes one value out.
pub drain_loop : ℕ → Heap → Cells ℕ → ℕ → Option (Cells ℕ × Heap)
drain_loop zero h crcs i = if ltb 0 h.nheap then none else some (crcs, h)
drain_loop (suc k) h crcs i =
    if ltb 0 h.nheap
    then elim (heap_extract_max h) [
      | none ↦ none
      | some (m, h') ↦ drain_loop k h' (update crcs i m) (i + 1)
    ]
    else some (crcs, h)

unfoldable pub heap_drain : Heap → Cells ℕ → Option (Cells ℕ × Heap)
unfolding drain_loop heap_extract_max downheap down_loop
heap_drain h crcs = drain_loop h.nheap h crcs 0
