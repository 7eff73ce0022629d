-- ===== src/Binsort/Workers/Started.antt =====
-- The loops of binsort_initworkers and binsort_freeworkers on threads that are all created, or up to one that is not.
use native.Mathlib.Decide.{ℕ_discrete}
use binsort.Base.{
  ℕ, zero, suc, ◌+◌, ◌<◌, ◌≤◌, ◌≡◌, refl, ap, ◌∙◌, Bool, true, false, Option, none, some, List, [],
  ◌∷◌, ◌++◌, Cells, update, arith,
}
use binsort.Binsort.Workers.{
  Worker, unset, null, started, Call, abort, destroy_thread, visit, worker_loop, both, free_workers,
  start_loop,
}

-- The calls for `k` threads, from the `i`-th on.
unfoldable pub calls_to : (ℕ → Call) → (ℕ → ℕ) → ℕ → ℕ → List Call
calls_to call t i zero = []
calls_to call t i (suc k) = call (t i) ∷ calls_to call t (i + 1) k

-- All of the first `n` threads are signalled, and then all are destroyed.
abbrev pub ended : (ℕ → ℕ) → ℕ → List Call
ended t n = calls_to abort t 0 n ++ calls_to destroy_thread t 0 n

abbrev pub AllStarted : (ℕ → ℕ) → ℕ → Cells Worker → Type 0
AllStarted t n workers = (j : ℕ) → j < n → workers j ≡ started (t j)

abbrev pub AllUnset : ℕ → Cells Worker → Type 0
AllUnset n workers = (j : ℕ) → n ≤ j → workers j ≡ unset

visit-started :
    (call : ℕ → Call) (w : Worker) (t : ℕ) (calls : List Call)
    → w ≡ started t
    → visit call w (some calls) ≡ some (call t ∷ calls)
unfolding visit
visit-started call w t calls e = ap (λ v. visit call v (some calls)) e

visit-none : (call : ℕ → Call) (w : Worker) → visit call w none ≡ none
unfolding visit
visit-none call unset = refl
visit-none call null = refl
visit-none call (started t) = refl

worker_loop-started :
    (call : ℕ → Call) (t : ℕ → ℕ) (workers : Cells Worker) (k i : ℕ)
    → AllStarted t (i + k) workers
    → worker_loop call k i workers ≡ some (calls_to call t i k)
unfolding worker_loop calls_to
worker_loop-started call t workers zero i all = refl
worker_loop-started call t workers (suc k) i all =
    rw (worker_loop-started call t workers k (i + 1) (λ j h. all j (omega (arith, h))))
      (visit-started call (workers i) (t i) (calls_to call t (i + 1) k) (all i (omega arith)))

-- Before a null pointer at the end.
worker_loop-null :
    (call : ℕ → Call) (t : ℕ → ℕ) (workers : Cells Worker) (k i n : ℕ)
    → i + k ≡ n
    → AllStarted t n workers
    → workers n ≡ null
    → worker_loop call (suc k) i workers ≡ some (calls_to call t i k)
unfolding worker_loop calls_to visit
worker_loop-null call t workers zero i n at all e =
    ap (λ v. visit call v (some [])) (ap workers (omega (arith, at)) ∙ e)
worker_loop-null call t workers (suc k) i n at all e =
    rw (worker_loop-null call t workers k (i + 1) n (omega (arith, at)) all e)
      (visit-started call (workers i) (t i) (calls_to call t (i + 1) k) (all i (omega (arith, at))))

-- At a cell that is read before it is written.
worker_loop-unset :
    (call : ℕ → Call) (workers : Cells Worker) (k i j : ℕ)
    → i ≤ j
    → j < i + k
    → workers j ≡ unset
    → worker_loop call k i workers ≡ none
unfolding worker_loop visit
worker_loop-unset call workers zero i j low high e = absurd (omega (arith, low, high))
worker_loop-unset call workers (suc k) i j low high e = elim (ℕ_discrete i j) [
  | yes same ↦ ap (λ v. visit call v (worker_loop call k (i + 1) workers)) (ap workers same ∙ e)
  | no other ↦
      rw
        (worker_loop-unset call workers k (i + 1) j (omega (arith, low, other))
          (omega (arith, high)) e)
        (visit-none call (workers i))
]

start_loop-some :
    (make : ℕ → Option ℕ) (k i thread : ℕ) (workers : Cells Worker)
    → make i ≡ some thread
    → start_loop make (suc k) i workers
      ≡ start_loop make k (i + 1) (update workers i (started thread))
unfolding start_loop
start_loop-some make k i thread workers e =
    ap
      (λ o. elim o as (λ x. Bool × Cells Worker) [
        | none ↦ (false, update workers i null)
        | some thread ↦ start_loop make k (i + 1) (update workers i (started thread))
      ])
      e

start_loop-none :
    (make : ℕ → Option ℕ) (k i : ℕ) (workers : Cells Worker)
    → make i ≡ none
    → start_loop make (suc k) i workers ≡ (false, update workers i null)
unfolding start_loop
start_loop-none make k i workers e =
    ap
      (λ o. elim o as (λ x. Bool × Cells Worker) [
        | none ↦ (false, update workers i null)
        | some thread ↦ start_loop make k (i + 1) (update workers i (started thread))
      ])
      e

AllStarted-next :
    (t : ℕ → ℕ) (i : ℕ) (workers : Cells Worker)
    → AllStarted t i workers
    → AllStarted t (i + 1) (update workers i (started (t i)))
AllStarted-next t i workers all j h = elim (ℕ_discrete i j) [
  | yes same ↦ ground (arith, same)
  | no other ↦ ground (arith, all j (omega (arith, h, other)), other)
]

module _ (t : ℕ → ℕ) (make : ℕ → Option ℕ) where
  pub start_loop-all :
      (k i : ℕ) (workers : Cells Worker)
      → ((j : ℕ) → j < i + k → make j ≡ some (t j))
      → AllStarted t i workers
      → ((start_loop make k i workers).0 ≡ true)
        × AllStarted t (i + k) (start_loop make k i workers).1
  unfolding start_loop
  start_loop-all zero i workers made all = (refl, λ j h. all j (omega (arith, h)))
  start_loop-all (suc k) i workers made all =
      let next = start_loop-some make k i (t i) workers (made i (omega arith)) in
      let (ok, rest) =
        start_loop-all k (i + 1) (update workers i (started (t i)))
          (λ j h. made j (omega (arith, h))) (AllStarted-next t i workers all) in
      rw next (ok, λ j h. rest j (omega (arith, h)))

  -- Up to the first thread that is not created, behind which nothing is written.
  pub start_loop-fails :
      (k i f : ℕ) (workers : Cells Worker)
      → i ≤ f
      → f < i + k
      → ((j : ℕ) → j < f → make j ≡ some (t j))
      → make f ≡ none
      → AllStarted t i workers
      → AllUnset i workers
      → let r = start_loop make k i workers in
        (r.0 ≡ false) × AllStarted t f r.1 × (r.1 f ≡ null) × AllUnset (f + 1) r.1
  unfolding start_loop
  start_loop-fails zero i f workers low high made fails all rest = absurd (omega (arith, low, high))
  start_loop-fails (suc k) i f workers low high made fails all rest = elim (ℕ_discrete i f) [
    | yes same ↦ rw (start_loop-none make k i workers (ap make same ∙ fails)) (
      refl,
      λ j h. ground (arith, all j (omega (arith, h, same)), same, h),
      ground (arith, same),
      λ j h. ground (arith, rest j (omega (arith, h, same)), same, h),
    )
    | no other ↦ rw (start_loop-some make k i (t i) workers (made i (omega (arith, low, other)))) (
        start_loop-fails k (i + 1) f (update workers i (started (t i))) (omega (arith, low, other))
          (omega (arith, high)) made fails (AllStarted-next t i workers all)
          (λ j h. ground (arith, h, rest j (omega (arith, h)))))
  ]

pub free_workers-started :
    (t : ℕ → ℕ) (n : ℕ) (workers : Cells Worker)
    → AllStarted t n workers
    → free_workers (some workers) n ≡ some (ended t n)
unfolding free_workers both
free_workers-started t n workers all =
    rw (worker_loop-started abort t workers n 0 (λ j h. all j (omega (arith, h))))
      (rw (worker_loop-started destroy_thread t workers n 0 (λ j h. all j (omega (arith, h)))) refl)

pub free_workers-null :
    (t : ℕ → ℕ) (n : ℕ) (workers : Cells Worker)
    → AllStarted t n workers
    → workers n ≡ null
    → free_workers (some workers) (suc n) ≡ some (ended t n)
unfolding free_workers both
free_workers-null t n workers all e =
    rw (worker_loop-null abort t workers n 0 n (omega arith) all e)
      (rw (worker_loop-null destroy_thread t workers n 0 n (omega arith) all e) refl)

pub free_workers-unset :
    (n j : ℕ) (workers : Cells Worker)
    → j < n
    → workers j ≡ unset
    → free_workers (some workers) n ≡ none
unfolding free_workers both
free_workers-unset n j workers h e =
    rw (worker_loop-unset abort workers n 0 j (omega arith) (omega (arith, h)) e) refl
