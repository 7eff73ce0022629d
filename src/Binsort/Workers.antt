-- ===== src/Binsort/Workers.antt =====
-- The life of the worker threads: binsort_initworkers, binsort_freeworkers, binsort_init, binsort_free,
-- binsort_create and binsort_destroy of binsort.c.
-- The functions of xpthread.c are parameters, with what they are called for kept as a list of calls. `none` is what
-- C leaves undefined: a cell of `b_Workers` that is read before it is written, or a cell written with no array.
-- The memory that binsort_free gives back is left out.
pub mod Started
pub mod Ends
mod Tests
use binsort.Base.{
  ℕ, zero, suc, ◌+◌, Bool, true, false, ◌&&◌, Option, none, some, List, [], ◌∷◌, ◌++◌, Cells,
  update, if◌then◌else◌,
}
use binsort.Base.Int.{ℤ, pos, negsuc}
use binsort.Binsort.Args.{ArgItem, Settings, read_arguments}

-- The values of `binsort_error_t` that binsort_create gives.
pub data CreateError : Type 0 where
  success arguments thread_init thread_create out_of_memory : CreateError

-- A cell of `b_Workers`: what malloc left there, a null pointer, or a thread.
pub data Worker : Type 0 where
  unset null : Worker
  started : ℕ → Worker

-- The calls that end something: `abort` is the signal XPT_SIG_ABORT to a thread.
pub data Call : Type 0 where
  abort destroy_thread : ℕ → Call
  destroy_fastmutex xpthread_destroy : Call

-- What the calls find: memory, a base, a mutex, memory for the workers, and the `i`-th thread.
pub record Threads : Type 0 where
  pub memory : Bool
  pub xpthread_create : Bool
  pub createfastmutex : Bool
  pub workers_memory : Bool
  pub createthread : ℕ → Option ℕ

-- The fields of `binsort_t` that hold threads.
pub record BinSort : Type 0 where
  pub xpbase : Bool
  pub lock : Bool
  pub workers : Option (Cells Worker)
  pub num_workers : ℕ

unfoldable pub visit : (ℕ → Call) → Worker → Option (List Call) → Option (List Call)
visit call unset rest = none
visit call null rest = rest
visit call (started thread) none = none
visit call (started thread) (some calls) = some (call thread ∷ calls)

-- A loop over the `k` cells from the `i`-th on.
unfoldable pub worker_loop : (ℕ → Call) → ℕ → ℕ → Cells Worker → Option (List Call)
worker_loop call zero i workers = some []
worker_loop call (suc k) i workers = visit call (workers i) (worker_loop call k (i + 1) workers)

-- One after the other.
unfoldable pub both : Option (List Call) → Option (List Call) → Option (List Call)
both none next = none
both (some calls) none = none
both (some calls) (some more) = some (calls ++ more)

unfoldable pub free_workers : Option (Cells Worker) → ℕ → Option (List Call)
free_workers none nt = some []
free_workers (some workers) nt =
    both (worker_loop abort nt 0 workers) (worker_loop destroy_thread nt 0 workers)

-- The loop over the `k` threads from the `i`-th on, up to the first that is not created, and whether there is none.
unfoldable pub start_loop : (ℕ → Option ℕ) → ℕ → ℕ → Cells Worker → Bool × Cells Worker
start_loop create zero i workers = (true, workers)
start_loop create (suc k) i workers = elim (create i) [
  | none ↦ (false, update workers i null)
  | some thread ↦ start_loop create k (i + 1) (update workers i (started thread))
]

-- What becomes of a thread that is not created, with the calls that free the others.
unfoldable pub end_failed :
    Option (List Call) → Option (CreateError × Option (Cells Worker) × List Call)
end_failed none = none
end_failed (some calls) = some (thread_create, none, calls)

-- The error, `b_Workers`, and the calls made.
unfoldable pub end_start :
    ℕ → Bool × Cells Worker → Option (CreateError × Option (Cells Worker) × List Call)
unfolding end_failed
end_start nt (true, workers) = some (success, some workers, [])
end_start nt (false, workers) = end_failed (free_workers (some workers) nt)

-- What malloc returns is not tested: with no memory there is no cell to write.
unfoldable pub init_workers :
    Bool → (ℕ → Option ℕ) → ℕ → Option (CreateError × Option (Cells Worker) × List Call)
init_workers false create zero = some (success, none, [])
init_workers false create (suc nt) = none
init_workers true create nt = end_start nt (start_loop create nt 0 (λ i. unset))

-- A negative number of threads makes no round of a loop.
unfoldable pub rounds : ℤ → ℕ
rounds (pos n) = n
rounds (negsuc n) = 0

-- The fields when the threads have been started.
unfoldable pub init_started :
    ℕ
    → Option (CreateError × Option (Cells Worker) × List Call)
    → Option (CreateError × BinSort × List Call)
init_started nt none = none
init_started nt (some (err, workers, calls)) =
    some (err, record { xpbase = true; lock = true; workers = workers; num_workers = nt }, calls)

-- From the arguments on: the error, the fields, and the calls made.
unfoldable pub init_threads : Threads → Option Settings → Option (CreateError × BinSort × List Call)
init_threads x none =
    some (arguments, record { xpbase = false; lock = false; workers = none; num_workers = 0 }, [])
init_threads x (some settings) =
    let nt = rounds settings.num_workers in
    if x.xpthread_create && x.createfastmutex
    then init_started nt (init_workers x.workers_memory x.createthread nt)
    else some (
      thread_init,
      record { xpbase = x.xpthread_create; lock = false; workers = none; num_workers = nt },
      [],
    )

unfoldable pub init : Threads → List ArgItem → Option (CreateError × BinSort × List Call)
init x args = init_threads x (read_arguments args)

-- The threads, the mutex and the base, in this order; binsort_destroy is this and a free.
unfoldable pub free : BinSort → Option (List Call)
free b = both (free_workers b.workers b.num_workers) (
    some (
      (if b.lock then destroy_fastmutex ∷ [] else [])
      ++ (if b.xpbase then xpthread_destroy ∷ [] else [])))

-- What binsort_create makes of an error, with the calls made and those that free.
unfoldable pub end_error :
    CreateError → List Call → Option (List Call) → Option (CreateError × Option BinSort × List Call)
end_error err calls none = none
end_error err calls (some more) = some (err, none, calls ++ more)

unfoldable pub end_create :
    Option (CreateError × BinSort × List Call) → Option (CreateError × Option BinSort × List Call)
unfolding end_error
end_create none = none
end_create (some (success, b, calls)) = some (success, some b, calls)
end_create (some (err, b, calls)) = end_error err calls (free b)

-- The error, what `*B` is, and the calls made.
unfoldable pub create : Threads → List ArgItem → Option (CreateError × Option BinSort × List Call)
create x args = if x.memory then end_create (init x args) else some (out_of_memory, none, [])
