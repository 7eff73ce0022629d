-- ===== src/Binsort/Workers/Ends.antt =====
-- What binsort_create starts is ended by binsort_destroy, and what becomes of the threads if one cannot be
-- created.
use binsort.Base.{
  ℕ, ◌+◌, ◌<◌, ◌≡◌, refl, ap, ◌∙◌, Bool, true, false, Option, none, some, List, [], ◌∷◌, ◌++◌,
  Cells, arith,
}
use binsort.Binsort.Args.{ArgItem, Settings, read_arguments}
use binsort.Binsort.Workers.{
  CreateError, success, thread_create, Worker, unset, Call, destroy_fastmutex, xpthread_destroy,
  Threads, BinSort, both, free_workers, start_loop, end_start, init_workers, rounds, init_started,
  init_threads, init, end_failed, free, end_create, create,
}
use binsort.Binsort.Workers.Started.{
  ended, start_loop-all, start_loop-fails, free_workers-started, free_workers-null,
  free_workers-unset,
}

-- The calls at the end of all: the threads, the mutex and the base.
abbrev pub all_ended : (ℕ → ℕ) → ℕ → List Call
all_ended t n = ended t n ++ destroy_fastmutex ∷ xpthread_destroy ∷ []

-- All is there but, perhaps, the threads.
abbrev pub ready : (ℕ → Option ℕ) → Threads
ready make = record {
  memory = true;
  xpthread_create = true;
  createfastmutex = true;
  workers_memory = true;
  createthread = make;
}

abbrev with_workers : Option (Cells Worker) → ℕ → BinSort
with_workers workers n = record { xpbase = true; lock = true; workers = workers; num_workers = n }

end_start-true :
    (n : ℕ) (r : Bool × Cells Worker) → r.0 ≡ true → end_start n r ≡ some (success, some r.1, [])
unfolding end_start
end_start-true n r e = ap (λ ok. end_start n (ok, r.1)) e

end_start-false :
    (n : ℕ) (r : Bool × Cells Worker) (calls : Option (List Call))
    → r.0 ≡ false
    → free_workers (some r.1) n ≡ calls
    → end_start n r ≡ end_failed calls
unfolding end_start
end_start-false n r calls e freed = ap (λ ok. end_start n (ok, r.1)) e ∙ ap end_failed freed

module _ (t : ℕ → ℕ) (make : ℕ → Option ℕ) (args : List ArgItem) (settings : Settings)
    (accepted : read_arguments args ≡ some settings) where
  created :
      (r : Option (CreateError × Option (Cells Worker) × List Call))
      → init_workers true make (rounds settings.num_workers) ≡ r
      → create (ready make) args ≡ end_create (init_started (rounds settings.num_workers) r)
  unfolding create init init_threads
  created r e =
      ap (λ o. end_create (init_threads (ready make) o)) accepted
      ∙ ap (λ o. end_create (init_started (rounds settings.num_workers) o)) e

  -- With accepted arguments, all that is needed, and every thread created, binsort_create succeeds
  -- and ends nothing, and binsort_destroy then signals every thread once, destroys every thread once,
  -- and then the mutex and the base.
  pub create-free :
      ((j : ℕ) → j < rounds settings.num_workers → make j ≡ some (t j))
      → (b : BinSort) × (create (ready make) args ≡ some (success, some b, []))
        × (free b ≡ some (all_ended t (rounds settings.num_workers)))
  unfolding init_workers init_started end_create free both
  create-free made =
      let n = rounds settings.num_workers in
      let r = start_loop make n 0 (λ i. unset) in
      let (ok, all) =
        start_loop-all t make n 0 (λ i. unset) (λ j h. made j (omega (arith, h)))
          (λ j h. absurd (omega (arith, h))) in
      let all' = λ (j : ℕ) (h : j < n). all j (omega (arith, h)) in
      (
        with_workers (some r.1) n,
        created (some (success, some r.1, [])) (end_start-true n r ok),
        ap (λ o. both o (some (destroy_fastmutex ∷ xpthread_destroy ∷ [])))
            (free_workers-started t n r.1 all'),
      )

  -- If all is there but some thread, for the first thread that is not created: when it is the last of
  -- all, binsort_create gives the error for it, and has signalled and then destroyed the threads
  -- before it, then the mutex and the base; when it is not the last, cells of b_Workers are read that
  -- were never written.
  pub create-fails :
      (f : ℕ)
      → ((j : ℕ) → j < f → make j ≡ some (t j))
      → make f ≡ none
      → (f + 1 ≡ rounds settings.num_workers
          → create (ready make) args ≡ some (thread_create, none, all_ended t f))
        × (f + 1 < rounds settings.num_workers → create (ready make) args ≡ none)
  unfolding init_workers init_started end_create free both end_failed free_workers
  create-fails f made fails =
      let n = rounds settings.num_workers in
      let r = start_loop make n 0 (λ i. unset) in
      let broken = λ (h : f < n).
        start_loop-fails t make n 0 f (λ i. unset) (omega arith) (omega (arith, h)) made fails
          (λ j h. absurd (omega (arith, h))) (λ j h. refl) in
      (
        λ last.
            let (stopped, all, end, rest) = broken (omega (arith, last)) in
            let freed =
              ap (free_workers (some r.1)) (omega (arith, last))
              ∙ free_workers-null t f r.1 all end in
            created (some (thread_create, none, ended t f))
              (end_start-false n r (some (ended t f)) stopped freed),
        λ more.
            let (stopped, all, end, rest) = broken (omega (arith, more)) in
            created none (
              end_start-false n r none stopped
                (free_workers-unset n (f + 1) r.1 more (rest (f + 1) (omega arith)))),
      )
