-- ===== src/Binsort/Workers/Tests.antt =====
-- binsort_create with three workers, and with a thread that cannot be created.
use binsort.Base.{
  ℕ, ◌+◌, ◌<◌, ◌≡◌, refl, Option, none, some, List, [], ◌∷◌, ◌==◌, if◌then◌else◌, arith,
}
use binsort.Base.Int.{pos}
use binsort.Binsort.Args.{
  ArgItem, Settings, get_tag, low_word, to_int, read_arguments, arg_directory, arg_numworkers,
  args_done,
}
use binsort.Binsort.Workers.{
  success, thread_create, abort, destroy_thread, destroy_fastmutex, xpthread_destroy, BinSort,
  create, free, rounds,
}
use binsort.Binsort.Workers.Started.{calls_to}
use binsort.Binsort.Workers.Ends.{all_ended, ready, create-free, create-fails}

abbrev three_workers : List ArgItem
three_workers =
    record { key = arg_directory; value = pos 4096 }
    ∷ record { key = arg_numworkers; value = pos 3 }
    ∷ record { key = args_done; value = pos 0 }
    ∷ []

abbrev settings : Settings
settings = record {
  directory = pos 4096;
  quality = pos 15;
  num_workers = pos 3;
  quiet = pos 0;
  no_dirs = pos 0;
}

settings_read : read_arguments three_workers ≡ some settings
unfolding read_arguments get_tag to_int low_word
settings_read = refl

-- Threads are numbered from 10 on.
abbrev thread : ℕ → ℕ
thread i = 10 + i

abbrev all_but : ℕ → ℕ → Option ℕ
all_but f i = if i == f then none else some (thread i)

two_ended :
    all_ended thread 2
    ≡ abort 10
      ∷ abort 11
      ∷ destroy_thread 10
      ∷ destroy_thread 11
      ∷ destroy_fastmutex
      ∷ xpthread_destroy
      ∷ []
unfolding calls_to
two_ended = refl

create-free_example :
    (b : BinSort) × (create (ready (λ i. some (thread i))) three_workers
      ≡ some (success, some b, []))
    × (free b ≡ some (all_ended thread 3))
unfolding rounds
create-free_example =
    create-free thread (λ i. some (thread i)) three_workers settings settings_read (λ j h. refl)

-- The last of three, then the second.
last_fails :
    (2 + 1 ≡ rounds settings.num_workers
      → create (ready (all_but 2)) three_workers ≡ some (thread_create, none, all_ended thread 2))
    × (2 + 1 < rounds settings.num_workers → create (ready (all_but 2)) three_workers ≡ none)
last_fails =
    create-fails thread (all_but 2) three_workers settings settings_read 2
      (λ j h. ground (arith, h)) refl

create-fails_example :
    (1 + 1 ≡ rounds settings.num_workers
      → create (ready (all_but 1)) three_workers ≡ some (thread_create, none, all_ended thread 1))
    × (1 + 1 < rounds settings.num_workers → create (ready (all_but 1)) three_workers ≡ none)
create-fails_example =
    create-fails thread (all_but 1) three_workers settings settings_read 1
      (λ j h. ground (arith, h)) refl
