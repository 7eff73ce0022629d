-- ===== src/Main/Tests.antt =====
-- The command line at concrete arguments.
use Prim.Native.String.{String}
use text.Mathlib.Text.{◌==◌ as str_eq}
use binsort.Base.{ℕ, ◌≡◌, refl, some, List, [], ◌∷◌, if◌then◌else◌}
use binsort.Base.Int.{pos}
use binsort.Binsort.Args.{
  args_done, arg_directory, arg_quality, arg_numworkers, arg_quiet, arg_nodirs, ArgItem, Settings,
  read_arguments,
}
use binsort.Main.{usage, no_directory, bad_threads, create, main}
use binsort.Main.Accepted.{IsRunnable, main-IsRunnable}

-- The numbers that the tests need.
abbrev atoi : String → ℕ
atoi s = if str_eq s "2" then 2 else if str_eq s "40" then 40 else 0

abbrev address : String → ℕ
address s = 4096

abbrev two_workers : List ArgItem
two_workers =
    record { key = arg_directory; value = pos 4096 }
    ∷ record { key = arg_quality; value = pos 40 }
    ∷ record { key = arg_numworkers; value = pos 2 }
    ∷ record { key = arg_quiet; value = pos 1 }
    ∷ record { key = arg_nodirs; value = pos 0 }
    ∷ record { key = args_done; value = pos 0 }
    ∷ []

two_workers_given :
    main atoi address ("-t" ∷ "2" ∷ "dir" ∷ "-q" ∷ "-o" ∷ "40" ∷ []) ≡ create two_workers
unfolding main
two_workers_given = refl

main-IsRunnable_example : (st : Settings) × (read_arguments two_workers ≡ some st) × IsRunnable st
main-IsRunnable_example =
    main-IsRunnable atoi address ("-t" ∷ "2" ∷ "dir" ∷ "-q" ∷ "-o" ∷ "40" ∷ []) two_workers
      two_workers_given

one_help : main atoi address ("-t" ∷ "2" ∷ "-h" ∷ []) ≡ usage
unfolding main
one_help = refl

no_number : main atoi address ("dir" ∷ "-t" ∷ []) ≡ usage
unfolding main
no_number = refl

two_directories : main atoi address ("dir" ∷ "other" ∷ []) ≡ usage
unfolding main
two_directories = refl

only_quiet : main atoi address ("-q" ∷ "-q" ∷ []) ≡ no_directory
unfolding main
only_quiet = refl

no_threads : main atoi address ("-t" ∷ "x" ∷ "dir" ∷ []) ≡ bad_threads
unfolding main
no_threads = refl
