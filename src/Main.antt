-- ===== src/Main.antt =====
-- main.c: the command line.
-- `argp` is a list of options, and what its pointers point to has numbers: 0 to 4 for the values of `args`, 5 for
-- `help`. The words there are of 64 bits with the lowest byte first, so that an `int` is written to their lower
-- half. `atoi`, and the address of a text, are parameters. What is printed is told apart, not printed.
pub mod Accepted
mod Tests
use Prim.Native.String.{String}
use text.Mathlib.Text.{◌==◌ as str_eq}
use binsort.Base.{
  ℕ, zero, suc, ◌+◌, ◌*◌, ◌/◌, ◌%◌, ◌^◌, Bool, true, false, not, ◌&&◌, ◌||◌, Option, none, some,
  List, [], ◌∷◌, Cells, update, leb, ◌==◌, if◌then◌else◌,
}
use binsort.Base.Int.{ℤ, pos}
use binsort.Binsort.Args.{
  ArgItem, args_done, arg_directory, arg_quality, arg_numworkers, arg_quiet, arg_nodirs,
}

-- The first character of `key`: 's', 'n' or 'b'.
pub data Kind : Type 0 where
  plain number flag : Kind

-- `arg_t`, without `val`: the kind and the name in `key`, and `ptr`.
pub record Arg : Type 0 where
  pub kind : Kind
  pub name : String
  pub ptr : ℕ

-- The variables of parseargs. `given j` is whether `args[j].val` is set, `numbers` and `texts` are what is pointed
-- to, `waiting` is `n` if `wait` is 'n', and `last` is `k`.
pub record Parse : Type 0 where
  pub given : Cells Bool
  pub numbers : Cells ℕ
  pub texts : Cells (Option String)
  pub waiting : Option (ℕ × Arg)
  pub last : Option (ℕ × Arg)

-- `*((int *) ptr) = v`
unfoldable pub write_int : ℕ → ℕ → ℕ
write_int word v = word / 2 ^ 32 * 2 ^ 32 + v % 2 ^ 32

-- The inner loop of parseargs: the option found, and `k`.
unfoldable pub find_arg :
    String → List Arg → ℕ → Cells Bool → Option (ℕ × Arg) → Option (ℕ × Arg) × Option (ℕ × Arg)
find_arg arg [] j given k = (none, k)
find_arg arg (a ∷ args) j given k =
    let named = not (str_eq a.name "") in
    let rest = find_arg arg args (j + 1) given (if given j || named then k else some (j, a)) in
    if not (given j) && named && str_eq arg a.name then (some (j, a), k) else rest

unfoldable pub take_option : ℕ → Arg → Kind → Parse → Parse
unfolding write_int
take_option j a plain s = s
take_option j a number s = record s { waiting = some (j, a) }
take_option j a flag s = record s {
  numbers = update s.numbers a.ptr (write_int (s.numbers a.ptr) 1);
}

unfoldable pub take_number : ℕ → ℕ → Arg → Parse → Parse
unfolding write_int
take_number v j a s = record s {
  given = update s.given j true;
  numbers = update s.numbers a.ptr (write_int (s.numbers a.ptr) v);
  waiting = none;
}

-- An argument that is no option is the text that is not given yet.
unfoldable pub take_text : String → Option (ℕ × Arg) → Parse → Option Parse
take_text arg none s = none
take_text arg (some (j, a)) s =
    if s.given j
    then none
    else some (record s { given = update s.given j true; texts = update s.texts a.ptr (some arg) })

unfoldable pub take_arg : String → Option (ℕ × Arg) → Parse → Option Parse
unfolding take_option take_text
take_arg arg none s = take_text arg s.last s
take_arg arg (some (j, a)) s = some (take_option j a a.kind s)

-- One round of the outer loop; `none` is `return 0`.
unfoldable pub parse_one :
    (String → ℕ) → List Arg → String → Option (ℕ × Arg) → Parse → Option Parse
unfolding find_arg take_number take_arg
parse_one atoi args arg (some (j, a)) s = some (take_number (atoi arg) j a s)
parse_one atoi args arg none s =
    let (found, k) = find_arg arg args 0 s.given s.last in
    take_arg arg found (record s { last = k })

unfoldable pub parseargs : (String → ℕ) → List Arg → List String → Parse → Option Parse
unfolding parse_one
parseargs atoi args [] s = elim s.waiting [ none ↦ some s | some n ↦ none ]
parseargs atoi args (arg ∷ argv) s = elim (parse_one atoi args arg s.waiting s) [
  | none ↦ none
  | some s' ↦ parseargs atoi args argv s'
]

-- `argp` as main sets it.
abbrev pub argp : List Arg
argp =
    record { kind = plain; name = ""; ptr = 0 }
    ∷ record { kind = number; name = "-o"; ptr = 1 }
    ∷ record { kind = number; name = "-t"; ptr = 2 }
    ∷ record { kind = flag; name = "-q"; ptr = 3 }
    ∷ record { kind = flag; name = "-d"; ptr = 4 }
    ∷ record { kind = flag; name = "-h"; ptr = 5 }
    ∷ record { kind = flag; name = "--help"; ptr = 5 }
    ∷ []

-- `args` and `help` as main sets them.
abbrev pub defaults : Parse
defaults = record {
  given = λ j. false;
  numbers = update (update (λ i. 0) 1 15) 2 3;
  texts = λ i. none;
  waiting = none;
  last = none;
}

-- What main comes to: the usage, a complaint, or binsort_create with these arguments.
pub data Outcome : Type 0 where
  usage no_directory bad_quality bad_threads : Outcome
  create : List ArgItem → Outcome

-- `args` for a directory at an address.
unfoldable pub items : ℕ → Parse → List ArgItem
items address s =
    record { key = arg_directory; value = pos address }
    ∷ record { key = arg_quality; value = pos (s.numbers 1) }
    ∷ record { key = arg_numworkers; value = pos (s.numbers 2) }
    ∷ record { key = arg_quiet; value = pos (s.numbers 3) }
    ∷ record { key = arg_nodirs; value = pos (s.numbers 4) }
    ∷ record { key = args_done; value = pos 0 }
    ∷ []

-- The checks of main, for the address of the directory or the null pointer.
unfoldable pub check_args : ℕ → Parse → Outcome
unfolding items
check_args address s =
    if address == 0
    then no_directory
    else if leb 1 (s.numbers 1) && leb (s.numbers 1) 2147483647
    then if leb 1 (s.numbers 2) && leb (s.numbers 2) 128
      then create (items address s)
      else bad_threads
    else bad_quality

-- main up to binsort_create, for the arguments behind the program's name.
unfoldable pub main : (String → ℕ) → (String → ℕ) → List String → Outcome
unfolding parseargs check_args
main atoi address argv = elim (parseargs atoi argp argv defaults) [
  | none ↦ usage
  | some s ↦
      if s.numbers 5 == 0
      then check_args (elim (s.texts 0) [ none ↦ 0 | some dir ↦ address dir ]) s
      else usage
]
