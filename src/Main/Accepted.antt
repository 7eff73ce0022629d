-- ===== src/Main/Accepted.antt =====
-- What main gives to binsort_create.
use Prim.Native.String.{String}
use binsort.Base.{
  ℕ, ◌≤◌, ◌≡◌, refl, sym, ap, ◌∙◌, inl, inr, ◌&&◌, Option, none, some, List, leb, ◌==◌,
  if◌then◌else◌, Bool-cases, arith,
}
use binsort.Base.Int.{pos}
use binsort.Binsort.Args.{ArgItem, get_tag, Settings, to_int, read_arguments}
use binsort.Binsort.Args.Tag.{to_int_same}
use binsort.Main.{Parse, Outcome, usage, create, items, check_args, parseargs, argp, defaults, main}

-- Settings that are in range.
pub record IsRunnable (s : Settings) : Type 0 where
  pub quality : ℕ
  pub workers : ℕ
  pub at_quality : s.quality ≡ pos quality
  pub at_workers : s.num_workers ≡ pos workers
  pub some_quality : 1 ≤ quality
  pub some_worker : 1 ≤ workers
  pub enough_workers : workers ≤ 128

create-injective : {args args' : List ArgItem} → create args ≡ create args' → args ≡ args'
create-injective e = cc

-- What binsort_init reads from the arguments of main.
abbrev settings : ℕ → Parse → Settings
settings address s = record {
  directory = pos address;
  quality = pos (s.numbers 1);
  num_workers = pos (s.numbers 2);
  quiet = to_int (pos (s.numbers 3));
  no_dirs = to_int (pos (s.numbers 4));
}

check_args-IsRunnable :
    (address : ℕ) (s : Parse) (args : List ArgItem)
    → check_args address s ≡ create args
    → (st : Settings) × (read_arguments args ≡ some st) × IsRunnable st
unfolding check_args items read_arguments get_tag
check_args-IsRunnable address s args e = elim (Bool-cases (address == 0)) [
  | inl null ↦ let refused = rw null at e in absurd cc
  | inr dir ↦ elim (Bool-cases (leb 1 (s.numbers 1) && leb (s.numbers 1) 2147483647)) [
    | inr bad ↦ let refused = rw (dir, bad) at e in absurd cc
    | inl quality ↦ elim (Bool-cases (leb 1 (s.numbers 2) && leb (s.numbers 2) 128)) [
      | inr bad ↦ let refused = rw (dir, quality, bad) at e in absurd cc
      | inl workers ↦
          let made : items address s ≡ args = create-injective (rw (dir, quality, workers) at e) in
          let same = to_int_same (s.numbers 1) (ground arith) in
          let same' = to_int_same (s.numbers 2) (ground arith) in
          let accepted : read_arguments (items address s) ≡ some (settings address s) =
            rw (same, same', dir, quality, workers) refl in
          (
            settings address s,
            ap read_arguments (sym made) ∙ accepted,
            record {
              quality = s.numbers 1;
              workers = s.numbers 2;
              at_quality = refl;
              at_workers = refl;
              some_quality = ground arith;
              some_worker = ground arith;
              enough_workers = ground arith;
            },
          )
    ]
  ]
]

-- Whatever the arguments are, those with which main comes to binsort_create are accepted, and they ask
-- for a quality of at least 1 and for 1 to 128 workers.
pub main-IsRunnable :
    (atoi address : String → ℕ) (argv : List String) (args : List ArgItem)
    → main atoi address argv ≡ create args
    → (st : Settings) × (read_arguments args ≡ some st) × IsRunnable st
unfolding main
main-IsRunnable atoi address argv args e = by_parse (parseargs atoi argp argv defaults) e
  where
    outcome : Option Parse → Outcome
    outcome p = elim p [
      | none ↦ usage
      | some s ↦
          if s.numbers 5 == 0
          then check_args (elim (s.texts 0) [ none ↦ 0 | some dir ↦ address dir ]) s
          else usage
    ]

    by_parse :
        (p : Option Parse)
        → outcome p ≡ create args
        → (st : Settings) × (read_arguments args ≡ some st) × IsRunnable st
    by_parse none e = absurd (cc)
    by_parse (some s) e = elim (Bool-cases (s.numbers 5 == 0)) [
      | inr help ↦ let refused = rw help at e in absurd cc
      | inl run ↦ check_args-IsRunnable _ s args (rw run at e)
    ]
