-- ===== src/Binsort/Args/Tag.antt =====
-- What read_arguments accepts.
use binsort.Base.{
  ℕ, ◌+◌, ◌*◌, ◌/◌, ◌^◌, ◌≤◌, ◌<◌, ltb, ◌≡◌, ◌≢◌, refl, ◌∙◌, sym, ap, ◌⊎◌, inl, inr, true, false,
  some, List, [], ◌∷◌, ◌==◌, Bool-cases, arith,
}
use mathlib.Core.Option.{some-injective}
use binsort.Base.Int.{ℤ, pos, negsuc, pos_part, ◌+ℤ◌}
use binsort.Binsort.Args.{
  args_done, arg_directory, arg_quality, arg_numworkers, arg_quiet, arg_nodirs, ArgItem, get_tag,
  Settings, is_null, in_range, low_word, to_int, read_arguments,
}

-- The arguments have the value for the tag, whatever the default.
abbrev pub Gives : List ArgItem → ℕ → ℤ → Type 0
Gives args tag v = (d : ℤ) → get_tag args tag d ≡ v

-- The arguments have no value for the tag.
abbrev pub Lacks : List ArgItem → ℕ → Type 0
Lacks args tag = (d : ℤ) → get_tag args tag d ≡ d

-- GetTag gives a value that does not depend on the default, or always the default.
pub get_tag_cases : (args : List ArgItem) (tag : ℕ) → ((v : ℤ) × Gives args tag v) ⊎ Lacks args tag
unfolding get_tag
get_tag_cases [] tag = inr (λ d. refl)
get_tag_cases (item ∷ items) tag = elim (Bool-cases (item.key == args_done)) [
  | inl done ↦ rw done (inr (λ d. refl))
  | inr more ↦ elim (Bool-cases (tag == item.key)) [
    | inl here ↦ rw (more, here) (inl (item.value, λ d. refl))
    | inr elsewhere ↦ rw (more, elsewhere) (get_tag_cases items tag)
  ]
]

-- Items before the end of the list with other keys do not matter, and the first with the key gives
-- the value.
pub get_tag_first :
    (item : ArgItem) (items : List ArgItem) (tag : ℕ) (d : ℤ)
    → item.key ≢ args_done
    → (item.key ≡ tag → get_tag (item ∷ items) tag d ≡ item.value)
      × (item.key ≢ tag → get_tag (item ∷ items) tag d ≡ get_tag items tag d)
unfolding get_tag
get_tag_first item items tag d ne = (λ e. ground arith, λ n. ground arith)

-- `i` is `v` but for a multiple of 2 ^ 32.
abbrev pub IsCongruent : ℤ → ℕ → Type 0
IsCongruent v i = (k : ℕ) × ((v ≡ pos (i + k * 2 ^ 32)) ⊎ (v +ℤ pos (k * 2 ^ 32) ≡ pos i))

-- A field of type `int` holds a number from 1 to `top` that is `v` but for a multiple of 2 ^ 32.
abbrev pub Holds : ℤ → ℕ → ℤ → Type 0
Holds field top v = (i : ℕ) × (field ≡ pos i) × (1 ≤ i) × (i ≤ top) × IsCongruent v i

-- What accepted arguments say.
pub record IsAccepted (args : List ArgItem) (s : Settings) : Type 0 where
  pub directory : Gives args arg_directory s.directory × (is_null s.directory ≡ false)
  pub quality : (v : ℤ) → Gives args arg_quality v → Holds s.quality 2147483647 v
  pub no_quality : Lacks args arg_quality → s.quality ≡ pos 15
  pub given : (v : ℤ) → Gives args arg_numworkers v → Holds s.num_workers 128 v
  pub lacking : Lacks args arg_numworkers → s.num_workers ≡ pos 0

-- Arguments with a directory, and a quality and a number of workers that fit.
pub record IsAcceptable (args : List ArgItem) : Type 0 where
  pub directory : (d : ℤ) × Gives args arg_directory d × (is_null d ≡ false)
  pub quality :
      (v : ℤ) → Gives args arg_quality v → (i : ℕ) × (1 ≤ i) × (i ≤ 2147483647) × IsCongruent v i
  pub workers :
      (v : ℤ) → Gives args arg_numworkers v → (i : ℕ) × (1 ≤ i) × (i ≤ 128) × IsCongruent v i

low_word-IsCongruent : (v : ℤ) → IsCongruent v (low_word v)
unfolding low_word ◌+ℤ◌
low_word-IsCongruent (pos n) = (n / 2 ^ 32, inl (ap pos (omega arith)))
low_word-IsCongruent (negsuc n) = (n / 2 ^ 32 + 1, inr (ground arith))

low_word_unique : (v : ℤ) (i : ℕ) → i < 2 ^ 32 → IsCongruent v i → low_word v ≡ i
unfolding low_word ◌+ℤ◌
low_word_unique (pos n) i small (k, inl e) =
    let same : n ≡ i + k * 2 ^ 32 = ap pos_part e in omega (arith, same)
low_word_unique (pos n) i small (k, inr e) =
    let same : n + k * 2 ^ 32 ≡ i = ground (arith, e) in omega (arith, same)
low_word_unique (negsuc n) i small (k, inl e) = absurd (cc e)
low_word_unique (negsuc n) i small (k, inr e) =
    let same : n + 1 + i ≡ k * 2 ^ 32 = ground (arith, e) in omega (arith, same)

-- A number in range after the conversion is the lower word.
to_int-Holds :
    (v : ℤ) (top : ℕ) → top ≤ 2147483647 → in_range top (to_int v) ≡ true → Holds (to_int v) top v
unfolding to_int
to_int-Holds v top small h = elim (Bool-cases (ltb (low_word v) (2 ^ 31))) [
  | inl low ↦
      let range : in_range top (pos (low_word v)) ≡ true = rw low at h in
      (
        low_word v,
        rw low refl,
        ground (arith, range),
        ground (arith, range),
        low_word-IsCongruent v,
      )
  | inr high ↦ absurd (cc (rw high at h))
]

to_int-in_range :
    (v : ℤ) (i top : ℕ)
    → 1 ≤ i
    → i ≤ top
    → top ≤ 2147483647
    → IsCongruent v i
    → in_range top (to_int v) ≡ true
unfolding to_int
to_int-in_range v i top one small fits c =
    let low : ltb i (2 ^ 31) ≡ true = ground (arith, small, fits) in
    rw (low_word_unique v i (omega (arith, small, fits)) c, low) (ground (arith, one, small))

-- A number that an `int` has is kept.
pub to_int_same : (n : ℕ) → n ≤ 2147483647 → to_int (pos n) ≡ pos n
unfolding to_int
to_int_same n h =
    let low : ltb n (2 ^ 31) ≡ true = ground (arith, h) in
    rw (low_word_unique (pos n) n (omega (arith, h)) (0, inl (ap pos (omega arith))), low) refl

-- What is set from a value, or from the default.
quality-Holds :
    (args : List ArgItem)
    → in_range 2147483647 (to_int (get_tag args arg_quality (pos 15))) ≡ true
    → (v : ℤ) → Gives args arg_quality v
    → Holds (to_int (get_tag args arg_quality (pos 15))) 2147483647 v
quality-Holds args h v g =
    rw (g (pos 15)) (to_int-Holds v 2147483647 (omega arith) (rw (g (pos 15)) at h))

workers-Holds :
    (args : List ArgItem)
    → in_range 128 (to_int (get_tag args arg_numworkers (pos 3))) ≡ true
    → (v : ℤ) → Gives args arg_numworkers v
    → Holds (to_int (get_tag args arg_numworkers (pos 0))) 128 v
workers-Holds args h v g = rw (g (pos 0)) (to_int-Holds v 128 (omega arith) (rw (g (pos 3)) at h))

-- A pointer that is not null, whatever the default, is no default.
directory-Gives :
    (args : List ArgItem)
    → is_null (get_tag args arg_directory (pos 0)) ≡ false
    → Gives args arg_directory (get_tag args arg_directory (pos 0))
directory-Gives args h = elim (get_tag_cases args arg_directory) [
  | inl (v, g) ↦ λ d. g d ∙ sym (g (pos 0))
  | inr l ↦ absurd (cc (rw (l (pos 0)) at h))
]

-- What the arguments are set to once they are accepted.
abbrev settings_of : List ArgItem → Settings
settings_of args = record {
  directory = get_tag args arg_directory (pos 0);
  quality = to_int (get_tag args arg_quality (pos 15));
  num_workers = to_int (get_tag args arg_numworkers (pos 0));
  quiet = to_int (get_tag args arg_quiet (pos 0));
  no_dirs = to_int (get_tag args arg_nodirs (pos 0));
}

settings_of-IsAccepted :
    (args : List ArgItem)
    → is_null (get_tag args arg_directory (pos 0)) ≡ false
    → in_range 2147483647 (to_int (get_tag args arg_quality (pos 15))) ≡ true
    → in_range 128 (to_int (get_tag args arg_numworkers (pos 3))) ≡ true
    → IsAccepted args (settings_of args)
unfolding to_int low_word
settings_of-IsAccepted args dir quality count = record {
  directory = (directory-Gives args dir, dir);
  quality = quality-Holds args quality;
  no_quality = λ l. ap to_int (l (pos 15));
  given = workers-Holds args count;
  lacking = λ l. ap to_int (l (pos 0));
}

IsAccepted-settings :
    (args : List ArgItem) (s : Settings) → read_arguments args ≡ some s → IsAccepted args s
unfolding read_arguments
IsAccepted-settings [] s e = absurd cc
IsAccepted-settings (item ∷ items) s e =
    let args = item ∷ items in
    let workers = to_int (get_tag args arg_numworkers (pos 3)) in
    let asked = to_int (get_tag args arg_quality (pos 15)) in
    elim (Bool-cases (is_null (get_tag args arg_directory (pos 0)))) [
      | inl null ↦ let refused = rw null at e in absurd cc
      | inr dir ↦ elim (Bool-cases (in_range 2147483647 asked)) [
        | inr bad ↦ let refused = rw (dir, bad) at e in absurd cc
        | inl quality ↦ elim (Bool-cases (in_range 128 workers)) [
          | inr bad ↦ let refused = rw (dir, quality, bad) at e in absurd cc
          | inl count ↦
              let made = some-injective (settings_of args) s (rw (dir, quality, count) at e) in
              rw made at (settings_of-IsAccepted args dir quality count)
        ]
      ]
    ]

quality_fits :
    (args : List ArgItem)
    → IsAcceptable args
    → in_range 2147483647 (to_int (get_tag args arg_quality (pos 15))) ≡ true
unfolding to_int low_word
quality_fits args a = elim (get_tag_cases args arg_quality) [
  | inl (v, g) ↦
      let (i, one, small, c) = a.quality v g in
      rw (g (pos 15)) (to_int-in_range v i 2147483647 one small (omega arith) c)
  | inr l ↦ rw (l (pos 15)) refl
]

workers_fit :
    (args : List ArgItem)
    → IsAcceptable args
    → in_range 128 (to_int (get_tag args arg_numworkers (pos 3))) ≡ true
unfolding to_int low_word
workers_fit args a = elim (get_tag_cases args arg_numworkers) [
  | inl (v, g) ↦
      let (i, one, small, c) = a.workers v g in
      rw (g (pos 3)) (to_int-in_range v i 128 one small (omega arith) c)
  | inr l ↦ rw (l (pos 3)) refl
]

acceptable :
    (args : List ArgItem) → IsAcceptable args → read_arguments args ≡ some (settings_of args)
unfolding read_arguments get_tag
acceptable [] a = let (d, g, dir) = a.directory in absurd (cc (ap is_null (g (pos 0)), dir))
acceptable (item ∷ items) a =
    let args = item ∷ items in
    let (d, g, dir) = a.directory in
    let some_directory : is_null (get_tag args arg_directory (pos 0)) ≡ false =
      ap is_null (g (pos 0)) ∙ dir in
    rw (some_directory, quality_fits args a, workers_fit args a) refl

-- Accepted arguments give a directory that is not null; the quality is a number from 1 to 2147483647
-- that is the value given but for a multiple of 2 ^ 32, or 15 if none is given; and the number of
-- workers is one from 1 to 128 that is the value given but for a multiple of 2 ^ 32, or 0 if none is
-- given. All arguments with such a directory, and for which there are such numbers, are accepted.
pub read_arguments-IsAccepted :
    (args : List ArgItem)
    → ((s : Settings) → read_arguments args ≡ some s → IsAccepted args s)
      × (IsAcceptable args → (s : Settings) × (read_arguments args ≡ some s))
read_arguments-IsAccepted args =
    (IsAccepted-settings args, λ a. (settings_of args, acceptable args a))
