-- ===== src/Binsort/Args.antt =====
-- GetTag, and the arguments that binsort_init reads with it.
-- A value is an `intptr_t`, or a pointer, which is its address; it becomes an `int` where binsort_init sets one.
use binsort.Base.{
  ℕ, ◌+◌, ◌-◌, ◌%◌, ◌^◌, ◌≤◌, ◌≡◌, ◌≢◌, refl, ◌∙◌, sym, ap, ◌⊎◌, inl, inr, Bool, true, false, ◌&&◌,
  Option, none, some, List, [], ◌∷◌, ltb, leb, ◌==◌, if◌then◌else◌, Bool-cases, arith,
}
use binsort.Base.Int.{ℤ, pos, negsuc}
pub mod Tag

abbrev pub args_done : ℕ
args_done = 0

abbrev pub arg_directory : ℕ
arg_directory = 0x4000_0001

abbrev pub arg_quality : ℕ
arg_quality = 0x4000_0002

abbrev pub arg_numworkers : ℕ
arg_numworkers = 0x4000_0003

abbrev pub arg_quiet : ℕ
arg_quiet = 0x4000_0004

abbrev pub arg_nodirs : ℕ
arg_nodirs = 0x4000_0005

-- `binsort_argitem_t`
pub record ArgItem : Type 0 where
  pub key : ℕ
  pub value : ℤ

-- No items stand for the null pointer; a list of items ends with the key BINSORT_ARGS_DONE.
unfoldable pub get_tag : List ArgItem → ℕ → ℤ → ℤ
get_tag [] tag defvalue = defvalue
get_tag (item ∷ items) tag defvalue =
    let rest = get_tag items tag defvalue in
    if item.key == args_done then defvalue else if tag == item.key then item.value else rest

-- The lower 32 bits of a number.
unfoldable pub low_word : ℤ → ℕ
low_word (pos n) = n % 2 ^ 32
low_word (negsuc n) = 2 ^ 32 - 1 - n % 2 ^ 32

-- An `intptr_t` made an `int`: the number that its lower 32 bits stand for.
unfoldable pub to_int : ℤ → ℤ
unfolding low_word
to_int v =
    let word = low_word v in if ltb word (2 ^ 31) then pos word else negsuc (2 ^ 32 - 1 - word)

-- What binsort_init sets from its arguments: a pointer, and four of type `int`.
pub record Settings : Type 0 where
  pub directory : ℤ
  pub quality : ℤ
  pub num_workers : ℤ
  pub quiet : ℤ
  pub no_dirs : ℤ

abbrev pub is_null : ℤ → Bool
is_null (pos n) = n == 0
is_null (negsuc n) = false

-- Not below 1 and not above `top`.
abbrev pub in_range : ℕ → ℤ → Bool
in_range top (pos n) = leb 1 n && leb n top
in_range top (negsuc n) = false

-- The arguments of binsort_init; `none` is BINSORT_ERROR_ARGUMENTS. The number of workers is read
-- again at the end.
unfoldable pub read_arguments : List ArgItem → Option Settings
read_arguments [] = none
read_arguments (item ∷ items) =
    let args = item ∷ items in
    let directory = get_tag args arg_directory (pos 0) in
    let quality = to_int (get_tag args arg_quality (pos 15)) in
    if is_null directory
    then none
    else if in_range 2147483647 quality
    then if in_range 128 (to_int (get_tag args arg_numworkers (pos 3)))
      then some (record {
        directory = directory;
        quality = quality;
        num_workers = to_int (get_tag args arg_numworkers (pos 0));
        quiet = to_int (get_tag args arg_quiet (pos 0));
        no_dirs = to_int (get_tag args arg_nodirs (pos 0));
      })
      else none
    else none
