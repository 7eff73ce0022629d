-- ===== src/Binsort/Tests.antt =====
-- The theorems on binsort.c at concrete inputs.
use binsort.Base.{
  ℕ, List, [], ◌∷◌, true, false, ◌+◌, ◌*◌, ◌/◌, ◌≤◌, ◌<◌, zero, suc, ◌%◌, ◌^◌, ◌≡◌, refl, sym, inl,
  none, some, Cells, update, arith,
}
use binsort.Tinymt.{
  tinymt32_generate_uint32, tinymt32_next_state, tinymt32_temper, mixed_x, mixed_y, odd_mask,
}
use binsort.Binsort.Random.{Random, random_init, random_get}
use binsort.Binsort.Random.Mask.{IsMask, random_init-IsMask}
use binsort.Binsort.Random.Draw.{IsPool}
use binsort.Binsort.Random.Stream.{words, stream, drop, digit, random_get_first}
use binsort.Binsort.Args.{
  ArgItem, Settings, args_done, arg_directory, arg_numworkers, get_tag, low_word, to_int,
  read_arguments,
}
use binsort.Binsort.Args.Tag.{IsAccepted, IsAcceptable, read_arguments-IsAccepted}
use binsort.Binsort.Ranges.{RangeNode, clear_of, all_clear, enter, Reachable, start, next}
use binsort.Binsort.Ranges.Disjoint.{AllApart, Reachable-AllApart}
use binsort.Simhash.Table.{Alloc, full}
use binsort.Simhash.Table.Collect.{HasMemory}
use binsort.Simhash.Score.{Score}
use binsort.Simhash.Global.{ok, FileMemory, simhash_nshingle, simhash_nfeature}
use binsort.Simhash.Global.Sketch.{shingle_hashes}
use binsort.Simhash.Global.Print.{IsPrint, IsAmple}
use binsort.Binsort.Distances.{HashNode, Work, calcdist, simhash_init}
use binsort.Binsort.Distances.Matrix.{IsFilled, IsKept, calcdist_correct}
use binsort.Binsort.Hashing.{success, worker_hash}
use binsort.Binsort.Hashing.Stored.{worker_hash_correct}
use binsort.Base.Int.{pos, ◌+ℤ◌}
use binsort.Binsort.Order.{
  DirEntry, Distances, Span, choose_range, reverse_range, getdist, getdelta, before,
}
use binsort.Binsort.Order.Range.{IsSpan, choose_range-IsSpan}
use binsort.Binsort.Order.Reverse.{IsReversed, reverse_range-IsReversed}
use binsort.Binsort.Order.Delta.{IsSymmetric, IsIndexed, reverse_range-getdelta}

-- Five files; the last has no hash.
abbrev five_files : Cells DirEntry
five_files =
    update (λ i. record { name = i ∷ []; index = some i; is_file = true; is_dir = false }) 4
      (record { name = 4 ∷ []; index = none; is_file = true; is_dir = false })

-- Four hashes, the distance of two of them the sum of their numbers.
abbrev four_rows : Distances
four_rows = record { array = λ i. i / 4 + i % 4; arrnum = 4 }

abbrev middle : Span
middle = record { i0 = 1; i1 = 2; n = 2 }

middle_chosen : choose_range 5 1 2 ≡ some middle
unfolding choose_range
middle_chosen = refl

choose_range-IsSpan_example : IsSpan 5 middle
choose_range-IsSpan_example =
    choose_range-IsSpan 5 1 2 {r = middle} (omega arith) (omega arith) middle_chosen

middle-IsSpan : IsSpan 5 middle
middle-IsSpan = record {
  first = omega arith;
  last = omega arith;
  some_position = omega arith;
  half = omega arith;
  ends = inl refl;
}

reverse_range-IsReversed_example :
    IsReversed 5 middle five_files (reverse_range five_files 5 middle)
reverse_range-IsReversed_example = reverse_range-IsReversed five_files 5 middle middle-IsSpan

four_rows-IsSymmetric : IsSymmetric four_rows
four_rows-IsSymmetric a b p q = omega arith

five_files-IsIndexed : IsIndexed four_rows five_files 5
five_files-IsIndexed zero h = omega arith
five_files-IsIndexed (suc zero) h = omega arith
five_files-IsIndexed (suc (suc zero)) h = omega arith
five_files-IsIndexed (suc (suc (suc zero))) h = omega arith
five_files-IsIndexed (suc (suc (suc (suc zero)))) h = tt
five_files-IsIndexed (suc (suc (suc (suc (suc i))))) h = absurd (omega arith)

reverse_range-getdelta_example :
    pos (getdist four_rows (reverse_range five_files 5 middle) 5).0
    ≡ pos (getdist four_rows five_files 5).0
      +ℤ getdelta five_files four_rows 1 2 (before 5 1) ((2 + 1) % 5)
reverse_range-getdelta_example =
    reverse_range-getdelta four_rows five_files 5 middle middle-IsSpan four_rows-IsSymmetric
      five_files-IsIndexed

abbrev new_random : Random
new_random = record {
  rand_pool = 0;
  seed = record { status = λ i. 0; mat1 = 0; mat2 = 0; tmat = 0 };
  num_range = 3;
  bit_mask = 3;
  num_bits = 2;
  rand_bits = 0;
}

random_init-IsMask_example :
    IsMask 5 (random_init new_random 5).bit_mask (random_init new_random 5).num_bits
    × ((random_init new_random 5).num_range ≡ 5)
    × ((random_init new_random 5).rand_pool ≡ 0)
    × ((random_init new_random 5).rand_bits ≡ 0)
random_init-IsMask_example = random_init-IsMask new_random 5

-- A generator of which the words end in the digits 3, 2, 2 to the base 4: the first is out of range.
abbrev seeded : Random
seeded = record new_random {
  seed = record { status = λ i. i % 4 + 2; mat1 = 0; mat2 = 0; tmat = 0 };
}

seeded-IsPool : IsPool seeded
seeded-IsPool = record {
  words = record {
    status = λ i. omega arith;
    mat1 = omega arith;
    mat2 = omega arith;
    tmat = omega arith;
  };
  ones = refl;
  narrow = omega arith;
  pool = omega arith;
  room = omega arith;
}

seeded-stream : stream 2 seeded ≡ 43 + 2 ^ 32 * 122912
unfolding stream words tinymt32_generate_uint32 tinymt32_next_state tinymt32_temper mixed_x mixed_y
    odd_mask
seeded-stream = refl

first_out : (j : ℕ) → j < 1 → 3 ≤ digit 4 j (stream 2 seeded)
unfolding drop
first_out zero h = rw seeded-stream (omega arith)
first_out (suc j) h = absurd (omega (arith, h))

second_inside : digit 4 1 (stream 2 seeded) ≡ 2
unfolding drop
second_inside = rw seeded-stream refl

random_get_first_example :
    (rnd' : Random) × (random_get 2 seeded ≡ some (digit 4 1 (stream 2 seeded), rnd'))
    × IsPool rnd'
    × ((c : ℕ) × ((m : ℕ) → stream m rnd' ≡ drop 4 2 (stream (m + c) seeded)))
random_get_first_example =
    random_get_first 1 2 seeded seeded-IsPool (omega arith) first_out (omega (arith, second_inside))

-- A number of workers that does not fit an `int`, and counts as 3.
abbrev wide_args : List ArgItem
wide_args =
    record { key = arg_directory; value = pos 4096 }
    ∷ record { key = arg_numworkers; value = pos (2 ^ 32 + 3) }
    ∷ record { key = args_done; value = pos 0 }
    ∷ []

abbrev wide_settings : Settings
wide_settings = record {
  directory = pos 4096;
  quality = pos 15;
  num_workers = pos 3;
  quiet = pos 0;
  no_dirs = pos 0;
}

wide_args_read : read_arguments wide_args ≡ some wide_settings
unfolding read_arguments get_tag to_int low_word
wide_args_read = refl

wide_args-IsAcceptable : IsAcceptable wide_args
unfolding get_tag
wide_args-IsAcceptable = record {
  directory = (pos 4096, (λ d. refl), refl);
  quality = λ v g. absurd (cc (g (pos 0), g (pos 1)));
  workers = λ v g. (3, omega arith, omega arith, (1, inl (sym (g (pos 0)))));
}

read_arguments-IsAccepted_example :
    ((s : Settings) → read_arguments wide_args ≡ some s → IsAccepted wide_args s)
    × (IsAcceptable wide_args → (s : Settings) × (read_arguments wide_args ≡ some s))
read_arguments-IsAccepted_example = read_arguments-IsAccepted wide_args

-- One worker reverses 2 to 7, and another 9 round to 1.
abbrev two_to_seven : RangeNode
two_to_seven = record { first = 2; last = 7 }

abbrev nine_to_one : RangeNode
nine_to_one = record { first = 9; last = 1 }

both_clear : all_clear (two_to_seven ∷ []) 9 1 ≡ true
unfolding all_clear clear_of
both_clear = refl

first_clear : all_clear [] 2 7 ≡ true
unfolding all_clear
first_clear = refl

both-Reachable : Reachable (two_to_seven ∷ nine_to_one ∷ [])
both-Reachable =
    next (two_to_seven ∷ []) (two_to_seven ∷ nine_to_one ∷ [])
      (next [] (two_to_seven ∷ []) start (enter [] two_to_seven first_clear))
      (enter (two_to_seven ∷ []) nine_to_one both_clear)

Reachable-AllApart_example : AllApart (two_to_seven ∷ nine_to_one ∷ [])
Reachable-AllApart_example =
    Reachable-AllApart {rs = two_to_seven ∷ nine_to_one ∷ []} both-Reachable

-- Three hashes with no features, and any conversion of a score.
abbrev empty_hashes : Cells HashNode
empty_hashes i = record { hash = λ j. 0; size = 0 }

abbrev no_score : Score → ℕ
no_score s = 0

abbrev no_work : Work
no_work = record { array = λ i. 7; pairs = 0; distances_left = pos 3; updates = 0 }

calcdist_correct_example :
    IsFilled 3 no_score empty_hashes 1 (2 + 1) (calcdist 1 2 3 no_score empty_hashes no_work).array
    × IsKept 3 no_score empty_hashes 1
        (2 + 1)
        (λ i. 7)
        (calcdist 1 2 3 no_score empty_hashes no_work).array
calcdist_correct_example =
    calcdist_correct 3 no_score empty_hashes 1 2 no_work (omega arith) (omega arith)

abbrev found_cells : Alloc
found_cells = record { hash = some (λ i. 0); occ = some (λ i. full) }

found_cells-HasMemory : HasMemory found_cells
found_cells-HasMemory = record {
  hash_cells = λ i. 0;
  occ_cells = λ i. full;
  hash_ok = refl;
  occ_ok = refl;
}

abbrev found_memory : FileMemory
found_memory = record {
  global = true;
  buf = some (λ i. 0);
  heap = some (λ i. 0);
  table = found_cells;
  inserts = λ c. record {
    for_contains = found_cells;
    for_delete = found_cells;
    for_insert = found_cells;
  };
  info = true;
  crcs = some (λ i. 0);
}

found_memory-IsAmple : IsAmple found_memory
found_memory-IsAmple = record {
  buf_cells = λ i. 0;
  heap_cells = λ i. 0;
  crcs_cells = λ i. 0;
  global = refl;
  info = refl;
  buf = refl;
  heap = refl;
  table = found_cells-HasMemory;
  crcs = refl;
  inserts = λ c. record {
    for_contains = found_cells-HasMemory;
    for_delete = found_cells-HasMemory;
    for_insert = found_cells-HasMemory;
  };
}

abbrev eight_bytes : List ℕ
eight_bytes = 1 ∷ 2 ∷ 3 ∷ 4 ∷ 5 ∷ 6 ∷ 7 ∷ 8 ∷ []

worker_hash_correct_example :
    (node : HashNode) × (worker_hash found_memory (some (λ i. 9)) (some eight_bytes)
      ≡ ok (success, some node))
    × IsPrint simhash_nfeature
        (shingle_hashes simhash_nshingle eight_bytes)
        (simhash_init node.hash node.size)
worker_hash_correct_example =
    worker_hash_correct found_memory (λ i. 9) eight_bytes found_memory-IsAmple (omega arith)
