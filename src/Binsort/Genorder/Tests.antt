-- ===== src/Binsort/Genorder/Tests.antt =====
-- The theorems on binsort_genorder and its workers at a concrete directory, with the steps of a worker.
use binsort.Base.{
  ℕ, zero, suc, ◌+◌, ◌/◌, ◌%◌, ◌≡◌, refl, true, false, none, some, List, [], ◌∷◌, Cells, swap,
  arith,
}
use binsort.Base.Int.{ℤ, pos, ◌+ℤ◌}
use binsort.Binsort.Order.{DirEntry, Distances, Span, getdist, getdelta, choose_range}
use binsort.Binsort.Order.Delta.{IsSymmetric, IsIndexed}
use binsort.Binsort.Ranges.{all_clear}
use binsort.Binsort.Optimise.{
  Reversal, Shared, begin_reversal, accept_range, try_range, advance, Reachable, attempt, exchange,
  remove, start, next,
}
use binsort.Binsort.Optimise.Exact.{workers_distance}
use binsort.Binsort.Genorder.{Taken, take_files, start_order}

-- Eight hashes, the distance of two of them the sum of their numbers.
abbrev eight_rows : Distances
eight_rows = record { array = λ i. i / 8 + i % 8; arrnum = 8 }

eight_rows-IsSymmetric : IsSymmetric eight_rows
eight_rows-IsSymmetric a b p q = omega arith

abbrev file : ℕ → DirEntry
file i = record { name = i ∷ []; index = some i; is_file = true; is_dir = false }

abbrev folder : DirEntry
folder = record { name = 100 ∷ []; index = none; is_file = false; is_dir = true }

-- Eight files with a directory between them.
abbrev entries : List DirEntry
entries = file 0 ∷ file 1 ∷ file 2 ∷ folder ∷ file 3 ∷ file 4 ∷ file 5 ∷ file 6 ∷ file 7 ∷ []

-- What the array holds before it is set.
abbrev space : Cells DirEntry
space i = folder

abbrev from_entries : Taken
from_entries = take_files entries (record { order = space; num = 0; list = [] })

eight_files : from_entries.num ≡ 8
unfolding take_files
eight_files = refl

from_entries-IsIndexed : IsIndexed eight_rows from_entries.order from_entries.num
unfolding take_files
from_entries-IsIndexed zero h = omega arith
from_entries-IsIndexed (suc zero) h = omega arith
from_entries-IsIndexed (suc (suc zero)) h = omega arith
from_entries-IsIndexed (suc (suc (suc zero))) h = omega arith
from_entries-IsIndexed (suc (suc (suc (suc zero)))) h = omega arith
from_entries-IsIndexed (suc (suc (suc (suc (suc zero))))) h = omega arith
from_entries-IsIndexed (suc (suc (suc (suc (suc (suc zero)))))) h = omega arith
from_entries-IsIndexed (suc (suc (suc (suc (suc (suc (suc zero))))))) h = omega arith
from_entries-IsIndexed (suc (suc (suc (suc (suc (suc (suc (suc i)))))))) h =
    absurd (omega (arith, h))

-- One worker takes the range from 1 to 4, exchanges its ends and then its middle, and takes it off.
abbrev span : Span
span = record { i0 = 1; i1 = 4; n = 4 }

abbrev begun : Shared
begun = start_order eight_rows from_entries

abbrev job : Reversal
job = record { span = span; p = 2; q = 3; left = 1 }

abbrev span_delta : ℤ
span_delta = getdelta begun.order eight_rows 1 4 0 5

abbrev tried : Shared
tried = record {
  order = swap begun.order 1 4;
  ranges = job ∷ [];
  distance = begun.distance +ℤ span_delta;
}

abbrev exchanged : Shared
exchanged = record tried { order = swap tried.order 2 3; ranges = advance 8 0 job ∷ [] }

abbrev ended : Shared
ended = record exchanged { ranges = [] }

tried_steps : Reachable eight_rows 8 begun tried
unfolding choose_range try_range all_clear accept_range begin_reversal start_order
tried_steps = next start (attempt 1 4 span (λ d. true) (omega arith) (omega arith) refl refl)

ended_steps : Reachable eight_rows 8 begun ended
unfolding advance
ended_steps =
    next (next tried_steps (exchange 0 [] job [] refl refl refl))
      (remove [] (advance 8 0 job) [] refl refl refl)

workers_distance_example : ended.distance ≡ pos (getdist eight_rows ended.order 8).0
unfolding start_order take_files
workers_distance_example =
    workers_distance eight_rows 8 from_entries.order ended eight_rows-IsSymmetric
      from_entries-IsIndexed ended_steps refl
