-- ===== src/Binsort/Gendistances/Tests.antt =====
-- The theorems on binsort_gendistances at thirty hashes and three workers.
use binsort.Base.{ℕ, ◌≡◌, refl, true, some, List, [], ◌∷◌, map, Cells, arith}
use binsort.Simhash.Score.{Score}
use binsort.Binsort.Distances.{HashNode, Work}
use binsort.Base.Int.{pos}
use binsort.Binsort.Distances.Matrix.{IsFilled}
use binsort.Binsort.Gendistances.{
  HashMessage, limit_workers, behind_last, send_loop, send_rows, answer,
}
use binsort.Binsort.Gendistances.Root.{square_root, square_root-IsRoot}
use binsort.Binsort.Gendistances.Whole.{message_at, gendistances_correct}

abbrev empty_hashes : Cells HashNode
empty_hashes i = record { hash = λ j. 0; size = 0 }

abbrev no_score : Score → ℕ
no_score s = 0

abbrev no_work : Work
no_work = record { array = λ i. 7; pairs = 0; distances_left = pos 3; updates = 0 }

-- Five workers are too many: three get rows 0 to 16, 17 to 23 and 24 to 29.
abbrev three_messages : List HashMessage
three_messages =
    record { first = 0; behind = 17 }
    ∷ record { first = 17; behind = 24 }
    ∷ record { first = 24; behind = 30 }
    ∷ []

three_sent : send_rows true true square_root 30 5 ≡ some (three_messages, 3)
unfolding send_rows limit_workers send_loop behind_last square_root
three_sent = refl

gendistances_correct_example :
    IsFilled 30 no_score empty_hashes 0 30
      (answer
        (map (message_at three_messages) (2 ∷ 0 ∷ 1 ∷ []))
        30
        no_score
        empty_hashes
        no_work).array
gendistances_correct_example =
    gendistances_correct square_root 30 5 no_score empty_hashes three_messages 3 (2 ∷ 0 ∷ 1 ∷ [])
      no_work square_root-IsRoot (omega arith) (omega arith) three_sent (omega arith)
      (λ i h. omega (arith, h))
