-- ===== src/Binsort/Gendistances/Whole.antt =====
-- binsort_gendistances as a whole: the messages that are sent, answered in any order.
use mathlib.Core.Option.{some-injective}
use binsort.Base.{
  ℕ, zero, suc, ◌+◌, ◌<◌, ◌≡◌, refl, sym, ap, ap₂, ◌∙◌, true, some, List, [], ◌∷◌, map, Cells,
  IsAmong, arith,
}
use binsort.Simhash.Score.{Score}
use binsort.Binsort.Distances.{HashNode, Work}
use binsort.Binsort.Distances.Matrix.{IsFilled}
use binsort.Binsort.Gendistances.{HashMessage, limit_workers, send_rows, answer}
use binsort.Binsort.Gendistances.Root.{IsRoot}
use binsort.Binsort.Gendistances.Rows.{share, shares, send_rows_correct}
use binsort.Binsort.Gendistances.Answers.{AllBelow, answer_all}

-- Message `i` of those sent.
pub message_at : List HashMessage → ℕ → HashMessage
message_at [] i = record { first = 0; behind = 0 }
message_at (msg ∷ msgs) zero = msg
message_at (msg ∷ msgs) (suc i) = message_at msgs i

message_at-shares : (t : ℕ → ℕ) (k i j : ℕ) → j < k → message_at (shares t i k) j ≡ share t (i + j)
unfolding message_at shares
message_at-shares t zero i j h = absurd (omega (arith, h))
message_at-shares t (suc k) i zero h = let same : i ≡ i + 0 = omega arith in ap (share t) same
message_at-shares t (suc k) i (suc j) h =
    let same : suc i + j ≡ i + suc j = omega arith in
    message_at-shares t k (suc i) j (omega (arith, h)) ∙ ap (share t) same

map-message_at-shares :
    (t : ℕ → ℕ) (n : ℕ) (js : List ℕ)
    → AllBelow n js
    → map (message_at (shares t 0 n)) js ≡ map (share t) js
map-message_at-shares t n [] low = refl
map-message_at-shares t n (j ∷ js) (here, low) =
    let same : 0 + j ≡ j = omega arith in
    ap₂ ◌∷◌ (message_at-shares t n 0 j here ∙ ap (share t) same) (map-message_at-shares t n js low)

-- With memory, and a root that gives whole square roots: when all messages that are sent for at least
-- one row have been answered, one after the other in any order, the matrix has the distance of each
-- pair of files in both of its cells.
pub gendistances_correct :
    (root : ℕ → ℕ) (num numworkers : ℕ) (scale : Score → ℕ) (hashes : Cells HashNode)
    (msgs : List HashMessage) (n : ℕ) (js : List ℕ) (w : Work)
    → IsRoot root
    → 0 < num
    → 0 < numworkers
    → send_rows true true root num numworkers ≡ some (msgs, n)
    → AllBelow n js
    → ((i : ℕ) → i < n → IsAmong i js)
    → IsFilled num scale hashes 0 num (answer (map (message_at msgs) js) num scale hashes w).array
gendistances_correct root num numworkers scale hashes msgs n js w is_root some_row some_worker sent
      low all =
    let (t, d, made) = send_rows_correct root num numworkers is_root some_row some_worker in
    let m = limit_workers num numworkers in
    let same = some-injective (shares t 0 m, m) (msgs, n) (sym made ∙ sent) in
    let count : m ≡ n = ap (λ p. p.1) same in
    let low' : AllBelow m js = rw count low in
    let answered =
      answer_all num m t d scale hashes js w low' (λ i h. all i (omega (arith, h, count))) in
    rw (ap (λ p. map (message_at p.0) js) (sym same) ∙ map-message_at-shares t m js low') answered
