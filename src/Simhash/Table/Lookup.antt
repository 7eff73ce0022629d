-- ===== src/Simhash/Table/Lookup.antt =====
-- do_hash_contains decides membership, unless no slot is empty and the value is not there.
use native.Mathlib.Decide.{ℕ_discrete}
use binsort.Base.{
  ℕ, zero, suc, ◌+◌, ◌<◌, ◌≡◌, ◌≢◌, ◌↔◌, refl, ap, ◌∙◌, inl, inr, Bool, true, false, ◌&&◌, Option,
  none, some, ◌==◌, Bool-cases, arith,
}
use binsort.Simhash.Table.{
  Table, empty, full, is_full, is_empty, index, next_probe, contains_loop, do_hash_contains,
}
use binsort.Simhash.Table.Probe.{index_start, index_next}
use binsort.Simhash.Table.Valid.{
  Holds, probe, Missed, IsValid, probe_lt, probe_reaches, Missed-everywhere, Missed-until_empty,
}

-- A round that neither finds an empty slot nor the value.
pub Missed-suc :
    (t : Table) (v c : ℕ)
    → Missed t v c
    → t.occ (probe t v c) ≢ empty
    → (t.occ (probe t v c) ≡ full → t.hash (probe t v c) ≢ v)
    → Missed t v (suc c)
Missed-suc t v c m gap other d lt = elim (ℕ_discrete d c) [
  | yes e ↦ rw e (gap, other)
  | no ne ↦ m d (omega arith)
]

abbrev ContainsOutcome : Table → ℕ → Option Bool → Type 0
ContainsOutcome t v (some true) = Holds t v
ContainsOutcome t v (some false) =
    (c : ℕ) × (c < t.nhash) × (t.occ (probe t v c) ≡ empty) × Missed t v c
ContainsOutcome t v none = Missed t v t.nhash

contains_loop-Outcome :
    (k c h v : ℕ) (t : Table)
    → IsValid t
    → k + c ≡ t.nhash
    → index t h ≡ probe t v c
    → Missed t v c
    → ContainsOutcome t v (contains_loop k t h v)
unfolding contains_loop
contains_loop-Outcome zero c h v t valid e at m = let n : c ≡ t.nhash = omega arith in rw n at m
contains_loop-Outcome (suc k) c h v t valid e at m =
    let i = index t h in
    elim (Bool-cases (is_empty (t.occ i))) [
      | inl gap ↦ rw gap (c, omega arith, ground arith, m)
      | inr taken ↦ elim (Bool-cases (is_full (t.occ i) && t.hash i == v)) [
        | inl found ↦ rw (taken, found) (i, rw at (probe_lt valid v c), ground arith, ground arith)
        | inr other ↦
            rw (taken, other)
              (contains_loop-Outcome k (suc c) (next_probe t h) v t valid (omega arith)
                (index_next valid.log t v h c valid.size valid.log_le at)
                (Missed-suc t v c m (ground arith) (ground arith)))
      ]
    ]

-- What the result of do_hash_contains says: 1 that the value is held, 0 that it is not, and -1
-- that it is not and no slot is empty.
abbrev pub Decides : Table → ℕ → Option Bool → Type 0
Decides t v (some true) = Holds t v
Decides t v (some false) = ¬ Holds t v
Decides t v none = (¬ Holds t v) × ((i : ℕ) → i < t.nhash → t.occ i ≢ empty)

Decides-of_outcome :
    (t : Table) (v : ℕ) (r : Option Bool) → IsValid t → ContainsOutcome t v r → Decides t v r
Decides-of_outcome t v (some true) valid o = o
Decides-of_outcome t v (some false) valid (c, lt, gap, m) = Missed-until_empty v c valid m gap
Decides-of_outcome t v none valid m = (
  Missed-everywhere v valid m,
  λ i h e. let (c, lt, at) = probe_reaches valid v i h in (m c lt).0 (ap t.occ at ∙ e),
)

pub do_hash_contains-Decides : (t : Table) (v : ℕ) → IsValid t → Decides t v (do_hash_contains t v)
unfolding do_hash_contains
do_hash_contains-Decides t v valid = Decides-of_outcome t v _ valid (
    contains_loop-Outcome t.nhash 0 v v t valid (omega arith) (index_start valid.log t v valid.size)
      (λ d lt. absurd (omega arith)))

-- With an empty slot do_hash_contains answers, and says whether the value is held.
pub do_hash_contains_correct :
    (t : Table) (v : ℕ)
    → IsValid t
    → (i : ℕ) × (i < t.nhash) × (t.occ i ≡ empty)
    → (b : Bool) × (do_hash_contains t v ≡ some b) × ((b ≡ true) ↔ Holds t v)
do_hash_contains_correct t v valid (i, lt, gap) =
    go (do_hash_contains t v) refl (do_hash_contains-Decides t v valid)
  where
    go :
        (r : Option Bool)
        → do_hash_contains t v ≡ r
        → Decides t v r
        → (b : Bool) × (do_hash_contains t v ≡ some b) × ((b ≡ true) ↔ Holds t v)
    go (some true) e d = (true, e, ((λ h. d), (λ h. refl)))
    go (some false) e d = (false, e, ((λ h. cc), (λ h. absurd (d h))))
    go none e d = absurd (d.1 i lt gap)
