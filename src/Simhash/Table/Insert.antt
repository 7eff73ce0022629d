-- ===== src/Simhash/Table/Insert.antt =====
-- do_hash_insert of a value that is not held, into a table that is not full.
use native.Mathlib.Decide.{ℕ_discrete}
use binsort.Base.{
  ℕ, zero, suc, ◌+◌, ◌<◌, ◌≡◌, ◌≢◌, ◌⊎◌, refl, sym, ap, ◌∙◌, inl, inr, Option, none, some, update,
  ◌==◌, Bool-cases, arith,
}
use binsort.Simhash.Table.{
  Table, empty, full, is_full, index, next_probe, insert_loop, do_hash_insert,
}
use binsort.Simhash.Table.Probe.{index_start, index_next}
use binsort.Simhash.Table.Valid.{
  Holds, probe, IsValid, IsClean, probe_lt, probe_reaches, count_full-update, free_slot, occupied,
}

-- In the first `c` rounds every slot was full, with other values.
abbrev Passed : Table → ℕ → ℕ → Type 0
Passed t v c = (d : ℕ) → d < c → (t.occ (probe t v d) ≡ full) × (t.hash (probe t v d) ≢ v)

abbrev put : Table → ℕ → ℕ → Table
put t i v = record t { occ = update t.occ i full; hash = update t.hash i v }

abbrev InsertOutcome : Table → ℕ → Option Table → Type 0
InsertOutcome t v (some t') =
    Holds t v
    ⊎ ((c : ℕ) × (c < t.nhash)
        × (t.occ (probe t v c) ≢ full)
        × Passed t v c
        × (t' ≡ put t (probe t v c) v))
InsertOutcome t v none = Passed t v t.nhash

Passed-suc :
    (t : Table) (v c : ℕ)
    → Passed t v c
    → t.occ (probe t v c) ≡ full
    → t.hash (probe t v c) ≢ v
    → Passed t v (suc c)
Passed-suc t v c m taken other d lt = elim (ℕ_discrete d c) [
  | yes e ↦ rw e (taken, other)
  | no ne ↦ m d (omega arith)
]

insert_loop-Outcome :
    (k c h v : ℕ) (t : Table)
    → IsValid t
    → k + c ≡ t.nhash
    → index t h ≡ probe t v c
    → Passed t v c
    → InsertOutcome t v (insert_loop k t h v)
unfolding insert_loop
insert_loop-Outcome zero c h v t valid e at m = let n : c ≡ t.nhash = omega arith in rw n at m
insert_loop-Outcome (suc k) c h v t valid e at m =
    let i = index t h in
    elim (Bool-cases (is_full (t.occ i))) [
      | inr open_slot ↦ rw open_slot (inr (c, omega arith, ground arith, m, ap (λ j. put t j v) at))
      | inl taken ↦ elim (Bool-cases (t.hash i == v)) [
        | inl found ↦
            rw (taken, found) (inl (i, rw at (probe_lt valid v c), ground arith, ground arith))
        | inr other ↦
            rw (taken, other)
              (insert_loop-Outcome k (suc c) (next_probe t h) v t valid (omega arith)
                (index_next valid.log t v h c valid.size valid.log_le at)
                (Passed-suc t v c m (ground arith) (ground arith)))
      ]
    ]

-- `t'` is a valid table that holds what `t` does, and `v`.
pub record Inserted (t : Table) (v : ℕ) (t' : Table) : Type 0 where
  pub valid : IsValid t'
  pub size : t'.nhash ≡ t.nhash
  pub added : Holds t' v
  pub kept : (w : ℕ) → Holds t w → Holds t' w
  pub only : (w : ℕ) → Holds t' w → (w ≡ v) ⊎ Holds t w
  pub filled : occupied t' ≡ suc (occupied t)
  pub clean : IsClean t → IsClean t'

module _ (t : Table) (v c : ℕ) (valid : IsValid t) (fresh : ¬ Holds t v) (inside : c < t.nhash)
    (open_slot : t.occ (probe t v c) ≢ full) (passed : Passed t v c) where
  abbrev at_slot : ℕ
  at_slot = probe t v c

  put_other : (i : ℕ) → i ≢ at_slot → t.occ i ≡ full → (put t at_slot v).occ i ≡ full
  put_other i ne e = ground arith

  put_path :
      (i : ℕ)
      → i < t.nhash
      → (put t at_slot v).occ i ≡ full
      → (b : ℕ) × (b < t.nhash)
        × (probe t ((put t at_slot v).hash i) b ≡ i)
        × ((d : ℕ) → d < b → (put t at_slot v).occ (probe t ((put t at_slot v).hash i) d) ≢ empty)
  put_path i lt e = elim (ℕ_discrete i at_slot) [
    | yes here ↦
        let h : (put t at_slot v).hash i ≡ v = ground arith in
        rw h (c, inside, sym here, λ d before. ground (arith, passed d before))
    | no elsewhere ↦
        let h : (put t at_slot v).hash i ≡ t.hash i = ground arith in
        let (b, below, reach, free) = valid.path i lt (ground arith) in
        rw h (b, below, reach, λ d before. ground (arith, free d before))
  ]

  put_unique :
      (i j : ℕ)
      → i < t.nhash
      → j < t.nhash
      → (put t at_slot v).occ i ≡ full
      → (put t at_slot v).occ j ≡ full
      → (put t at_slot v).hash i ≡ (put t at_slot v).hash j
      → i ≡ j
  put_unique i j p q oi oj same = elim (ℕ_discrete i at_slot) [
    | yes ei ↦ elim (ℕ_discrete j at_slot) [
      | yes ej ↦ omega arith
      | no nj ↦ absurd (fresh (j, q, ground arith, ground arith))
    ]
    | no ni ↦ elim (ℕ_discrete j at_slot) [
      | yes ej ↦ absurd (fresh (i, p, ground arith, ground arith))
      | no nj ↦ valid.unique i j p q (ground arith) (ground arith) (ground arith)
    ]
  ]

  put-Inserted : Inserted t v (put t at_slot v)
  put-Inserted = record {
    valid = record {
      log = valid.log;
      log_le = valid.log_le;
      size = valid.size;
      path = put_path;
      unique = put_unique;
    };
    size = refl;
    added = (at_slot, probe_lt valid v c, ground arith, ground arith);
    kept = λ w (i, lt, e, h). (i, lt, ground arith, ground arith);
    only = λ w (i, lt, e, h). elim (ℕ_discrete i at_slot) [
      | yes here ↦ inl (ground arith)
      | no elsewhere ↦ inr (i, lt, ground arith, ground arith)
    ];
    filled = ground (arith, count_full-update t.occ t.nhash at_slot full, probe_lt valid v c);
    clean = λ before i lt. ground (arith, before i lt);
  }

-- do_hash_insert succeeds on a valid table that does not hold the value and has a slot that is not
-- full, and adds exactly this value.
pub do_hash_insert-Inserted :
    (t : Table) (v : ℕ)
    → IsValid t
    → ¬ Holds t v
    → occupied t < t.nhash
    → (t' : Table) × (do_hash_insert t v ≡ some t') × Inserted t v t'
unfolding do_hash_insert
do_hash_insert-Inserted t v valid fresh room = go (do_hash_insert t v) refl (
    insert_loop-Outcome t.nhash 0 v v t valid (omega arith) (index_start valid.log t v valid.size)
      (λ d lt. absurd (omega arith)))
  where
    go :
        (r : Option Table)
        → do_hash_insert t v ≡ r
        → InsertOutcome t v r
        → (t' : Table) × (do_hash_insert t v ≡ some t') × Inserted t v t'
    go (some t') e (inl held) = absurd (fresh held)
    go (some t') e (inr (c, lt, open_slot, passed, made)) =
        (t', e, rw made (put-Inserted t v c valid fresh lt open_slot passed))
    go none e passed =
        let (i, lt, open_slot) = free_slot t.occ t.nhash room in
        let (c, before, at) = probe_reaches valid v i lt in
        absurd (open_slot (ap t.occ (sym at) ∙ (passed c before).0))
