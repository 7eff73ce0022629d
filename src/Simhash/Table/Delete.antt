-- ===== src/Simhash/Table/Delete.antt =====
-- do_hash_delete of a value that is held.
use binsort.Base.{
  ℕ, zero, suc, ◌+◌, ◌<◌, ◌≡◌, ◌≢◌, refl, sym, ap, ◌∙◌, inl, inr, Bool, true, false, ◌&&◌, Option,
  none, some, update, ◌==◌, Bool-cases, arith,
}
use binsort.Simhash.Table.{
  Table, empty, full, deleted, is_full, is_empty, index, next_probe, delete_loop, do_hash_delete,
}
use binsort.Simhash.Table.Probe.{index_start, index_next}
use binsort.Simhash.Table.Valid.{
  Holds, probe, Missed, IsValid, probe_lt, Missed-everywhere, Missed-until_empty, count_full-update,
  occupied,
}
use binsort.Simhash.Table.Lookup.{Missed-suc}

abbrev drop : Table → ℕ → Table
drop t i = record t { occ = update t.occ i deleted }

abbrev DeleteOutcome : Table → ℕ → Option (Bool × Table) → Type 0
DeleteOutcome t v (some (true, t')) =
    (i : ℕ) × (i < t.nhash) × (t.occ i ≡ full) × (t.hash i ≡ v) × (t' ≡ drop t i)
DeleteOutcome t v (some (false, t')) =
    (c : ℕ) × (c < t.nhash) × (t.occ (probe t v c) ≡ empty) × Missed t v c
DeleteOutcome t v none = Missed t v t.nhash

delete_loop-Outcome :
    (k c h v : ℕ) (t : Table)
    → IsValid t
    → k + c ≡ t.nhash
    → index t h ≡ probe t v c
    → Missed t v c
    → DeleteOutcome t v (delete_loop k t h v)
unfolding delete_loop
delete_loop-Outcome zero c h v t valid e at m = let n : c ≡ t.nhash = omega arith in rw n at m
delete_loop-Outcome (suc k) c h v t valid e at m =
    let i = index t h in
    elim (Bool-cases (is_full (t.occ i) && t.hash i == v)) [
      | inl found ↦ rw found (i, rw at (probe_lt valid v c), ground arith, ground arith, refl)
      | inr other ↦ elim (Bool-cases (is_empty (t.occ i))) [
        | inl gap ↦ rw (other, gap) (c, omega arith, ground arith, m)
        | inr taken ↦
            rw (other, taken)
              (delete_loop-Outcome k (suc c) (next_probe t h) v t valid (omega arith)
                (index_next valid.log t v h c valid.size valid.log_le at)
                (Missed-suc t v c m (ground arith) (ground arith)))
      ]
    ]

-- `t'` is a valid table that holds what `t` does but for `v`.
pub record Deleted (t : Table) (v : ℕ) (t' : Table) : Type 0 where
  pub valid : IsValid t'
  pub size : t'.nhash ≡ t.nhash
  pub gone : ¬ Holds t' v
  pub kept : (w : ℕ) → w ≢ v → Holds t w → Holds t' w
  pub only : (w : ℕ) → Holds t' w → Holds t w
  pub freed : suc (occupied t') ≡ occupied t

module _ (t : Table) (v i : ℕ) (valid : IsValid t) (inside : i < t.nhash) (taken : t.occ i ≡ full)
    (same : t.hash i ≡ v) where
  drop-Deleted : Deleted t v (drop t i)
  drop-Deleted = record {
    valid = record {
      log = valid.log;
      log_le = valid.log_le;
      size = valid.size;
      path = λ j lt e.
          let (b, below, reach, free) = valid.path j lt (ground arith) in
          (b, below, reach, λ d before. ground (arith, free d before));
      unique = λ j k p q oj ok. valid.unique j k p q (ground arith) (ground arith);
    };
    size = refl;
    gone = λ (j, lt, e, h).
        let here : i ≡ j = valid.unique i j inside lt taken (ground arith) (same ∙ sym h) in
        ground arith;
    kept = λ w ne (j, lt, e, h).
        let elsewhere : i ≢ j = λ here. ne (sym h ∙ sym (ap t.hash here) ∙ same) in
        (j, lt, ground arith, h);
    only = λ w (j, lt, e, h). (j, lt, ground arith, h);
    freed = ground (arith, count_full-update t.occ t.nhash i deleted);
  }

-- do_hash_delete takes exactly the value out of a valid table that holds it, and reports success.
pub do_hash_delete-Deleted :
    (t : Table) (v : ℕ)
    → IsValid t
    → Holds t v
    → (t' : Table) × (do_hash_delete t v ≡ some (true, t')) × Deleted t v t'
unfolding do_hash_delete
do_hash_delete-Deleted t v valid held = go (do_hash_delete t v) refl (
    delete_loop-Outcome t.nhash 0 v v t valid (omega arith) (index_start valid.log t v valid.size)
      (λ d lt. absurd (omega arith)))
  where
    go :
        (r : Option (Bool × Table))
        → do_hash_delete t v ≡ r
        → DeleteOutcome t v r
        → (t' : Table) × (do_hash_delete t v ≡ some (true, t')) × Deleted t v t'
    go (some (true, t')) e (i, lt, taken, same, made) =
        (t', e, rw made (drop-Deleted t v i valid lt taken same))
    go (some (false, t')) e (c, lt, gap, m) = absurd (Missed-until_empty v c valid m gap held)
    go none e m = absurd (Missed-everywhere v valid m held)
