-- ===== src/Simhash/Table/Ops.antt =====
-- hash_reset, hash_contains, hash_insert and hash_delete, garbage collection included.
use native.Mathlib.Nat.{pow-le-pow_right}
use binsort.Base.{
  ℕ, zero, suc, ◌*◌, ◌/◌, ◌^◌, ◌<◌, ◌≤◌, ◌≡◌, ◌≢◌, ◌↔◌, refl, ◌∙◌, inl, inr, Bool, true, false,
  Option, none, some, Bool-cases, ltb, arith,
}
use native.Mathlib.Decide.{dec_lt}
use binsort.Base.Bits.{two_pow_suc}
use binsort.Simhash.Table.{
  Table, Alloc, Occ, empty, full, deleted, next_pow2_loop, next_pow2, hash_reset, gc,
  do_hash_contains, hash_contains, do_hash_insert, hash_insert, do_hash_delete, hash_delete,
}
use binsort.Simhash.Table.Valid.{Holds, IsValid, occupied, free_slot}
use binsort.Simhash.Table.Lookup.{Decides, do_hash_contains-Decides, do_hash_contains_correct}
use binsort.Simhash.Table.Insert.{Inserted, do_hash_insert-Inserted}
use binsort.Simhash.Table.Delete.{Deleted, do_hash_delete-Deleted}
use binsort.Simhash.Table.Collect.{
  HasMemory, IsFresh-IsValid, hash_alloc-IsFresh, IsSame, gc_correct, count_full-empty,
}

next_pow2_loop_lem :
    (f n m : ℕ)
    → n ≤ f
    → (k : ℕ) × (next_pow2_loop f n m ≡ m * 2 ^ k)
      × (n < 2 ^ k)
      × (0 < n → 2 ^ k ≤ 2 * n)
      × (n ≡ 0 → k ≡ 0)
unfolding next_pow2_loop
next_pow2_loop_lem zero n m h = (0, omega arith, omega arith, λ p. absurd (omega arith), λ e. refl)
next_pow2_loop_lem (suc f) n m h = elim (Bool-cases (ltb 0 n)) [
  | inr none_left ↦
      rw none_left (0, omega arith, ground arith, λ p. absurd (ground arith), λ e. refl)
  | inl more ↦
      let (k, e, above, below, small) = next_pow2_loop_lem f (n / 2) (m * 2) (ground arith) in
      rw more (
        suc k,
        rw (two_pow_suc k) (omega (arith, e)),
        rw (two_pow_suc k) (omega arith),
        λ p. rw (two_pow_suc k) (elim (dec_lt 0 (n / 2)) [
          | yes q ↦ let b = below q in omega arith
          | no q ↦ rw (small (omega arith)) (omega arith)
        ]),
        λ none_left. absurd (ground arith),
      )
]

-- next_pow2 gives a power of two above its argument, and at most twice it.
pub next_pow2_lem :
    (n : ℕ) → 0 < n → (k : ℕ) × (next_pow2 n ≡ 2 ^ k) × (n < next_pow2 n) × (next_pow2 n ≤ 2 * n)
unfolding next_pow2
next_pow2_lem n h =
    let (k, e, above, below, small) = next_pow2_loop_lem n n 1 (omega arith) in
    let b = below h in (k, omega (arith, e), omega (arith, e), omega (arith, e))

log_bound : (k m : ℕ) → 2 ^ k ≤ m → m < 2 ^ 32 → k ≤ 32
log_bound k m h b = elim (dec_lt 32 k) [
  | no q ↦ omega arith
  | yes q ↦ absurd (omega (arith, pow-le-pow_right {n = 2} (omega arith) {i = 33} {j = k} q))
]

-- With memory hash_reset gives a valid table that holds nothing and has more than 7 slots to a
-- feature, for a number of features at which `int` does not overflow.
pub hash_reset_correct :
    (mem : Alloc) (t : Table) (size : ℕ)
    → HasMemory mem
    → 0 < size
    → 7 * size < 2 ^ 30
    → (t' : Table) × (hash_reset mem t size ≡ some t')
      × IsValid t'
      × (7 * size < t'.nhash)
      × ((v : ℕ) → ¬ Holds t' v)
      × (occupied t' ≡ 0)
unfolding hash_reset
hash_reset_correct mem t size m pos small =
    let (k, pow, above, below) = next_pow2_lem (7 * size) (omega arith) in
    let (t', ran, same, fresh) =
      hash_alloc-IsFresh mem (record t { nhash = next_pow2 (7 * size) }) m in
    let n = next_pow2 (7 * size) in
    let log : k ≤ 32 = log_bound k n (omega (arith, pow)) (omega arith) in
    (
      t',
      ran,
      IsFresh-IsValid k log (same ∙ pow) fresh,
      omega arith,
      λ v (i, lt, e, h). cc (fresh.all_empty i lt),
      count_full-empty t'.occ t'.nhash fresh.all_empty,
    )

empty_of_clean : (o : Occ) → o ≢ full → o ≢ deleted → o ≡ empty
empty_of_clean empty f d = refl
empty_of_clean full f d = absurd (f refl)
empty_of_clean deleted f d = absurd (d refl)

contains_once :
    (mem : Alloc) (t : Table) (v : ℕ) (b : Bool)
    → do_hash_contains t v ≡ some b
    → hash_contains mem t v ≡ some (b, t)
unfolding hash_contains
contains_once mem t v b e = rw (e, hash_contains)

contains_again :
    (mem : Alloc) (t t' : Table) (v : ℕ) (b : Bool)
    → do_hash_contains t v ≡ none
    → gc mem t ≡ some t'
    → do_hash_contains t' v ≡ some b
    → hash_contains mem t v ≡ some (b, t')
unfolding hash_contains
contains_again mem t t' v b e g a = rw (e, g, a, hash_contains)

-- With memory, hash_contains never aborts on a valid table with a slot that is not full; it says
-- whether the value is held, and leaves the same values behind.
pub hash_contains_correct :
    (mem : Alloc) (t : Table) (v : ℕ)
    → HasMemory mem
    → IsValid t
    → occupied t < t.nhash
    → (b : Bool) × (t' : Table) × (hash_contains mem t v ≡ some (b, t'))
      × ((b ≡ true) ↔ Holds t v)
      × IsSame t t'
hash_contains_correct mem t v m valid room =
    go (do_hash_contains t v) refl (do_hash_contains-Decides t v valid)
  where
    same : IsSame t t
    same = record { valid = valid; size = refl; holds = λ w. ((λ h. h), (λ h. h)); filled = refl }

    go :
        (r : Option Bool)
        → do_hash_contains t v ≡ r
        → Decides t v r
        → (b : Bool) × (t' : Table) × (hash_contains mem t v ≡ some (b, t'))
          × ((b ≡ true) ↔ Holds t v)
          × IsSame t t'
    go (some true) e d = (true, t, contains_once mem t v true e, ((λ h. d), (λ h. refl)), same)
    go (some false) e d =
        (false, t, contains_once mem t v false e, ((λ h. cc), (λ h. absurd (d h))), same)
    go none e d =
        let (t', ran, s, clean) = gc_correct mem t m valid in
        let (i, lt, free) = free_slot t'.occ t'.nhash (omega (arith, s.filled, s.size)) in
        let gap : t'.occ i ≡ empty = empty_of_clean (t'.occ i) free (clean i lt) in
        let (b, asked, says) = do_hash_contains_correct t' v s.valid (i, lt, gap) in
        (
          b,
          t',
          contains_again mem t t' v b e ran asked,
          ((λ h. (s.holds v).1 (says.0 h)), (λ h. says.1 ((s.holds v).0 h))),
          s,
        )

insert_once :
    (mem : Alloc) (t t' : Table) (v : ℕ)
    → do_hash_insert t v ≡ some t'
    → hash_insert mem t v ≡ some t'
unfolding hash_insert
insert_once mem t t' v e = rw (e, hash_insert)

delete_found :
    (mem : Alloc) (t t' : Table) (v : ℕ)
    → do_hash_delete t v ≡ some (true, t')
    → hash_delete mem t v ≡ some (true, t')
unfolding hash_delete
delete_found mem t t' v e = rw (e, hash_delete)

-- hash_insert of a value that is not held succeeds while a slot is not full.
pub hash_insert-Inserted :
    (mem : Alloc) (t : Table) (v : ℕ)
    → IsValid t
    → ¬ Holds t v
    → occupied t < t.nhash
    → (t' : Table) × (hash_insert mem t v ≡ some t') × Inserted t v t'
hash_insert-Inserted mem t v valid fresh room =
    let (t', ran, s) = do_hash_insert-Inserted t v valid fresh room in
    (t', insert_once mem t t' v ran, s)

-- hash_delete of a value that is held takes it out.
pub hash_delete-Deleted :
    (mem : Alloc) (t : Table) (v : ℕ)
    → IsValid t
    → Holds t v
    → (t' : Table) × (hash_delete mem t v ≡ some (true, t')) × Deleted t v t'
hash_delete-Deleted mem t v valid held =
    let (t', ran, s) = do_hash_delete-Deleted t v valid held in (t', delete_found mem t t' v ran, s)
