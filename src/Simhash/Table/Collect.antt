-- ===== src/Simhash/Table/Collect.antt =====
-- hash_alloc and gc: a fresh table of the same size, with the same values and no deleted slot.
use native.Mathlib.Decide.{ℕ_discrete}
use native.Mathlib.Numerals.{add-one}
use binsort.Base.{
  ℕ, zero, suc, ◌+◌, ◌<◌, ◌≤◌, ◌≡◌, ◌↔◌, refl, sym, ap, ◌∙◌, inl, inr, true, false, ◌^◌, some,
  Cells, update, Bool-cases, arith,
}
use binsort.Simhash.Table.{
  Table, Alloc, Occ, empty, full, is_full, clear_loop, hash_alloc, copy_loop, gc,
}
use binsort.Simhash.Table.Valid.{
  Holds, IsValid, IsClean, count_full, count_full-zero, count_full-suc, occupied,
}
use binsort.Simhash.Table.Insert.{Inserted, do_hash_insert-Inserted}

-- Both calls of `malloc` in hash_alloc find memory.
pub record HasMemory (mem : Alloc) : Type 0 where
  pub hash_cells : Cells ℕ
  pub occ_cells : Cells Occ
  pub hash_ok : mem.hash ≡ some hash_cells
  pub occ_ok : mem.occ ≡ some occ_cells

clear_loop_below : (k i j : ℕ) (occ : Cells Occ) → j < i → clear_loop k i occ j ≡ occ j
unfolding clear_loop
clear_loop_below zero i j occ h = refl
clear_loop_below (suc k) i j occ h =
    ground (arith, clear_loop_below k (i + 1) j (update occ i empty))

pub clear_loop_lem :
    (k i j : ℕ) (occ : Cells Occ) → i ≤ j → j < i + k → clear_loop k i occ j ≡ empty
unfolding clear_loop
clear_loop_lem zero i j occ h b = absurd (omega arith)
clear_loop_lem (suc k) i j occ h b = elim (ℕ_discrete i j) [
  | yes e ↦
      rw (← e) (clear_loop_below k (i + 1) i (update occ i empty) (omega arith) ∙ ground arith)
  | no ne ↦ clear_loop_lem k (i + 1) j (update occ i empty) (omega arith) (omega arith)
]

pub count_full-empty :
    (occ : Cells Occ) (n : ℕ) → ((j : ℕ) → j < n → occ j ≡ empty) → count_full occ n ≡ 0
count_full-empty occ zero h = count_full-zero occ
count_full-empty occ (suc n) h =
    ground (arith, count_full-suc occ n, h n, count_full-empty occ n (λ j lt. h j (omega arith)))

count_full-le : (occ : Cells Occ) (n : ℕ) → count_full occ n ≤ n
count_full-le occ zero = omega (arith, count_full-zero occ)
count_full-le occ (suc n) = ground (arith, count_full-suc occ n, count_full-le occ n)

-- A table whose slots are all empty.
pub record IsFresh (t : Table) : Type 0 where
  pub all_empty : (i : ℕ) → i < t.nhash → t.occ i ≡ empty

pub IsFresh-IsValid : {t : Table} (log : ℕ) → log ≤ 32 → t.nhash ≡ 2 ^ log → IsFresh t → IsValid t
IsFresh-IsValid log b size f = record {
  log = log;
  log_le = b;
  size = size;
  path = λ i lt e. absurd (cc (f.all_empty i lt));
  unique = λ i j p q e e' same. absurd (cc (f.all_empty i p));
}

-- With memory hash_alloc gives a table of the same size with every slot empty.
pub hash_alloc-IsFresh :
    (mem : Alloc) (t : Table)
    → HasMemory mem
    → (t' : Table) × (hash_alloc mem t ≡ some t') × (t'.nhash ≡ t.nhash) × IsFresh t'
unfolding hash_alloc
hash_alloc-IsFresh mem t m = (
  record t { hash = m.hash_cells; occ = clear_loop t.nhash 0 m.occ_cells },
  rw (m.hash_ok, m.occ_ok),
  refl,
  record { all_empty = λ i lt. clear_loop_lem t.nhash 0 i m.occ_cells (omega arith) (omega arith) },
)

-- `new` has the values of the first `i` slots of `t`.
record Copied (t : Table) (i : ℕ) (new : Table) : Type 0 where
  valid : IsValid new
  size : new.nhash ≡ t.nhash
  clean : IsClean new
  kept : (j : ℕ) → j < i → t.occ j ≡ full → Holds new (t.hash j)
  only : (w : ℕ) → Holds new w → (j : ℕ) × (j < i) × (t.occ j ≡ full) × (t.hash j ≡ w)
  filled : occupied new ≡ count_full t.occ i

fresh-Copied : (t new : Table) → IsValid t → new.nhash ≡ t.nhash → IsFresh new → Copied t 0 new
fresh-Copied t new v size f = record {
  valid = IsFresh-IsValid v.log v.log_le (size ∙ v.size) f;
  size = size;
  clean = λ i lt e. cc (f.all_empty i lt);
  kept = λ j lt e. absurd (omega arith);
  only = λ w (i, lt, e, h). absurd (cc (f.all_empty i lt));
  filled = count_full-empty new.occ new.nhash f.all_empty ∙ sym (count_full-zero t.occ);
}

skip-Copied :
    (t : Table) (i : ℕ) (new : Table)
    → is_full (t.occ i) ≡ false
    → Copied t i new
    → Copied t (i + 1) new
skip-Copied t i new skip c = record {
  valid = c.valid;
  size = c.size;
  clean = c.clean;
  kept = λ j lt e. elim (ℕ_discrete j i) [
    | yes here ↦ absurd (ground arith)
    | no before ↦ c.kept j (omega arith) e
  ];
  only = λ w h. let (j, lt, e, same) = c.only w h in (j, omega arith, e, same);
  filled = c.filled ∙ ground (arith, count_full-suc t.occ i, ap (count_full t.occ) (add-one i));
}

put-Copied :
    (t : Table) (i : ℕ) (new new' : Table)
    → is_full (t.occ i) ≡ true
    → Copied t i new
    → Inserted new (t.hash i) new'
    → Copied t (i + 1) new'
put-Copied t i new new' put c s = record {
  valid = s.valid;
  size = s.size ∙ c.size;
  clean = s.clean c.clean;
  kept = λ j lt e. elim (ℕ_discrete j i) [
    | yes here ↦ rw here s.added
    | no before ↦ s.kept (t.hash j) (c.kept j (omega arith) e)
  ];
  only = λ w h. elim (s.only w h) [
    | inl e ↦ (i, omega arith, ground arith, sym e)
    | inr old ↦ let (j, lt, e, same) = c.only w old in (j, omega arith, e, same)
  ];
  filled =
      ground (arith, s.filled, c.filled, count_full-suc t.occ i, ap (count_full t.occ) (add-one i));
}

copy_loop-Copied :
    (k i : ℕ) (t new : Table)
    → IsValid t
    → i + k ≡ t.nhash
    → Copied t i new
    → (t' : Table) × (copy_loop k i t new ≡ some t') × Copied t t.nhash t'
unfolding copy_loop
copy_loop-Copied zero i t new v e c = let n : i ≡ t.nhash = omega arith in (new, refl, rw n at c)
copy_loop-Copied (suc k) i t new v e c = elim (Bool-cases (is_full (t.occ i))) [
  | inr skip ↦
      rw skip (copy_loop-Copied k (i + 1) t new v (omega arith) (skip-Copied t i new skip c))
  | inl put ↦
      let fresh : ¬ Holds new (t.hash i) = λ held.
        let (j, lt, taken, same) = c.only (t.hash i) held in
        let here : j ≡ i = v.unique j i (omega arith) (omega arith) taken (ground arith) same in
        omega arith in
      let (new', ran, s) =
        do_hash_insert-Inserted new (t.hash i) c.valid fresh
          (omega (arith, c.filled, c.size, count_full-le t.occ i)) in
      rw (put, ran)
        (copy_loop-Copied k (i + 1) t new' v (omega arith) (put-Copied t i new new' put c s))
]

-- `t'` is a valid table of the same size with the same values.
pub record IsSame (t t' : Table) : Type 0 where
  pub valid : IsValid t'
  pub size : t'.nhash ≡ t.nhash
  pub holds : (w : ℕ) → Holds t w ↔ Holds t' w
  pub filled : occupied t' ≡ occupied t

gc_step :
    (mem : Alloc) (t new : Table)
    → hash_alloc mem t ≡ some new
    → gc mem t ≡ copy_loop t.nhash 0 t new
unfolding gc
gc_step mem t new e = rw (e, gc)

-- With memory, the garbage collection of a valid table never finds the new table full, keeps exactly
-- the values, and leaves no deleted slot.
pub gc_correct :
    (mem : Alloc) (t : Table)
    → HasMemory mem
    → IsValid t
    → (t' : Table) × (gc mem t ≡ some t') × IsSame t t' × IsClean t'
gc_correct mem t m v =
    let (new, made, size, fresh) = hash_alloc-IsFresh mem t m in
    let (t', ran, c) =
      copy_loop-Copied t.nhash 0 t new v (omega arith) (fresh-Copied t new v size fresh) in
    (
      t',
      gc_step mem t new made ∙ ran,
      record {
        valid = c.valid;
        size = c.size;
        holds = λ w. (λ (i, lt, e, h). rw h at (c.kept i lt e), λ held. c.only w held);
        filled = c.filled;
      },
      c.clean,
    )
