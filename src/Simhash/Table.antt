-- ===== src/Simhash/Table.antt =====
-- The open-addressed hash table of simhash.c (next_pow2 to hash_delete), which holds the same
-- features as the heap. `Table` is the part of `struct simhash_global` that these functions touch;
-- a slot's `occ` is EMPTY, FULL or DELETED.
pub mod Probe
pub mod Valid
pub mod Lookup
pub mod Insert
pub mod Delete
pub mod Collect
pub mod Ops
use Prim.Native.Nat.{bit_and}
use binsort.Base.{
  ℕ, zero, suc, ◌+◌, ◌-◌, ◌*◌, ◌/◌, ◌%◌, ◌^◌, Bool, true, false, ◌&&◌, Option, none, some, Cells,
  update, ltb, ◌==◌, if◌then◌else◌,
}

pub data Occ : Type 0 where
  empty full deleted : Occ

abbrev pub is_full : Occ → Bool
is_full full = true
is_full empty = false
is_full deleted = false

abbrev pub is_empty : Occ → Bool
is_empty empty = true
is_empty full = false
is_empty deleted = false

pub record Table : Type 0 where
  pub occ : Cells Occ
  pub hash : Cells ℕ
  pub nhash : ℕ

-- What the two calls of `malloc` in hash_alloc return: no memory, or an array with whatever it holds.
pub record Alloc : Type 0 where
  pub hash : Option (Cells ℕ)
  pub occ : Option (Cells Occ)

-- The loop of next_pow2, on fuel: `n` is halved in each round.
pub next_pow2_loop : ℕ → ℕ → ℕ → ℕ
next_pow2_loop zero n m = m
next_pow2_loop (suc k) n m =
    let rest = next_pow2_loop k (n / 2) (m * 2) in if ltb 0 n then rest else m

pub next_pow2 : ℕ → ℕ
unfolding next_pow2_loop
next_pow2 n = next_pow2_loop n n 1

-- `for (i = 0; i < nhash; i++) occ[i] = EMPTY;` with `k` rounds left.
pub clear_loop : ℕ → ℕ → Cells Occ → Cells Occ
clear_loop zero i occ = occ
clear_loop (suc k) i occ = clear_loop k (i + 1) (update occ i empty)

-- `none` is the result 0. (The callers then give up the whole state.)
pub hash_alloc : Alloc → Table → Option Table
hash_alloc mem t = elim mem.hash [
  | none ↦ none
  | some hash ↦ elim mem.occ [
    | none ↦ none
    | some occ ↦ some (record t { hash = hash; occ = clear_loop t.nhash 0 occ })
  ]
]

pub hash_reset : Alloc → Table → ℕ → Option Table
hash_reset mem t size = hash_alloc mem (record t { nhash = next_pow2 (7 * size) })

-- `h += 2 * (nhash / 4) + 1` in `uint32_t`
pub next_probe : Table → ℕ → ℕ
next_probe t h = (h + (2 * (t.nhash / 4) + 1)) % 2 ^ 32

-- `h & (nhash - 1)`
pub index : Table → ℕ → ℕ
index t h = bit_and h (t.nhash - 1)

-- The loop of do_hash_insert with `k` rounds left; `none` is the result 0.
pub insert_loop : ℕ → Table → ℕ → ℕ → Option Table
insert_loop zero t h crc = none
insert_loop (suc k) t h crc =
    let i = index t h in
    let rest = insert_loop k t (next_probe t h) crc in
    if is_full (t.occ i)
    then (if t.hash i == crc then some t else rest)
    else some (record t { occ = update t.occ i full; hash = update t.hash i crc })

pub do_hash_insert : Table → ℕ → Option Table
do_hash_insert t crc = insert_loop t.nhash t crc crc

-- The loop of gc from slot `i` of the old table `t` on, with `k` slots left.
pub copy_loop : ℕ → ℕ → Table → Table → Option Table
copy_loop zero i t new = some new
copy_loop (suc k) i t new =
    let skip = copy_loop k (i + 1) t new in
    let put : Option Table = elim (do_hash_insert new (t.hash i)) [
      | none ↦ none
      | some new' ↦ copy_loop k (i + 1) t new'
    ] in
    if is_full (t.occ i) then put else skip

pub gc : Alloc → Table → Option Table
gc mem t = elim (hash_alloc mem t) [ none ↦ none | some new ↦ copy_loop t.nhash 0 t new ]

pub hash_insert : Alloc → Table → ℕ → Option Table
hash_insert mem t crc = elim (do_hash_insert t crc) [
  | some t' ↦ some t'
  | none ↦ elim (gc mem t) [ none ↦ none | some t' ↦ do_hash_insert t' crc ]
]

-- The loop of do_hash_contains with `k` rounds left; `none` is the result -1.
pub contains_loop : ℕ → Table → ℕ → ℕ → Option Bool
contains_loop zero t h crc = none
contains_loop (suc k) t h crc =
    let i = index t h in
    let rest = contains_loop k t (next_probe t h) crc in
    if is_empty (t.occ i)
    then some false
    else if is_full (t.occ i) && t.hash i == crc
    then some true
    else rest

pub do_hash_contains : Table → ℕ → Option Bool
do_hash_contains t crc = contains_loop t.nhash t crc crc

-- `none` is `abort()`.
pub hash_contains : Alloc → Table → ℕ → Option (Bool × Table)
hash_contains mem t crc = elim (do_hash_contains t crc) [
  | some b ↦ some (b, t)
  | none ↦ elim (gc mem t) [
    | none ↦ none
    | some t' ↦ elim (do_hash_contains t' crc) [ some b ↦ some (b, t') | none ↦ none ]
  ]
]

-- The loop of do_hash_delete with `k` rounds left; `none` is the result -1.
pub delete_loop : ℕ → Table → ℕ → ℕ → Option (Bool × Table)
delete_loop zero t h crc = none
delete_loop (suc k) t h crc =
    let i = index t h in
    let rest = delete_loop k t (next_probe t h) crc in
    if is_full (t.occ i) && t.hash i == crc
    then some (true, record t { occ = update t.occ i deleted })
    else if is_empty (t.occ i)
    then some (false, t)
    else rest

pub do_hash_delete : Table → ℕ → Option (Bool × Table)
do_hash_delete t crc = delete_loop t.nhash t crc crc

-- `none` is `abort()`.
pub hash_delete : Alloc → Table → ℕ → Option (Bool × Table)
hash_delete mem t crc = elim (do_hash_delete t crc) [
  | some r ↦ some r
  | none ↦ elim (gc mem t) [ none ↦ none | some t' ↦ do_hash_delete t' crc ]
]
