-- ===== src/Simhash/Table/Valid.antt =====
-- What a table holds, and when its probe paths are sound.
use binsort.Base.{
  ℕ, suc, ◌+◌, ◌*◌, ◌/◌, ◌^◌, ◌≤◌, ◌<◌, ◌≡◌, ◌≢◌, ◌∙◌, refl, sym, ap, inl, inr, zero, Cells, update,
  bit, Bool-cases, arith,
}
use native.Mathlib.Nat.{mod-lt}
use native.Mathlib.Decide.{ℕ_discrete, dec_lt}
use binsort.Base.Bits.{two_pow_pos}
use binsort.Simhash.Table.{Table, Occ, empty, full, deleted, is_full}
use binsort.Simhash.Table.Probe.{slot, slot_reaches}

-- Some full slot has the value.
abbrev pub Holds : Table → ℕ → Type 0
Holds t v = (i : ℕ) × (i < t.nhash) × (t.occ i ≡ full) × (t.hash i ≡ v)

-- The slot of round `c` for the value `v`.
abbrev pub probe : Table → ℕ → ℕ → ℕ
probe t v c = slot t.nhash v c

-- In the first `c` rounds no slot was empty, and none was full with the value.
abbrev pub Missed : Table → ℕ → ℕ → Type 0
Missed t v c =
    (d : ℕ)
    → d < c
    → (t.occ (probe t v d) ≢ empty) × (t.occ (probe t v d) ≡ full → t.hash (probe t v d) ≢ v)

-- The size is a power of two, each value is found on its probe path before an empty slot, and no
-- value stands twice.
pub record IsValid (t : Table) : Type 0 where
  pub log : ℕ
  pub log_le : log ≤ 32
  pub size : t.nhash ≡ 2 ^ log
  pub path :
      (i : ℕ)
      → i < t.nhash
      → t.occ i ≡ full
      → (c : ℕ) × (c < t.nhash)
        × (probe t (t.hash i) c ≡ i)
        × ((d : ℕ) → d < c → t.occ (probe t (t.hash i) d) ≢ empty)
  pub unique :
      (i j : ℕ)
      → i < t.nhash
      → j < t.nhash
      → t.occ i ≡ full
      → t.occ j ≡ full
      → t.hash i ≡ t.hash j
      → i ≡ j

pub nhash_pos : {t : Table} → IsValid t → 0 < t.nhash
nhash_pos v = omega (arith, two_pow_pos v.log, v.size)

pub probe_lt : {t : Table} → IsValid t → (v c : ℕ) → probe t v c < t.nhash
probe_lt {t} valid v c = mod-lt (v + c * (2 * (t.nhash / 4) + 1)) (nhash_pos valid)

-- Every slot is probed in some round.
pub probe_reaches :
    {t : Table} → IsValid t → (v i : ℕ) → i < t.nhash → (c : ℕ) × (c < t.nhash) × (probe t v c ≡ i)
probe_reaches {t} valid v i h =
    let (c, lt, e) = slot_reaches valid.log v i (omega (arith, valid.size)) in
    (c, omega (arith, valid.size), ap (λ n. slot n v c) valid.size ∙ e)

-- A value missed in all rounds is not held.
pub Missed-everywhere : {t : Table} (v : ℕ) → IsValid t → Missed t v t.nhash → ¬ Holds t v
Missed-everywhere {t} v valid m (i, h, occupied, same) =
    let (c, lt, e) = probe_reaches valid v i h in
    (m c lt).1 (ap t.occ e ∙ occupied) (ap t.hash e ∙ same)

-- A value missed up to an empty slot is not held.
pub Missed-until_empty :
    {t : Table} (v c : ℕ) → IsValid t → Missed t v c → t.occ (probe t v c) ≡ empty → ¬ Holds t v
Missed-until_empty {t} v c valid m gap (i, h, occupied, same) =
    let (d, lt, e, free) = valid.path i h occupied in
    let at : probe t v d ≡ i = ap (λ w. probe t w d) (sym same) ∙ e in
    elim (dec_lt d c) [
      | yes before ↦ (m d before).1 (ap t.occ at ∙ occupied) (ap t.hash at ∙ same)
      | no after ↦ elim (ℕ_discrete d c) [
        | yes here ↦ cc (sym (ap t.occ at ∙ occupied), ap (λ k. t.occ (probe t v k)) here, gap)
        | no past ↦ free c (omega arith) (ap (λ w. t.occ (probe t w c)) same ∙ gap)
      ]
    ]

-- How many of the first `n` slots are full.
pub count_full : Cells Occ → ℕ → ℕ
count_full occ zero = 0
count_full occ (suc n) = bit (is_full (occ n)) + count_full occ n

abbrev pub occupied : Table → ℕ
occupied t = count_full t.occ t.nhash

pub count_full-zero : (occ : Cells Occ) → count_full occ 0 ≡ 0
unfolding count_full
count_full-zero occ = refl

pub count_full-suc :
    (occ : Cells Occ) (n : ℕ) → count_full occ (suc n) ≡ bit (is_full (occ n)) + count_full occ n
unfolding count_full
count_full-suc occ n = refl

count_full-update_above :
    (occ : Cells Occ) (n i : ℕ) (o : Occ) → n ≤ i → count_full (update occ i o) n ≡ count_full occ n
unfolding count_full
count_full-update_above occ zero i o h = refl
count_full-update_above occ (suc n) i o h = ground (arith, count_full-update_above occ n i o)

pub count_full-update :
    (occ : Cells Occ) (n i : ℕ) (o : Occ)
    → i < n
    → count_full (update occ i o) n + bit (is_full (occ i)) ≡ count_full occ n + bit (is_full o)
unfolding count_full
count_full-update occ zero i o h = absurd (omega arith)
count_full-update occ (suc n) i o h =
    ground (arith, count_full-update occ n i o, count_full-update_above occ n i o)

-- Where not all slots are full there is one that is not.
pub free_slot :
    (occ : Cells Occ) (n : ℕ) → count_full occ n < n → (i : ℕ) × (i < n) × (occ i ≢ full)
unfolding count_full
free_slot occ zero h = absurd (omega arith)
free_slot occ (suc n) h = elim (Bool-cases (is_full (occ n))) [
  | inr open_slot ↦ (n, omega arith, ground arith)
  | inl taken ↦ let (i, lt, ne) = free_slot occ n (ground arith) in (i, omega arith, ne)
]

-- No slot is marked as deleted.
abbrev pub IsClean : Table → Type 0
IsClean t = (i : ℕ) → i < t.nhash → t.occ i ≢ deleted
