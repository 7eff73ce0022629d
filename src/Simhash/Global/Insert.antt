-- ===== src/Simhash/Global/Insert.antt =====
-- crc_insert: the features stay the smallest distinct values that were offered.
use native.Mathlib.Decide.{ℕ_discrete, dec_lt}
use binsort.Base.{
  ℕ, ◌<◌, ◌≤◌, ◌≡◌, ◌≢◌, ◌↔◌, ◌⊎◌, refl, ap, ◌∙◌, inl, inr, Bool, true, false, ◌&&◌, some,
  Bool-cases, count, mem_of_count, leb, arith,
}
use binsort.Simhash.Heap.{Heap, heap_insert}
use binsort.Simhash.Table.{Table, hash_contains, hash_insert}
use binsort.Simhash.Table.Valid.{Holds}
use binsort.Simhash.Table.Ops as TableOps
use binsort.Simhash.Table.Collect.{IsSame}
use binsort.Simhash.Global.{Global, Memory, ok, is_full_up, evict, add_new, crc_insert}
use binsort.Simhash.Global.Evict.{Evicted, evict-Evicted, Keeps-le_root}
use binsort.Simhash.Global.Store.{Added, store-Added}
use binsort.Simhash.Global.Agree.{Keeps, IsAgreed, IsRich, SameSizes, IsSame-IsAgreed}

add_new_room :
    (mem : Memory) (sh : Global) (v : ℕ) (h : Heap) (t : Table)
    → is_full_up sh ≡ false
    → hash_insert mem.for_insert sh.table v ≡ some t
    → heap_insert sh.heap v ≡ some h
    → add_new mem sh v ≡ ok (record sh { heap = h; table = t })
unfolding add_new
add_new_room mem sh v h t e i j = rw (e, i, j)

add_new_full :
    (mem : Memory) (sh sh₁ : Global) (v : ℕ) (h : Heap) (t : Table)
    → is_full_up sh ≡ true
    → evict mem sh ≡ ok sh₁
    → hash_insert mem.for_insert sh₁.table v ≡ some t
    → heap_insert sh₁.heap v ≡ some h
    → add_new mem sh v ≡ ok (record sh₁ { heap = h; table = t })
unfolding add_new
add_new_full mem sh sh₁ v h t e w i j = rw (e, w, i, j)

-- What one insertion of `crc` does: the state keeps agreeing, and it keeps `crc` and what it kept,
-- but for the greatest of these where it was full.
pub record Offered (sh : Global) (crc : ℕ) (sh' : Global) : Type 0 where
  pub agreed : IsAgreed sh'
  pub sizes : SameSizes sh sh'
  -- nothing else is kept
  pub only : (w : ℕ) → Keeps sh' w → (w ≡ crc) ⊎ Keeps sh w
  -- what is not kept is above all that is, and the state is full
  pub rest :
      (w : ℕ)
      → (w ≡ crc) ⊎ Keeps sh w
      → Keeps sh' w ⊎ ((sh'.heap.nheap ≡ sh.nfeature) × ((u : ℕ) → Keeps sh' u → u < w))
  -- a full state stays full, and its values do not grow
  pub stays : sh.heap.nheap ≡ sh.nfeature → sh'.heap.nheap ≡ sh.nfeature
  pub lower :
      sh.heap.nheap ≡ sh.nfeature
      → (b : ℕ) → ((u : ℕ) → Keeps sh u → u < b)
      → (u : ℕ) → Keeps sh' u
      → u < b

refused-Offered :
    (sh : Global) (crc : ℕ)
    → IsAgreed sh
    → sh.heap.nheap ≡ sh.nfeature
    → sh.heap.heap 0 ≤ crc
    → Offered sh crc sh
refused-Offered sh crc a filled above = record {
  agreed = a;
  sizes = record { nshingle = refl; nfeature = refl };
  only = λ w k. inr k;
  rest = λ w k. elim (dec_lt 0 (count sh.heap.heap sh.heap.nheap w)) [
    | yes kept ↦ inl kept
    | no lost ↦ elim k [
      | inr kept ↦ absurd (lost kept)
      | inl e ↦ inr (
        filled,
        λ u k'.
            let below = Keeps-le_root sh u a k' in
            let other : u ≢ w = λ same. lost (rw same at k') in omega arith,
      )
    ]
  ];
  stays = λ e. e;
  lower = λ e b bound u k. bound u k;
}

held-Offered :
    (sh sh' : Global) (crc : ℕ)
    → IsAgreed sh'
    → SameSizes sh sh'
    → sh'.heap ≡ sh.heap
    → Keeps sh crc
    → Offered sh crc sh'
held-Offered sh sh' crc a s e k = record {
  agreed = a;
  sizes = s;
  only = λ w k'. inr (rw e at k');
  rest = λ w old. inl (rw e (elim old [ inl same ↦ rw same k | inr kept ↦ kept ]));
  stays = λ full. ap (λ h. h.nheap) e ∙ full;
  lower = λ full b bound u k'. bound u (rw e at k');
}

Added-Offered :
    (sh sh' : Global) (crc : ℕ)
    → Added sh crc sh'
    → sh.heap.nheap < sh.nfeature
    → Offered sh crc sh'
Added-Offered sh sh' crc d room = record {
  agreed = d.agreed;
  sizes = d.sizes;
  only = λ w. (d.kept w).0;
  rest = λ w k. inl ((d.kept w).1 k);
  stays = λ e. absurd (omega arith);
  lower = λ e. absurd (omega arith);
}

replaced-Offered :
    (sh sh₁ sh' : Global) (crc : ℕ)
    → IsAgreed sh
    → Evicted sh (sh.heap.heap 0) sh₁
    → Added sh₁ crc sh'
    → sh.heap.nheap ≡ sh.nfeature
    → crc < sh.heap.heap 0
    → Offered sh crc sh'
replaced-Offered sh sh₁ sh' crc a e d full below =
    let m = sh.heap.heap 0 in
    let kept_below : (u : ℕ) → Keeps sh' u → u < m = λ u k. elim ((d.kept u).0 k) [
      | inl same ↦ omega arith
      | inr old ↦ let (k', ne) = (e.kept u).0 old in omega (arith, e.top u k')
    ] in
    let size : sh'.heap.nheap ≡ sh.nfeature = omega (arith, d.room, e.room) in
    record {
      agreed = d.agreed;
      sizes = record {
        nshingle = d.sizes.nshingle ∙ e.sizes.nshingle;
        nfeature = d.sizes.nfeature ∙ e.sizes.nfeature;
      };
      only =
          λ w k. elim ((d.kept w).0 k) [ inl same ↦ inl same | inr old ↦ inr ((e.kept w).0 old).0 ];
      rest = λ w k. elim k [
        | inl same ↦ inl ((d.kept w).1 (inl same))
        | inr old ↦ elim (ℕ_discrete w m) [
          | no ne ↦ inl ((d.kept w).1 (inr ((e.kept w).1 (old, ne))))
          | yes top ↦ inr (size, λ u k'. rw top (kept_below u k'))
        ]
      ];
      stays = λ f. size;
      lower = λ f b bound u k.
          let root : Keeps sh m =
            mem_of_count sh.heap.heap sh.heap.nheap 0 (omega (arith, a.some_feature)) in
          omega (arith, kept_below u k, bound m root);
    }

-- hash_contains only touches the table.
retable-Offered :
    (sh : Global) (t : Table) (crc : ℕ) (sh' : Global)
    → Offered (record sh { table = t }) crc sh'
    → Offered sh crc sh'
retable-Offered sh t crc sh' o = record {
  agreed = o.agreed;
  sizes = record { nshingle = o.sizes.nshingle; nfeature = o.sizes.nfeature };
  only = o.only;
  rest = o.rest;
  stays = o.stays;
  lower = o.lower;
}

-- A value that is not held, and is below the greatest feature if the state is full, is added.
add_new-Offered :
    (mem : Memory) (sh : Global) (crc : ℕ)
    → IsAgreed sh
    → ¬ Keeps sh crc
    → is_full_up sh && leb (sh.heap.heap 0) crc ≡ false
    → (sh' : Global) × (add_new mem sh crc ≡ ok sh') × Offered sh crc sh'
add_new-Offered mem sh crc a new guard = elim (Bool-cases (is_full_up sh)) [
  | inr open_state ↦
      let room : sh.heap.nheap < sh.nfeature =
        let ne : sh.heap.nheap ≢ sh.nfeature = ground arith in omega (arith, a.within) in
      let (h, t, hashed, put, d) = store-Added mem sh crc a new room in
      (
        record sh { heap = h; table = t },
        add_new_room mem sh crc h t open_state hashed put,
        Added-Offered sh _ crc d room,
      )
  | inl full_state ↦
      let full : sh.heap.nheap ≡ sh.nfeature = ground arith in
      let below : crc < sh.heap.heap 0 = ground arith in
      let (sh₁, ran, e) = evict-Evicted mem sh a (omega (arith, a.some_feature)) in
      let new₁ : ¬ Keeps sh₁ crc = λ k. new ((e.kept crc).0 k).0 in
      let (h, t, hashed, put, d) =
        store-Added mem sh₁ crc e.agreed new₁ (omega (arith, e.room, e.sizes.nfeature)) in
      (
        record sh₁ { heap = h; table = t },
        add_new_full mem sh sh₁ crc h t full_state ran hashed put,
        replaced-Offered sh sh₁ _ crc a e d full below,
      )
]

insert_refused :
    (mem : Memory) (sh : Global) (crc : ℕ)
    → is_full_up sh && leb (sh.heap.heap 0) crc ≡ true
    → crc_insert mem sh crc ≡ ok sh
unfolding crc_insert
insert_refused mem sh crc e = rw e

insert_held :
    (mem : Memory) (sh : Global) (crc : ℕ) (t : Table)
    → is_full_up sh && leb (sh.heap.heap 0) crc ≡ false
    → hash_contains mem.for_contains sh.table crc ≡ some (true, t)
    → crc_insert mem sh crc ≡ ok (record sh { table = t })
unfolding crc_insert
insert_held mem sh crc t e c = rw (e, c)

insert_new :
    (mem : Memory) (sh : Global) (crc : ℕ) (t : Table)
    → is_full_up sh && leb (sh.heap.heap 0) crc ≡ false
    → hash_contains mem.for_contains sh.table crc ≡ some (false, t)
    → crc_insert mem sh crc ≡ add_new mem (record sh { table = t }) crc
unfolding crc_insert
insert_new mem sh crc t e c = rw (e, c)

-- On a state in which heap and table agree, and if a garbage collection finds memory, crc_insert
-- succeeds, keeps heap and table in agreement, and keeps the smallest distinct values that were
-- offered.
pub crc_insert-Offered :
    (mem : Memory) (sh : Global) (crc : ℕ)
    → IsRich mem
    → IsAgreed sh
    → (sh' : Global) × (crc_insert mem sh crc ≡ ok sh') × Offered sh crc sh'
crc_insert-Offered mem sh crc rich a =
    elim (Bool-cases (is_full_up sh && leb (sh.heap.heap 0) crc)) [
      | inl refused ↦ (
        sh,
        insert_refused mem sh crc refused,
        refused-Offered sh crc a (ground arith) (ground arith),
      )
      | inr considered ↦
          let (b, t, asked, says, same) =
            TableOps.hash_contains_correct mem.for_contains sh.table crc rich.for_contains a.table
              (omega (arith, a.filled, a.within, a.spare)) in
          offered_by_answer b t considered asked says same
    ]
  where
    offered_by_answer :
        (b : Bool) (t : Table)
        → is_full_up sh && leb (sh.heap.heap 0) crc ≡ false
        → hash_contains mem.for_contains sh.table crc ≡ some (b, t)
        → (b ≡ true) ↔ Holds sh.table crc
        → IsSame sh.table t
        → (sh' : Global) × (crc_insert mem sh crc ≡ ok sh') × Offered sh crc sh'
    offered_by_answer true t considered asked says same = (
      record sh { table = t },
      insert_held mem sh crc t considered asked,
      held-Offered sh _ crc (IsSame-IsAgreed sh t a same)
          (record { nshingle = refl; nfeature = refl }) refl ((a.same crc).0 (says.0 refl)),
    )
    offered_by_answer false t considered asked says same =
        let new : ¬ Keeps sh crc = λ k. let yes_it_is = says.1 ((a.same crc).1 k) in cc in
        let (sh', ran, o) =
          add_new-Offered mem (record sh { table = t }) crc (IsSame-IsAgreed sh t a same) new
            considered in
        (sh', insert_new mem sh crc t considered asked ∙ ran, retable-Offered sh t crc sh' o)
