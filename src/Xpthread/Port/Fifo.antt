-- ===== src/Xpthread/Port/Fifo.antt =====
-- Each port is a queue of its own: messages come out in the order they were put in, whatever the other ports
-- of the same store hold.
use native.Mathlib.Decide.{ℕ_discrete}
use binsort.Base.{
  ℕ, ◌<◌, ◌≡◌, ◌≢◌, sym, ap, ◌∙◌, Option, none, some, List, [], ◌∷◌, ◌++◌, Cells, update, arith,
}
use binsort.Lists.Segment.{IsFresh, IsOutside, IsApart-comm, IsFresh-join}
use binsort.Lists.Refine.{IsList}
use binsort.Lists.Frame.{AllOutside, AllFresh, AreDisjoint}
use binsort.Xpthread.Queue.{addtail, remhead}
use binsort.Xpthread.Queue.Refine.{
  addtail-IsList, addtail_other, remhead-empty, remhead-first, remhead_other,
}
use binsort.Xpthread.Port.{Port, System, putmsg, getmsg}

-- In this store the first `n` ports hold the messages that `q` says, and no two of them overlap.
pub record AreQueues (n : ℕ) (ports : Cells Port) (m : Cells ℕ) (q : Cells (List ℕ)) : Type 0 where
  pub lists : (p : ℕ) → p < n → IsList (ports p).queue m (q p)
  pub disjoint :
      (p p' : ℕ)
      → p < n
      → p' < n
      → p ≢ p'
      → AreDisjoint (ports p).queue (q p) (ports p').queue (q p')

abbrev pub IsSystem : ℕ → System → Cells (List ℕ) → Type 0
IsSystem n s q = AreQueues n s.ports s.store q

-- The message overlaps no queue of the first `n` ports.
abbrev pub IsNew : ℕ → System → Cells (List ℕ) → ℕ → Type 0
IsNew n s q msg = (p : ℕ) → p < n → IsOutside (s.ports p).queue msg × IsFresh msg (q p)

pub update_at : {A : Type 0} (a : Cells A) (i j : ℕ) (v : A) → i ≡ j → update a i v j ≡ v
update_at a i j v e = ground (arith, e)

pub update_off : {A : Type 0} (a : Cells A) (i j : ℕ) (v : A) → i ≢ j → update a i v j ≡ a j
update_off a i j v ne = ground (arith, ne)

outside_join :
    (h : ℕ) (xs ys : List ℕ) → AllOutside h xs → AllOutside h ys → AllOutside h (xs ++ ys)
outside_join h [] ys a b = b
outside_join h (x ∷ xs) ys (out, a) b = (out, outside_join h xs ys a b)

AllFresh-join :
    (xs ys : List ℕ) (n : ℕ) → AllFresh ys xs → IsFresh n ys → AllFresh ys (xs ++ n ∷ [])
AllFresh-join [] ys n a f = (f, tt)
AllFresh-join (x ∷ xs) ys n (g, a) f = (g, AllFresh-join xs ys n a f)

fresh_of_all : (xs ys : List ℕ) (n : ℕ) → AllFresh xs ys → IsFresh n ys → AllFresh (xs ++ n ∷ []) ys
fresh_of_all xs [] n a f = tt
fresh_of_all xs (y ∷ ys) n (g, a) (apart, f) =
    (IsFresh-join y xs (n ∷ []) g (IsApart-comm n y apart, tt), fresh_of_all xs ys n a f)

AllFresh-tail : (n : ℕ) (xs ys : List ℕ) → AllFresh (n ∷ xs) ys → AllFresh xs ys
AllFresh-tail n xs [] a = tt
AllFresh-tail n xs (y ∷ ys) ((apart, g), a) = (g, AllFresh-tail n xs ys a)

disjoint_added :
    (h h' n : ℕ) (xs ys : List ℕ)
    → AreDisjoint h xs h' ys
    → IsOutside h' n
    → IsFresh n ys
    → AreDisjoint h (xs ++ n ∷ []) h' ys
disjoint_added h h' n xs ys d out f = record {
  headers = d.headers;
  outside = d.outside;
  outside' = outside_join h' xs (n ∷ []) d.outside' (out, tt);
  fresh = fresh_of_all xs ys n d.fresh f;
}

disjoint_added' :
    (h h' n : ℕ) (xs ys : List ℕ)
    → AreDisjoint h' ys h xs
    → IsOutside h' n
    → IsFresh n ys
    → AreDisjoint h' ys h (xs ++ n ∷ [])
disjoint_added' h h' n xs ys d out f = record {
  headers = d.headers;
  outside = outside_join h' xs (n ∷ []) d.outside (out, tt);
  outside' = d.outside';
  fresh = AllFresh-join xs ys n d.fresh f;
}

disjoint_taken :
    (h h' n : ℕ) (xs ys : List ℕ) → AreDisjoint h (n ∷ xs) h' ys → AreDisjoint h xs h' ys
disjoint_taken h h' n xs ys d =
    let (out, others) = d.outside' in
    record {
      headers = d.headers;
      outside = d.outside;
      outside' = others;
      fresh = AllFresh-tail n xs ys d.fresh;
    }

disjoint_taken' :
    (h h' n : ℕ) (xs ys : List ℕ) → AreDisjoint h' ys h (n ∷ xs) → AreDisjoint h' ys h xs
disjoint_taken' h h' n xs ys d =
    let (out, others) = d.outside in
    let (apart, fresh) = d.fresh in
    record { headers = d.headers; outside = others; outside' = d.outside'; fresh = fresh }

-- Two queues with no word in common, whichever comes first.
abbrev AreSeparate : ℕ → List ℕ → ℕ → List ℕ → Type 0
AreSeparate h xs h' ys = AreDisjoint h xs h' ys × AreDisjoint h' ys h xs

-- The queues of all ports after that of `port` has become `xs`.
changed-AreQueues :
    (n port : ℕ) (ports : Cells Port) (m m' : Cells ℕ) (q : Cells (List ℕ)) (xs : List ℕ)
    → IsList (ports port).queue m' xs
    → ((p : ℕ) → p < n → port ≢ p → IsList (ports p).queue m' (q p))
    → ((p : ℕ) → p < n → port ≢ p → AreSeparate (ports port).queue xs (ports p).queue (q p))
    → AreQueues n ports m q
    → AreQueues n ports m' (update q port xs)
changed-AreQueues n port ports m m' q xs here others apart inv = record {
  lists = λ p h. elim (ℕ_discrete port p) [
    | yes e ↦ rw (update_at q port p xs e) (rw e at here)
    | no ne ↦ rw (update_off q port p xs ne) (others p h ne)
  ];
  disjoint = λ p p' h h' other. elim (ℕ_discrete port p) [
    | yes e ↦
        let ne' : port ≢ p' = λ e'. other (sym e ∙ e') in
        rw (update_at q port p xs e, update_off q port p' xs ne') (rw e at (apart p' h' ne').0)
    | no ne ↦ elim (ℕ_discrete port p') [
      | yes e' ↦
          rw (update_at q port p' xs e', update_off q port p xs ne) (rw e' at (apart p h ne).1)
      | no ne' ↦
          rw (update_off q port p xs ne, update_off q port p' xs ne') (inv.disjoint p p' h h' other)
    ]
  ];
}

-- Where the ports are queues with no word in common, putting a message that overlaps none of them adds
-- it behind those of its port, and changes no other queue of the same store.
pub putmsg-AreQueues :
    (n port : ℕ) (reply : Option ℕ) (msg : ℕ) (s : System) (q : Cells (List ℕ))
    → port < n
    → IsSystem n s q
    → IsNew n s q msg
    → IsSystem n (putmsg port reply msg s) (update q port (q port ++ msg ∷ []))
unfolding putmsg
putmsg-AreQueues n port reply msg s q h inv new =
    let queue = (s.ports port).queue in
    let l = inv.lists port h in
    changed-AreQueues n port s.ports s.store (addtail queue msg s.store) q (q port ++ msg ∷ [])
      (addtail-IsList queue msg s.store (q port) l (new port h).0 (new port h).1)
      (λ p low ne.
        addtail_other queue msg (s.ports p).queue s.store (q port) (q p) l
          (inv.disjoint port p h low ne) (new p low).0 (new p low).1 (inv.lists p low))
      (λ p low ne. (
        disjoint_added queue (s.ports p).queue msg (q port) (q p) (inv.disjoint port p h low ne)
            (new p low).0 (new p low).1,
        disjoint_added' queue (s.ports p).queue msg (q port) (q p)
            (inv.disjoint p port low h (λ e. ne (sym e))) (new p low).0 (new p low).1,
      ))
      inv

-- An empty port gives no message and nothing changes.
pub getmsg-none :
    (n port : ℕ) (s : System) (q : Cells (List ℕ))
    → port < n
    → IsSystem n s q
    → q port ≡ []
    → getmsg port s ≡ (none, s)
unfolding getmsg
getmsg-none n port s q h inv e =
    let none_there = remhead-empty (s.ports port).queue s.store (rw e at (inv.lists port h)) in
    ap (λ r. (r.0, record s { store = r.1 })) none_there

-- Where the ports are queues with no word in common, a port with messages gives the first of them and
-- keeps the others, and no other queue of the same store changes.
pub getmsg-AreQueues :
    (n port msg : ℕ) (rest : List ℕ) (s : System) (q : Cells (List ℕ))
    → port < n
    → IsSystem n s q
    → q port ≡ msg ∷ rest
    → ((getmsg port s).0 ≡ some msg) × IsSystem n (getmsg port s).1 (update q port rest)
unfolding getmsg
getmsg-AreQueues n port msg rest s q h inv e =
    let queue = (s.ports port).queue in
    let l : IsList queue s.store (msg ∷ rest) = rw e at (inv.lists port h) in
    let first = remhead-first queue msg s.store rest l in
    let apart = λ (p : ℕ) (low : p < n) (ne : port ≢ p). rw e at (inv.disjoint port p h low ne) in
    let apart' = λ (p : ℕ) (low : p < n) (ne : port ≢ p).
      rw e at (inv.disjoint p port low h (λ e. ne (sym e))) in
    (
      first.0,
      changed-AreQueues n port s.ports s.store (remhead queue s.store).1 q rest first.1
          (λ p low ne.
            remhead_other queue msg (s.ports p).queue s.store rest (q p) l (apart p low ne)
              (inv.lists p low))
          (λ p low ne. (
            disjoint_taken queue (s.ports p).queue msg rest (q p) (apart p low ne),
            disjoint_taken' queue (s.ports p).queue msg rest (q p) (apart' p low ne),
          ))
          inv,
    )
