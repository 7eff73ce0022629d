-- ===== src/Binsort/Serve/Drained.antt =====
-- A worker that has been woken handles all messages of its port and replies to each of them.
use native.Mathlib.Decide.{ℕ_discrete}
use mathlib.Core.Path.{subst}
use mathlib.Core.List.{append-nil, append_assoc}
use binsort.Base.{
  ℕ, zero, suc, ◌<◌, ◌≡◌, ◌≢◌, refl, sym, ap, ◌∙◌, Option, none, some, List, [], ◌∷◌, ◌++◌, Cells,
  update, All, length, arith,
}
use binsort.Lists.Segment.{IsFresh, IsOutside, IsApart-comm}
use binsort.Lists.Refine.{IsList}
use binsort.Lists.Frame.{AllFresh}
use binsort.Xpthread.Port.{System, putmsg, getmsg, replymsg}
use binsort.Xpthread.Port.Fifo.{
  IsSystem, IsNew, update_at, update_off, putmsg-AreQueues, getmsg-AreQueues, getmsg-none,
}
use binsort.Xpthread.Port.Reply.{replymsg-some, getmsg-reply_port}
use binsort.Binsort.Serve.{MsgType, Handlers, handle, serve}

-- What the messages make of `st`, one after the other.
unfoldable pub handle_all : {S : Type 0} → Handlers S → (ℕ → MsgType) → List ℕ → S → S
handle_all h msg_type [] st = st
handle_all h msg_type (msg ∷ msgs) st = handle_all h msg_type msgs (handle h (msg_type msg) msg st)

-- All these messages are to be replied to at `rport`.
abbrev pub AllReplyTo : ℕ → Cells (Option ℕ) → List ℕ → Type 0
AllReplyTo rport reply_port msgs = All (λ msg. reply_port msg ≡ some rport) msgs

-- From `q` to `q'`, `msgs` have gone from `port` to `rport`.
pub record AreMoved (port rport : ℕ) (msgs : List ℕ) (q q' : Cells (List ℕ)) : Type 0 where
  pub emptied : q' port ≡ []
  pub replied : q' rport ≡ q rport ++ msgs
  pub others : (p : ℕ) → p ≢ port → p ≢ rport → q' p ≡ q p

AllReplyTo-update :
    (rport msg : ℕ) (reply_port : Cells (Option ℕ)) (msgs : List ℕ)
    → IsFresh msg msgs
    → AllReplyTo rport reply_port msgs
    → AllReplyTo rport (update reply_port msg none) msgs
AllReplyTo-update rport msg reply_port [] f a = tt
AllReplyTo-update rport msg reply_port (x ∷ xs) (apart, f) (e, a) = (
  update_off reply_port msg x none (λ same. omega (arith, apart, same)) ∙ e,
  AllReplyTo-update rport msg reply_port xs f a,
)

IsFresh-first : (n : ℕ) (xs ys : List ℕ) → AllFresh (n ∷ xs) ys → IsFresh n ys
IsFresh-first n xs [] a = tt
IsFresh-first n xs (y ∷ ys) ((apart, g), a) = (IsApart-comm y n apart, IsFresh-first n xs ys a)

-- A message that has been taken from its port overlaps no queue.
taken-IsNew :
    (n port msg : ℕ) (rest : List ℕ) (s : System) (q : Cells (List ℕ))
    → port < n
    → IsSystem n s q
    → q port ≡ msg ∷ rest
    → IsNew n (getmsg port s).1 (update q port rest) msg × IsFresh msg rest
unfolding getmsg
taken-IsNew n port msg rest s q h inv e =
    let l : IsList (s.ports port).queue s.store (msg ∷ rest) = rw e at (inv.lists port h) in
    let (out, fresh, apart) = l.apart in
    (
      λ p low. elim (ℕ_discrete port p) [
        | yes same ↦
            rw (update_at q port p rest same)
              (subst (λ i. IsOutside (s.ports i).queue msg) same out, fresh)
        | no other ↦
            let d = rw e at (inv.disjoint port p h low other) in
            rw (update_off q port p rest other) (d.outside'.0, IsFresh-first msg rest (q p) d.fresh)
      ],
      fresh,
    )

module _ {S : Type 0} (h : Handlers S) (msg_type : ℕ → MsgType) (fuel port : ℕ) (s : System)
    (st : S) where
  serve-none :
      (getmsg port s).0 ≡ none
      → serve h msg_type (suc fuel) port s st ≡ some ((getmsg port s).1, st)
  unfolding serve
  serve-none e =
      ap
        (λ o. elim o as (λ x. Option (System × S)) [
          | none ↦ some ((getmsg port s).1, st)
          | some msg ↦
              serve h msg_type fuel port (replymsg msg (getmsg port s).1).1
                (handle h (msg_type msg) msg st)
        ])
        e

  serve-some :
      (msg : ℕ)
      → (getmsg port s).0 ≡ some msg
      → serve h msg_type (suc fuel) port s st
        ≡ serve h msg_type fuel port
            (replymsg msg (getmsg port s).1).1
            (handle h (msg_type msg) msg st)
  unfolding serve
  serve-some msg e =
      ap
        (λ o. elim o as (λ x. Option (System × S)) [
          | none ↦ some ((getmsg port s).1, st)
          | some msg ↦
              serve h msg_type fuel port (replymsg msg (getmsg port s).1).1
                (handle h (msg_type msg) msg st)
        ])
        e

-- One message has gone before the others.
AreMoved-first :
    (port rport msg : ℕ) (rest : List ℕ) (q q' : Cells (List ℕ))
    → port ≢ rport
    → AreMoved port rport rest
        (update (update q port rest) rport (update q port rest rport ++ msg ∷ []))
        q'
    → AreMoved port rport (msg ∷ rest) q q'
AreMoved-first port rport msg rest q q' ne moved = record {
  emptied = moved.emptied;
  replied =
      moved.replied
      ∙ ap (λ l. l ++ rest)
          (update_at (update q port rest) rport rport (update q port rest rport ++ msg ∷ []) refl
            ∙ ap (λ l. l ++ msg ∷ []) (update_off q port rport rest ne))
      ∙ append_assoc (q rport) (msg ∷ []) rest;
  others = λ p off off'.
      moved.others p off off'
      ∙ update_off (update q port rest) rport p (update q port rest rport ++ msg ∷ [])
          (λ e. off' (sym e))
      ∙ update_off q port p rest (λ e. off (sym e));
}

module _ {S : Type 0} (h : Handlers S) (msg_type : ℕ → MsgType) (n port rport : ℕ) (low : port < n)
    (low' : rport < n) (ne : port ≢ rport) where
  -- With more rounds than messages at its port, all to be replied to at one other port, and queues
  -- with no word in common, a worker handles all of them in their order; they are then at the reply
  -- port in this order, behind what it had, the port of the worker is empty, and no other queue of
  -- the store changes.
  pub serve_correct :
      (fuel : ℕ) (msgs : List ℕ) (s : System) (q : Cells (List ℕ)) (st : S)
      → IsSystem n s q
      → q port ≡ msgs
      → AllReplyTo rport s.reply_port msgs
      → length msgs < fuel
      → (s' : System) × (q' : Cells (List ℕ)) × (serve h msg_type fuel port s st
          ≡ some (s', handle_all h msg_type msgs st))
        × IsSystem n s' q'
        × AreMoved port rport msgs q q'
  unfolding handle_all getmsg putmsg
  serve_correct zero msgs s q st inv e to_reply enough = absurd (omega (arith, enough))
  serve_correct (suc fuel) [] s q st inv e to_reply enough =
      let got = getmsg-none n port s q low inv e in
      (
        s,
        q,
        serve-none h msg_type fuel port s st (ap (λ r. r.0) got) ∙ ap (λ r. some (r.1, st)) got,
        inv,
        record { emptied = e; replied = sym (append-nil (q rport)); others = λ p off off'. refl },
      )
  serve_correct (suc fuel) (msg ∷ rest) s q st inv e (reply, to_reply) enough =
      let (got, inv1) = getmsg-AreQueues n port msg rest s q low inv e in
      let s1 = (getmsg port s).1 in
      let q1 = update q port rest in
      let (new, fresh) = taken-IsNew n port msg rest s q low inv e in
      let answered = replymsg-some msg rport s1 (getmsg-reply_port port s msg ∙ reply) in
      let inv2 = putmsg-AreQueues n rport none msg s1 q1 low' inv1 new in
      let (s', q', done, inv', moved) =
        serve_correct fuel rest (putmsg rport none msg s1) (update q1 rport (q1 rport ++ msg ∷ []))
          (handle h (msg_type msg) msg st) inv2
          (update_off q1 rport port (q1 rport ++ msg ∷ []) (λ same. ne (sym same))
            ∙ update_at q port port rest refl)
          (AllReplyTo-update rport msg s.reply_port rest fresh to_reply) (omega (arith, enough)) in
      (
        s',
        q',
        serve-some h msg_type fuel port s st msg got
            ∙ ap (λ r. serve h msg_type fuel port r.1 (handle h (msg_type msg) msg st)) answered
            ∙ done,
        inv',
        AreMoved-first port rport msg rest q q' ne moved,
      )
