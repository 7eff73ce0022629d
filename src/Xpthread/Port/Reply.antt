-- ===== src/Xpthread/Port/Reply.antt =====
-- A request and its reply: how binsort.c sends work to a worker and waits for it.
use native.Mathlib.Decide.{ℕ_discrete}
use binsort.Base.{
  ℕ, ◌<◌, ◌≡◌, ◌≢◌, refl, ap, ◌∙◌, Bool, true, false, Option, none, some, List, [], ◌∷◌, ◌++◌,
  Cells, update,
}
use binsort.Xpthread.Signal.{signal}
use binsort.Xpthread.Signal.Kept.{signal_pending}
use binsort.Xpthread.Port.{System, putmsg, getmsg, replymsg}
use binsort.Xpthread.Port.Fifo.{
  IsSystem, IsNew, update_at, update_off, putmsg-AreQueues, getmsg-AreQueues,
}

-- The signal of a port is pending at its thread once a message has been put.
putmsg-pending :
    (port : ℕ) (reply : Option ℕ) (msg : ℕ) (s : System) (x : ℕ)
    → x < 32
    → (s.ports port).port_signal x ≡ true
    → ((putmsg port reply msg s).threads (s.ports port).sig_thread).sig_state x ≡ true
unfolding putmsg
putmsg-pending port reply msg s x h sent =
    let xpt = (s.ports port).sig_thread in
    let after = signal (s.threads xpt) (s.ports port).port_signal in
    ap (λ t. t.sig_state x) (update_at s.threads xpt xpt after refl)
    ∙ signal_pending (s.threads xpt) (s.ports port).port_signal x h sent

pub getmsg-reply_port :
    (port : ℕ) (s : System) (msg : ℕ) → (getmsg port s).1.reply_port msg ≡ s.reply_port msg
unfolding getmsg
getmsg-reply_port port s msg = refl

putmsg-reply_port :
    (port : ℕ) (reply : Option ℕ) (msg : ℕ) (s : System)
    → (putmsg port reply msg s).reply_port msg ≡ reply
unfolding putmsg
putmsg-reply_port port reply msg s = update_at s.reply_port msg msg reply refl

pub replymsg-some :
    (msg rport : ℕ) (s : System)
    → s.reply_port msg ≡ some rport
    → replymsg msg s ≡ (false, putmsg rport none msg s)
unfolding replymsg
replymsg-some msg rport s e =
    ap
      (λ r. elim r as (λ x. Bool × System) [
        | none ↦ (true, s)
        | some port ↦ (false, putmsg port none msg s)
      ])
      e

-- A message that was new is new again once it has been put and taken.
again-IsNew :
    (n port msg : ℕ) (reply : Option ℕ) (s : System) (q : Cells (List ℕ)) (xs : List ℕ)
    → IsNew n s q msg
    → IsNew n (getmsg port (putmsg port reply msg s)).1 (update (update q port xs) port []) msg
unfolding getmsg putmsg
again-IsNew n port msg reply s q xs new p h = elim (ℕ_discrete port p) [
  | yes e ↦ ((new p h).0, rw (update_at (update q port xs) port p [] e) tt)
  | no ne ↦ (
    (new p h).0,
    rw (update_off (update q port xs) port p [] ne, update_off q port p xs ne) (new p h).1,
  )
]

module _ (n port rport msg : ℕ) (s : System) (q : Cells (List ℕ)) (h : port < n) (hr : rport < n)
    (ne : port ≢ rport) (inv : IsSystem n s q) (new : IsNew n s q msg) (idle : q port ≡ [])
    (idle' : q rport ≡ []) where
  -- Between two different ports with no messages, for a message that overlaps no queue: the port of
  -- the worker gives the request, its reply goes to the port that the sender named, whose thread then
  -- has the signals of the port pending, and that port gives the same message back.
  pub request_reply :
      let s1 = putmsg port (some rport) msg s in
      let s2 = (getmsg port s1).1 in
      let s3 = (replymsg msg s2).1 in
      ((getmsg port s1).0 ≡ some msg)
      × ((replymsg msg s2).0 ≡ false)
      × ((x : ℕ)
          → x < 32
          → (s.ports rport).port_signal x ≡ true
          → (s3.threads (s.ports rport).sig_thread).sig_state x ≡ true)
      × ((getmsg rport s3).0 ≡ some msg)
  unfolding getmsg putmsg
  request_reply =
      let s1 = putmsg port (some rport) msg s in
      let s2 = (getmsg port s1).1 in
      let q1 = update q port (q port ++ msg ∷ []) in
      let q2 = update q1 port [] in
      let sent = putmsg-AreQueues n port (some rport) msg s q h inv new in
      let waiting : q1 port ≡ msg ∷ [] =
        update_at q port port (q port ++ msg ∷ []) refl ∙ ap (λ l. l ++ msg ∷ []) idle in
      let (got, inv2) = getmsg-AreQueues n port msg [] s1 q1 h sent waiting in
      let to_reply : s2.reply_port msg ≡ some rport =
        getmsg-reply_port port s1 msg ∙ putmsg-reply_port port (some rport) msg s in
      let answered = replymsg-some msg rport s2 to_reply in
      let inv3 =
        putmsg-AreQueues n rport none msg s2 q2 hr inv2
          (again-IsNew n port msg (some rport) s q (q port ++ msg ∷ []) new) in
      let empty : q2 rport ≡ [] =
        update_off q1 port rport [] ne ∙ update_off q port rport (q port ++ msg ∷ []) ne ∙ idle' in
      let back : update q2 rport (q2 rport ++ msg ∷ []) rport ≡ msg ∷ [] =
        update_at q2 rport rport (q2 rport ++ msg ∷ []) refl ∙ ap (λ l. l ++ msg ∷ []) empty in
      let returned =
        getmsg-AreQueues n rport msg [] (putmsg rport none msg s2)
          (update q2 rport (q2 rport ++ msg ∷ [])) hr inv3 back in
      rw answered (got, refl, (λ x low sig. putmsg-pending rport none msg s2 x low sig), returned.0)
