-- ===== src/Binsort/Serve/Tests.antt =====
-- A worker at port 1 of two threads, with two messages from the thread of port 0.
use binsort.Base.{
  ℕ, zero, suc, ◌+◌, ◌≡◌, refl, some, List, [], ◌∷◌, ◌++◌, Cells, update, ◌==◌, if◌then◌else◌,
  arith,
}
use binsort.Xpthread.Port.{System, putmsg}
use binsort.Xpthread.Port.Fifo.{IsSystem, IsNew, putmsg-AreQueues}
use binsort.Xpthread.Port.Sample.{two_threads, no_messages, two_threads-IsSystem, IsNew-message}
use binsort.Binsort.Serve.{MsgType, msg_hash, msg_calcdist, Handlers, handle, serve}
use binsort.Binsort.Serve.Drained.{handle_all, AreMoved, serve_correct}

-- What has been done is written down.
abbrev writing : Handlers (List ℕ)
writing = record {
  worker_hash = λ msg done. done ++ msg ∷ [];
  worker_calcdist = λ msg done. done ++ (100 + msg) ∷ [];
  worker_optimize = λ msg done. done;
}

abbrev msg_type : ℕ → MsgType
msg_type msg = if msg == 7 then msg_hash else msg_calcdist

abbrev one_sent : System
one_sent = putmsg 1 (some 0) 7 two_threads

abbrev one_waits : Cells (List ℕ)
one_waits = update no_messages 1 (7 ∷ [])

abbrev two_sent : System
two_sent = putmsg 1 (some 0) 20 one_sent

abbrev two_wait : Cells (List ℕ)
two_wait = update one_waits 1 (7 ∷ 20 ∷ [])

one_sent-IsSystem : IsSystem 2 one_sent one_waits
one_sent-IsSystem =
    putmsg-AreQueues 2 1 (some 0) 7 two_threads no_messages (omega arith) two_threads-IsSystem
      IsNew-message

IsNew-second : IsNew 2 one_sent one_waits 20
unfolding putmsg
IsNew-second zero h = (ground arith, tt)
IsNew-second (suc zero) h = (ground arith, (ground arith, tt))
IsNew-second (suc (suc p)) h = absurd (omega (arith, h))

two_sent-IsSystem : IsSystem 2 two_sent two_wait
two_sent-IsSystem =
    putmsg-AreQueues 2 1 (some 0) 20 one_sent one_waits (omega arith) one_sent-IsSystem IsNew-second

both_handled : handle_all writing msg_type (7 ∷ 20 ∷ []) [] ≡ 7 ∷ 120 ∷ []
unfolding handle_all handle
both_handled = refl

serve_correct_example :
    (s' : System) × (q' : Cells (List ℕ)) × (serve writing msg_type 3 1 two_sent []
      ≡ some (s', handle_all writing msg_type (7 ∷ 20 ∷ []) []))
    × IsSystem 2 s' q'
    × AreMoved 1 0 (7 ∷ 20 ∷ []) two_wait q'
unfolding putmsg
serve_correct_example =
    serve_correct writing msg_type 2 1 0 (omega arith) (omega arith) (omega arith) 3 (7 ∷ 20 ∷ [])
      two_sent two_wait [] two_sent-IsSystem refl (refl, (refl, tt)) (omega arith)
