-- ===== src/Binsort/Serve.antt =====
-- binsort_worker: what a worker does with the messages at its port, each time that it has been woken.
-- The handlers of the messages are parameters, functions on whatever they work on; waiting is left out.
pub mod Drained
mod Tests
use binsort.Base.{ℕ, zero, suc, Option, none, some}
use binsort.Xpthread.Port.{System, getmsg, replymsg}

-- `msgtype_t`
pub data MsgType : Type 0 where
  msg_hash msg_calcdist msg_optimize : MsgType

-- binsort_worker_hash, binsort_worker_calcdist and binsort_worker_optimize.
pub record Handlers (S : Type 0) : Type 0 where
  pub worker_hash : ℕ → S → S
  pub worker_calcdist : ℕ → S → S
  pub worker_optimize : ℕ → S → S

-- The switch on `msg_Type`.
unfoldable pub handle : {S : Type 0} → Handlers S → MsgType → ℕ → S → S
handle h msg_hash msg st = h.worker_hash msg st
handle h msg_calcdist msg st = h.worker_calcdist msg st
handle h msg_optimize msg st = h.worker_optimize msg st

-- The loop over getmsg, with `fuel` rounds at most; `none` when they do not suffice.
unfoldable pub serve :
    {S : Type 0} → Handlers S → (ℕ → MsgType) → ℕ → ℕ → System → S → Option (System × S)
serve h msg_type zero port s st = none
serve h msg_type (suc fuel) port s st =
    let next = getmsg port s in
    elim next.0 [
      | none ↦ some (next.1, st)
      | some msg ↦
          serve h msg_type fuel port (replymsg msg next.1).1 (handle h (msg_type msg) msg st)
    ]
