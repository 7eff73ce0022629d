-- ===== src/Xpthread/Port.antt =====
-- Message ports: xp_createport, xp_destroyport, xp_putmsg, xp_getmsg and xp_replymsg of xpthread.c.
-- Ports and threads have numbers, messages the addresses of their list nodes. What `malloc` and the making
-- of a mutex return are parameters; the locks of the queues make each of these operations one step.
pub mod Fifo
pub mod Reply
pub mod Sample
mod Tests
use binsort.Base.{ℕ, ◌+◌, Bool, true, false, Option, none, some, Cells, update, if◌then◌else◌}
use binsort.Xpthread.Queue.{initlist, addtail, remhead}
use binsort.Xpthread.Signal.{
  Mask, and_mask, Signals, any_bit, sig_reserved, allocsignal, freesignal, signal,
}

-- `struct XPPort`: the address of its queue, the thread that owns it and its signal.
pub record Port : Type 0 where
  pub queue : ℕ
  pub sig_thread : ℕ
  pub port_signal : Mask

-- The words of the queues, `xpmsg_ReplyPort` of each message, the ports, and the signals of the threads.
pub record System : Type 0 where
  pub store : Cells ℕ
  pub reply_port : Cells (Option ℕ)
  pub ports : Cells Port
  pub threads : Cells Signals

-- xp_createport for a thread with the given signals; the queue is at `queue`. It gives the port, if there is
-- one, the signals of the thread and the store.
unfoldable pub createport :
    Bool → Bool → ℕ → ℕ → Mask → Signals → Cells ℕ → Option Port × Signals × Cells ℕ
createport memory mutex queue xpt prefsig s m =
    let (found, s') =
      if any_bit 32 (and_mask prefsig sig_reserved) then (prefsig, s) else allocsignal s prefsig in
    let port : Port = record { queue = queue; sig_thread = xpt; port_signal = found } in
    if memory
    then (if mutex
        then (if any_bit 32 found then (some port, s', initlist queue m) else (none, s', m))
        else (none, s, m))
    else (none, s, m)

-- What xp_destroyport does to the signals of the port's thread.
unfoldable pub destroyport : Port → Signals → Signals
destroyport port s = freesignal s port.port_signal

unfoldable pub putmsg : ℕ → Option ℕ → ℕ → System → System
putmsg port replyport msg s =
    let p = s.ports port in
    record s {
      store = addtail p.queue msg s.store;
      reply_port = update s.reply_port msg replyport;
      threads = update s.threads p.sig_thread (signal (s.threads p.sig_thread) p.port_signal);
    }

unfoldable pub getmsg : ℕ → System → Option ℕ × System
getmsg port s = let (msg, m) = remhead (s.ports port).queue s.store in (msg, record s { store = m })

-- Whether the message is freed, for it has no reply port, and the system.
unfoldable pub replymsg : ℕ → System → Bool × System
replymsg msg s = elim (s.reply_port msg) [
  | none ↦ (true, s)
  | some port ↦ (false, putmsg port none msg s)
]
