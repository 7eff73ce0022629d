-- ===== src/Xpthread/Port/Sample.antt =====
-- Two ports of two threads, and a message that overlaps neither queue.
use binsort.Base.{
  ℕ, zero, suc, ◌<◌, ◌≢◌, refl, false, not, none, List, [], Cells, update, ltb, ◌==◌, if◌then◌else◌,
  arith,
}
use binsort.Lists.Refine.{IsList}
use binsort.Lists.Frame.{AreDisjoint}
use binsort.Xpthread.Signal.{Signals, Mask, no_signals}
use binsort.Xpthread.Port.{Port, System}
use binsort.Xpthread.Port.Fifo.{IsSystem, IsNew}

-- Every thread has the user port's signal, bit 1.
abbrev pub user_signal : Mask
user_signal x = x == 1

abbrev pub idle_thread : Signals
idle_thread = record {
  sig_free = λ x. not (ltb x 16);
  sig_used = no_signals;
  sig_state = no_signals;
  sig_event = false;
}

-- Port `p` has its queue at `100 + 10 * p`.
abbrev pub two_ports : Cells Port
two_ports p = record {
  queue = if p == 0 then 100 else 110;
  sig_thread = p;
  port_signal = user_signal;
}

-- Both queues are empty: head, tail and tail predecessor of each.
abbrev pub two_queues : Cells ℕ
two_queues = update (update (update (update (λ i. 0) 100 101) 102 100) 110 111) 112 110

abbrev pub two_threads : System
two_threads = record {
  store = two_queues;
  reply_port = λ i. none;
  ports = two_ports;
  threads = λ i. idle_thread;
}

abbrev pub no_messages : Cells (List ℕ)
no_messages p = []

pub two_threads-IsSystem : IsSystem 2 two_threads no_messages
two_threads-IsSystem = record { lists = list; disjoint = apart }
  where
    list : (p : ℕ) → p < 2 → IsList (two_ports p).queue two_queues []
    list zero h = record {
      some_header = omega arith;
      apart = tt;
      chain = tt;
      ending = refl;
      tail_pred = refl;
      tail = refl;
    }
    list (suc zero) h = record {
      some_header = omega arith;
      apart = tt;
      chain = tt;
      ending = refl;
      tail_pred = refl;
      tail = refl;
    }
    list (suc (suc p)) h = absurd (omega (arith, h))

    apart :
        (p p' : ℕ)
        → p < 2
        → p' < 2
        → p ≢ p'
        → AreDisjoint (two_ports p).queue [] (two_ports p').queue []
    apart p p' h h' ne = record { headers = ground arith; outside = tt; outside' = tt; fresh = tt }

pub IsNew-message : IsNew 2 two_threads no_messages 7
IsNew-message p h = (ground arith, tt)
