-- ===== src/Xpthread/Thread.antt =====
-- The end of a thread: xpi_threadentry, xp_refthread, xp_unrefthread and the loop of xp_destroythread of xpthread.c,
-- from when xp_createthread has returned the thread.
-- Each step is one with the base lock held, or one signal. The thread that destroys it is its parent, as in
-- binsort.c. A reference is to a thread of the name that is looked for, and their number stays below 2^64.
pub mod Destroyed
mod Tests
use binsort.Base.{ℕ, ◌+◌, ◌-◌, ◌<◌, ◌≡◌, Bool, true, false, ◌&&◌, ◌==◌, if◌then◌else◌}

-- `xpt_Status`
pub data Status : Type 0 where
  init run dead : Status

-- What xp_destroythread does next: look at the thread, or wait for XPT_SIG_SYNC; or it has taken the thread off.
pub data Destroyer : Type 0 where
  scanning waiting done : Destroyer

-- `xpt_Status`, `xpt_RefCount`, whether the thread has yet to send its last signal, whether XPT_SIG_SYNC is set at
-- the parent, and whether the thread is in `xpi_Tasks`.
pub record Life : Type 0 where
  pub status : Status
  pub ref_count : ℕ
  pub ending : Bool
  pub sync : Bool
  pub listed : Bool
  pub destroyer : Destroyer

-- What xp_createthread has left.
abbrev pub created : Life
created = record {
  status = init;
  ref_count = 0;
  ending = false;
  sync = false;
  listed = true;
  destroyer = scanning;
}

abbrev pub is_dead : Status → Bool
is_dead init = false
is_dead run = false
is_dead dead = true

-- xpi_threadentry, before and behind the thread's function, and its signal to the parent.
unfoldable pub begin : Life → Life
begin t = record t { status = run }

unfoldable pub finish : Life → Life
finish t = record t { status = dead; ending = true }

unfoldable pub send_sync : Life → Life
send_sync t = record t { ending = false; sync = true }

-- Threads that are dead, or not in the list, are not found.
unfoldable pub refthread : Life → Life
refthread t =
    if is_dead t.status then t else if t.listed then record t { ref_count = t.ref_count + 1 } else t

unfoldable pub unrefthread : Life → Life
unrefthread t =
    if t.ref_count - 1 == 0
    then record t { ref_count = 0; sync = true }
    else record t { ref_count = t.ref_count - 1 }

-- The search of xp_destroythread.
unfoldable pub scan : Life → Life
scan t =
    if is_dead t.status && t.ref_count == 0 && t.listed
    then record t { listed = false; destroyer = done }
    else record t { destroyer = waiting }

-- xp_wait comes back once the signal is set, and clears it.
unfoldable pub wait_sync : Life → Life
wait_sync t = if t.sync then record t { sync = false; destroyer = scanning } else t

-- What the thread and the one that destroys it do.
pub data Own (t : Life) : Life → Type 0 where
  begun : t.status ≡ init → Own t (begin t)
  finished : t.status ≡ run → Own t (finish t)
  sent : t.ending ≡ true → Own t (send_sync t)
  scanned : t.destroyer ≡ scanning → Own t (scan t)
  woken : t.destroyer ≡ waiting → Own t (wait_sync t)

-- Or others: take and give back references, and signal the parent for another reason.
pub data Step (t : Life) : Life → Type 0 where
  own : {t' : Life} → Own t t' → Step t t'
  referenced : Step t (refthread t)
  unreferenced : 0 < t.ref_count → Step t (unrefthread t)
  signalled : Step t (record t { sync = true })

pub data Reachable : Life → Type 0 where
  start : Reachable created
  next : {t t' : Life} → Reachable t → Step t t' → Reachable t'

-- Any number of steps of the thread and the one that destroys it.
pub data Owns (t : Life) : Life → Type 0 where
  stay : Owns t t
  more : {t' t'' : Life} → Owns t t' → Own t' t'' → Owns t t''
