-- ===== src/Xpthread/Signal.antt =====
-- The signals of a thread: xp_allocsignal, xp_freesignal, xp_signal, xp_setsignal and xp_wait of
-- xpthread.c. Each runs with the thread's lock held. An XPSIGMASK is a function from the 32 positions
-- of its bits.
pub mod Kept
use binsort.Base.{
  ℕ, zero, suc, ◌+◌, ◌-◌, Bool, true, false, not, ◌&&◌, ◌||◌, Option, none, some, ltb, ◌==◌,
  if◌then◌else◌,
}

abbrev pub Mask : Type 0
Mask = ℕ → Bool

abbrev pub and_mask : Mask → Mask → Mask
and_mask a b x = a x && b x

abbrev pub or_mask : Mask → Mask → Mask
or_mask a b x = a x || b x

-- `a & ~b`
abbrev pub and_not : Mask → Mask → Mask
and_not a b x = a x && not (b x)

abbrev pub no_signals : Mask
no_signals x = false

-- Whether one of the first `n` bits is set.
unfoldable pub any_bit : ℕ → Mask → Bool
any_bit zero a = false
any_bit (suc n) a = a n || any_bit n a

-- The fields of `struct XPThread` under `xpt_SigLock`, and whether `xpt_SigEvent` was signalled.
pub record Signals : Type 0 where
  pub sig_free : Mask
  pub sig_used : Mask
  pub sig_state : Mask
  pub sig_event : Bool

-- XPT_SIG_RESERVED
abbrev pub sig_reserved : Mask
sig_reserved x = ltb x 16

-- The loop of xp_allocsignal from bit `x` on, with `k` rounds left. `none` is no signal.
unfoldable pub find_loop : ℕ → ℕ → Mask → Mask → Option ℕ
find_loop zero x reserved free = none
find_loop (suc k) x reserved free =
    let rest = find_loop k (x + 1) reserved free in
    if not (reserved x) && free x then some x else rest

abbrev pub one_bit : Option ℕ → Mask
one_bit none x = false
one_bit (some b) x = x == b

-- What xp_allocsignal finds: the signals asked for, if all are free, or one that is free.
unfoldable pub new_signal : Mask → Mask → Mask → Mask
new_signal reserved free signals =
    let one = one_bit (find_loop 32 0 reserved free) in
    if any_bit 32 signals
    then (if any_bit 32 (and_not signals free) then no_signals else signals)
    else one

unfoldable pub allocsignal : Signals → Mask → Mask × Signals
allocsignal s signals =
    let found = new_signal sig_reserved s.sig_free signals in
    (found, record s { sig_free = and_not s.sig_free found; sig_used = or_mask s.sig_used found })

unfoldable pub freesignal : Signals → Mask → Signals
freesignal s signals = record s {
  sig_free = or_mask s.sig_free signals;
  sig_used = and_not s.sig_used signals;
}

unfoldable pub signal : Signals → Mask → Signals
signal s signals =
    if any_bit 32 (and_not signals s.sig_state)
    then record s { sig_state = or_mask s.sig_state signals; sig_event = true }
    else s

unfoldable pub setsignal : Signals → Mask → Mask → Mask × Signals
setsignal s newsig sigmask = (
  s.sig_state,
  record s {
    sig_state = or_mask (and_not s.sig_state sigmask) newsig;
    sig_event = s.sig_event || any_bit 32 (and_not (and_mask newsig sigmask) s.sig_state);
  },
)

-- One round of the loop of xp_wait: `some` if it ends, with the signals that came; `none` if it waits for
-- the event, which is taken.
unfoldable pub wait_round : Signals → Mask → Option Mask × Signals
wait_round s sigmask =
    let sig = and_mask s.sig_state sigmask in
    let cleared = and_not s.sig_state sigmask in
    if any_bit 32 sig
    then (some sig, record s { sig_state = cleared })
    else (none, record s { sig_state = cleared; sig_event = false })
