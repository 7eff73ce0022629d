-- ===== src/Xpthread/Tests.antt =====
-- The theorems on xpthread.c at concrete inputs.
use binsort.Base.{ℕ, ◌<◌, ◌≡◌, true, false, not, ◌==◌, arith}
use binsort.Xpthread.Signal.{Signals, no_signals, allocsignal}
use binsort.Xpthread.Signal.Kept.{IsSplit, allocsignal_correct}

-- Bit 3 is in use, and all others are free.
abbrev some_signals : Signals
some_signals = record {
  sig_free = λ x. not (x == 3);
  sig_used = λ x. x == 3;
  sig_state = no_signals;
  sig_event = false;
}

some_signals-IsSplit : IsSplit some_signals
some_signals-IsSplit x h = ground arith

allocsignal_correct_example :
    IsSplit (allocsignal some_signals no_signals).1
    × ((x : ℕ)
        → x < 32
        → (allocsignal some_signals no_signals).0 x ≡ true
        → (some_signals.sig_free x ≡ true)
          × ((allocsignal some_signals no_signals).1.sig_used x ≡ true)
          × ((allocsignal some_signals no_signals).1.sig_free x ≡ false))
allocsignal_correct_example = allocsignal_correct some_signals no_signals some_signals-IsSplit
