-- ===== src/Xpthread/Signal/Kept.antt =====
-- No signal is allocated twice, and none is lost.
use native.Mathlib.Decide.{ℕ_discrete}
use mathlib.Core.Option.{some-injective}
use binsort.Base.{
  ℕ, zero, suc, ◌+◌, ◌<◌, ◌≡◌, refl, true, false, not, ◌&&◌, Option, none, some, inl, inr,
  Bool-cases, arith,
}
use binsort.Xpthread.Signal.{
  Mask, sig_reserved, and_mask, and_not, any_bit, Signals, find_loop, one_bit, new_signal,
  allocsignal, signal, wait_round,
}

-- No signal is free and in use.
abbrev pub IsSplit : Signals → Type 0
IsSplit s = (x : ℕ) → x < 32 → (s.sig_free x && s.sig_used x) ≡ false

any_bit_none : (n x : ℕ) (a : Mask) → any_bit n a ≡ false → x < n → a x ≡ false
unfolding any_bit
any_bit_none zero x a e h = absurd (omega arith)
any_bit_none (suc n) x a e h = elim (ℕ_discrete x n) [
  | yes last ↦ rw last (ground arith)
  | no ne ↦ any_bit_none n x a (ground arith) (omega arith)
]

any_bit_some : (n x : ℕ) (a : Mask) → a x ≡ true → x < n → any_bit n a ≡ true
any_bit_some n x a e h = elim (Bool-cases (any_bit n a)) [
  | inl some_bit ↦ some_bit
  | inr none_set ↦ absurd (ground (arith, any_bit_none n x a none_set h))
]

find_loop_free :
    (k x b : ℕ) (reserved free : Mask)
    → find_loop k x reserved free ≡ some b
    → (free b ≡ true) × (reserved b ≡ false)
unfolding find_loop
find_loop_free zero x b reserved free e = absurd cc
find_loop_free (suc k) x b reserved free e = elim (Bool-cases (not (reserved x) && free x)) [
  | inl here ↦
      let found = some-injective x b (rw here at e) in rw (← found) (ground arith, ground arith)
  | inr past ↦ find_loop_free k (x + 1) b reserved free (rw past at e)
]

one_bit_free :
    (reserved free : Mask) (x : ℕ) (r : Option ℕ)
    → find_loop 32 0 reserved free ≡ r
    → one_bit r x ≡ true
    → free x ≡ true
one_bit_free reserved free x none e h = absurd cc
one_bit_free reserved free x (some b) e h =
    let at : x ≡ b = ground arith in rw at (find_loop_free 32 0 b reserved free e).0

new_signal_free :
    (reserved free signals : Mask) (x : ℕ)
    → x < 32
    → new_signal reserved free signals x ≡ true
    → free x ≡ true
unfolding new_signal
new_signal_free reserved free signals x h e = elim (Bool-cases (any_bit 32 signals)) [
  | inl wanted ↦ elim (Bool-cases (any_bit 32 (and_not signals free))) [
    | inl taken ↦ let nothing = rw (wanted, taken) at e in absurd cc
    | inr all_free ↦
        let given : signals x ≡ true = rw (wanted, all_free) at e in
        let clear = any_bit_none 32 x (and_not signals free) all_free h in ground arith
  ]
  | inr any ↦ one_bit_free reserved free x (find_loop 32 0 reserved free) refl (rw any at e)
]

-- Where no signal is both free and in use, allocsignal gives only signals that were free, takes them
-- from the free ones into use, and keeps the two apart.
pub allocsignal_correct :
    (s : Signals) (signals : Mask)
    → IsSplit s
    → IsSplit (allocsignal s signals).1
      × ((x : ℕ)
          → x < 32
          → (allocsignal s signals).0 x ≡ true
          → (s.sig_free x ≡ true)
            × ((allocsignal s signals).1.sig_used x ≡ true)
            × ((allocsignal s signals).1.sig_free x ≡ false))
unfolding allocsignal
allocsignal_correct s signals split = (
  λ x h. ground (arith, split x h),
  λ x h e. (new_signal_free sig_reserved s.sig_free signals x h e, ground arith, ground arith),
)

pub signal_pending :
    (s : Signals) (signals : Mask) (x : ℕ)
    → x < 32
    → signals x ≡ true
    → (signal s signals).sig_state x ≡ true
unfolding signal
signal_pending s signals x h sent = elim (Bool-cases (any_bit 32 (and_not signals s.sig_state))) [
  | inl new ↦ rw new (ground arith)
  | inr old ↦
      let clear = any_bit_none 32 x (and_not signals s.sig_state) old h in rw old (ground arith)
]

-- A signal that is sent is not lost: it is pending afterwards, and a wait for it ends at once, gives it
-- and clears it, whatever other signals are pending.
pub wait_round-signal :
    (s : Signals) (signals sigmask : Mask) (x : ℕ)
    → x < 32
    → signals x ≡ true
    → sigmask x ≡ true
    → (sig : Mask) × (s' : Signals) × (wait_round (signal s signals) sigmask ≡ (some sig, s'))
      × (sig x ≡ true)
      × (s'.sig_state x ≡ false)
unfolding wait_round
wait_round-signal s signals sigmask x h sent asked =
    let s₁ = signal s signals in
    let pending = signal_pending s signals x h sent in
    let some_bit = any_bit_some 32 x (and_mask s₁.sig_state sigmask) (ground arith) h in
    (
      and_mask s₁.sig_state sigmask,
      record s₁ { sig_state = and_not s₁.sig_state sigmask },
      rw some_bit refl,
      ground arith,
      ground arith,
    )
