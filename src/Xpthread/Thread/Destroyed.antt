-- ===== src/Xpthread/Thread/Destroyed.antt =====
-- xp_destroythread takes a thread off only when it is over, and no signal for that is lost.
use mathlib.Core.Path.{subst}
use binsort.Base.{
  ℕ, ◌+◌, ◌-◌, ◌<◌, ◌≡◌, ◌≢◌, refl, ap, ◌⊎◌, inl, inr, Bool, true, false, ◌&&◌, ◌==◌, if◌then◌else◌,
  arith,
}
use binsort.Xpthread.Thread.{
  Status, init, run, dead, Destroyer, scanning, waiting, done, Life, created, is_dead, begin,
  finish, send_sync, refthread, unrefthread, scan, wait_sync, begun, finished, sent, scanned, woken,
  Step, own, referenced, unreferenced, signalled, Reachable, start, next, Owns, stay, more,
}

-- The thread's function has returned, and nobody refers to it.
abbrev pub IsOver : Life → Type 0
IsOver t = (t.status ≡ dead) × (t.ref_count ≡ 0)

-- A thread is in the list until it is taken off, which is when it is over; and when the thread is over while
-- xp_destroythread waits, a signal is there or will be sent.
record IsSound (t : Life) : Type 0 where
  listed : t.destroyer ≢ done → t.listed ≡ true
  over : t.destroyer ≡ done → IsOver t × (t.listed ≡ false)
  kept : t.destroyer ≡ waiting → IsOver t → (t.sync ≡ true) ⊎ (t.ending ≡ true)

created-IsSound : IsSound created
created-IsSound = record {
  listed = λ n. refl;
  over = λ e. absurd (cc e);
  kept = λ e o. absurd (cc e);
}

begin-IsSound : (t : Life) → t.status ≡ init → IsSound t → IsSound (begin t)
unfolding begin
begin-IsSound t e s = record {
  listed = s.listed;
  over = λ d. absurd (cc (e, (s.over d).0.0));
  kept = λ w o. absurd (cc o.0);
}

finish-IsSound : (t : Life) → t.status ≡ run → IsSound t → IsSound (finish t)
unfolding finish
finish-IsSound t e s = record {
  listed = s.listed;
  over = λ d. absurd (cc (e, (s.over d).0.0));
  kept = λ w o. inr refl;
}

send_sync-IsSound : (t : Life) → IsSound t → IsSound (send_sync t)
unfolding send_sync
send_sync-IsSound t s = record { listed = s.listed; over = s.over; kept = λ w o. inl refl }

-- What holds of both branches holds of a test.
of_branches :
    (P : Life → Type 0) (b : Bool) (x y : Life)
    → (b ≡ true → P x)
    → (b ≡ false → P y)
    → P (if b then x else y)
of_branches P true x y p q = p refl
of_branches P false x y p q = q refl

dead_alive : (s : Status) → s ≡ dead → is_dead s ≡ false → ⊥
dead_alive s e alive = cc (ap is_dead e, alive)

refthread-IsSound : (t : Life) → IsSound t → IsSound (refthread t)
unfolding refthread
refthread-IsSound t s =
    of_branches IsSound (is_dead t.status) t
      (if t.listed then record t { ref_count = t.ref_count + 1 } else t) (λ e. s)
      (λ alive.
        of_branches IsSound t.listed (record t { ref_count = t.ref_count + 1 }) t
          (λ there. record {
            listed = s.listed;
            over = λ d. absurd (cc (there, (s.over d).1));
            kept = λ w o. absurd (dead_alive t.status o.0 alive);
          })
          (λ e. s))

unrefthread-IsSound : (t : Life) → 0 < t.ref_count → IsSound t → IsSound (unrefthread t)
unfolding unrefthread
unrefthread-IsSound t h s =
    of_branches IsSound (t.ref_count - 1 == 0) (record t { ref_count = 0; sync = true })
      (record t { ref_count = t.ref_count - 1 })
      (λ e. record {
        listed = s.listed;
        over = λ d. absurd (omega (arith, h, (s.over d).0.1));
        kept = λ w o. inl refl;
      })
      (λ e. record {
        listed = s.listed;
        over = λ d. absurd (omega (arith, h, (s.over d).0.1));
        kept = λ w o. absurd (ground (arith, e, o.1));
      })

-- The thread is found over and in the list.
IsOver-test :
    (s : Status) (n : ℕ) (listed : Bool)
    → (is_dead s && n == 0 && listed) ≡ true
    → (s ≡ dead) × (n ≡ 0)
IsOver-test dead n listed e = (refl, ground (arith, e))
IsOver-test init n listed e = absurd (cc e)
IsOver-test run n listed e = absurd (cc e)

test-IsOver :
    (s : Status) (n : ℕ) (listed : Bool)
    → s ≡ dead
    → n ≡ 0
    → listed ≡ true
    → (is_dead s && n == 0 && listed) ≡ true
test-IsOver s n listed e e' there = rw (e, e', there) refl

scan-over :
    (t : Life) → IsOver t → t.listed ≡ true → scan t ≡ record t { listed = false; destroyer = done }
unfolding scan
scan-over t o there =
    ap
      (λ b.
        if b
        then record t { listed = false; destroyer = done }
        else record t { destroyer = waiting })
      (test-IsOver t.status t.ref_count t.listed o.0 o.1 there)

scan-IsSound : (t : Life) → t.destroyer ≡ scanning → IsSound t → IsSound (scan t)
unfolding scan
scan-IsSound t looking s =
    of_branches IsSound (is_dead t.status && t.ref_count == 0 && t.listed)
      (record t { listed = false; destroyer = done }) (record t { destroyer = waiting })
      (λ e. record {
        listed = λ n. absurd (n refl);
        over = λ d. (IsOver-test t.status t.ref_count t.listed e, refl);
        kept = λ w o. absurd (cc w);
      })
      (λ e. record {
        listed = λ n. s.listed (λ d. cc (d, looking));
        over = λ d. absurd (cc d);
        kept = λ w o. absurd (
            cc (
              test-IsOver t.status t.ref_count t.listed o.0 o.1 (s.listed (λ d. cc (d, looking))),
              e,
            ));
      })

wait_sync-IsSound : (t : Life) → t.destroyer ≡ waiting → IsSound t → IsSound (wait_sync t)
unfolding wait_sync
wait_sync-IsSound t w s =
    of_branches IsSound t.sync (record t { sync = false; destroyer = scanning }) t
      (λ e. record {
        listed = λ n. s.listed (λ d. cc (d, w));
        over = λ d. absurd (cc d);
        kept = λ w' o. absurd (cc w');
      })
      (λ e. s)

step-IsSound : (t t' : Life) → Step t t' → IsSound t → IsSound t'
step-IsSound t _ (own (begun e)) s = begin-IsSound t e s
step-IsSound t _ (own (finished e)) s = finish-IsSound t e s
step-IsSound t _ (own (sent e)) s = send_sync-IsSound t s
step-IsSound t _ (own (scanned e)) s = scan-IsSound t e s
step-IsSound t _ (own (woken e)) s = wait_sync-IsSound t e s
step-IsSound t _ referenced s = refthread-IsSound t s
step-IsSound t _ (unreferenced h) s = unrefthread-IsSound t h s
step-IsSound t _ signalled s = record { listed = s.listed; over = s.over; kept = λ w o. inl refl }

Reachable-IsSound : {t : Life} → Reachable t → IsSound t
Reachable-IsSound start = created-IsSound
Reachable-IsSound (next r step) = step-IsSound _ _ step (Reachable-IsSound r)

-- In whatever order the thread, the one that destroys it and others make their steps: once
-- xp_destroythread has taken a thread off, its function has returned, nobody refers to it, and it is
-- not in the list.
pub destroyed-IsOver : {t : Life} → Reachable t → t.destroyer ≡ done → IsOver t × (t.listed ≡ false)
destroyed-IsOver r e = (Reachable-IsSound r).over e

wait_sync-set :
    (t : Life) → t.sync ≡ true → wait_sync t ≡ record t { sync = false; destroyer = scanning }
unfolding wait_sync
wait_sync-set t e = ap (λ b. if b then record t { sync = false; destroyer = scanning } else t) e

-- A step that looks finds a thread that is over.
scan_ends :
    (t t' : Life)
    → Owns t t'
    → t'.destroyer ≡ scanning
    → IsOver t'
    → t'.listed ≡ true
    → (u : Life) × Owns t u × (u.destroyer ≡ done)
scan_ends t t' steps e o there =
    (scan t', more steps (scanned e), ap (λ u. u.destroyer) (scan-over t' o there))

-- And so does one that waits with the signal set.
wait_ends :
    (t t' : Life)
    → Owns t t'
    → t'.destroyer ≡ waiting
    → t'.sync ≡ true
    → IsOver t'
    → t'.listed ≡ true
    → (u : Life) × Owns t u × (u.destroyer ≡ done)
wait_ends t t' steps e set o there =
    scan_ends t (record t' { sync = false; destroyer = scanning })
      (subst (Owns t) (wait_sync-set t' set) (more steps (woken e))) refl o there

Destroyer-cases : (d : Destroyer) → (d ≡ scanning) ⊎ (d ≡ waiting) ⊎ (d ≡ done)
Destroyer-cases scanning = inl refl
Destroyer-cases waiting = inr (inl refl)
Destroyer-cases done = inr (inr refl)

-- In whatever order the steps have been made until the function of a thread has returned and nobody
-- refers to it: the thread and the one that destroys it can make theirs, with no help of others, until
-- it is taken off; no signal is lost that xp_destroythread waits for.
pub destroy_ends :
    {t : Life} → Reachable t → IsOver t → (t' : Life) × Owns t t' × (t'.destroyer ≡ done)
unfolding send_sync
destroy_ends {t} r o =
    let s = Reachable-IsSound r in
    elim (Destroyer-cases t.destroyer) [
      | inl e ↦ scan_ends t t stay e o (s.listed (λ d. cc (d, e)))
      | inr (inl e) ↦
          let there = s.listed (λ d. cc (d, e)) in
          elim (s.kept e o) [
            | inl set ↦ wait_ends t t stay e set o there
            | inr ending ↦ wait_ends t (send_sync t) (more stay (sent ending)) e refl o there
          ]
      | inr (inr e) ↦ (t, stay, e)
    ]
