-- ===== src/Xpthread/Thread/Tests.antt =====
-- A thread that is referred to while it runs, and looked at before it ends.
use binsort.Base.{◌≡◌, refl, true, false, arith}
use binsort.Xpthread.Thread.{
  dead, waiting, done, Life, begin, finish, refthread, unrefthread, scan, wait_sync, begun,
  finished, scanned, woken, own, referenced, unreferenced, Reachable, start, next, Owns,
}
use binsort.Xpthread.Thread.Destroyed.{IsOver, destroyed-IsOver, destroy_ends}

-- Referred to, begun, looked at, ended, and given back; the signal of unrefthread is there.
abbrev over : Life
over = record {
  status = dead;
  ref_count = 0;
  ending = true;
  sync = true;
  listed = true;
  destroyer = waiting;
}

over-Reachable : Reachable over
unfolding begin finish refthread unrefthread scan
over-Reachable =
    next
      (next (next (next (next start referenced) (own (begun refl))) (own (scanned refl)))
        (own (finished refl)))
      (unreferenced (omega arith))

abbrev taken_off : Life
taken_off = record over { sync = false; listed = false; destroyer = done }

taken_off-Reachable : Reachable taken_off
unfolding wait_sync scan
taken_off-Reachable = next (next over-Reachable (own (woken refl))) (own (scanned refl))

destroyed-IsOver_example : IsOver taken_off × (taken_off.listed ≡ false)
destroyed-IsOver_example = destroyed-IsOver taken_off-Reachable refl

destroy_ends_example : (t' : Life) × Owns over t' × (t'.destroyer ≡ done)
destroy_ends_example = destroy_ends over-Reachable (refl, refl)
