-- ===== src/Xpthread/Time.antt =====
-- xp_subtime, xp_addtime and xp_cmptime of xpthread.c, on times of whole seconds, which may be negative,
-- and microseconds.
use binsort.Base.{
  ℕ, ◌+◌, ◌-◌, ◌<◌, ◌≡◌, refl, ap₂, Bool, true, false, inl, inr, Bool-cases, ltb, leb, ◌==◌,
  if◌then◌else◌, arith,
}
use binsort.Base.Int.{ℤ, pos, negsuc, ◌+ℤ◌, ◌-ℤ◌, int_laws}

pub record Time : Type 0 where
  pub sec : ℤ
  pub usec : ℕ

unfoldable pub subtime : Time → Time → Time
subtime a b =
    if ltb a.usec b.usec
    then record { sec = a.sec -ℤ b.sec -ℤ pos 1; usec = 1000000 - (b.usec - a.usec) }
    else record { sec = a.sec -ℤ b.sec; usec = a.usec - b.usec }

unfoldable pub addtime : Time → Time → Time
addtime a b =
    if leb 1000000 (a.usec + b.usec)
    then record { sec = a.sec +ℤ b.sec +ℤ pos 1; usec = a.usec + b.usec - 1000000 }
    else record { sec = a.sec +ℤ b.sec; usec = a.usec + b.usec }

abbrev pub less : ℤ → ℤ → Bool
less (pos a) (pos b) = ltb a b
less (pos a) (negsuc b) = false
less (negsuc a) (pos b) = true
less (negsuc a) (negsuc b) = ltb b a

-- The result of xp_cmptime is -1, 0 or 1.
pub data Comparison : Type 0 where
  earlier same later : Comparison

unfoldable pub cmptime : Time → Time → Comparison
cmptime a b =
    if less a.sec b.sec
    then earlier
    else if less b.sec a.sec
    then later
    else if a.usec == b.usec
    then same
    else if ltb b.usec a.usec
    then later
    else earlier

-- Fewer than a million microseconds.
abbrev pub IsNormal : Time → Type 0
IsNormal t = t.usec < 1000000

-- Subtracting a time and adding it again gives the first time back, and the difference has fewer than
-- a million microseconds, if both times have.
pub addtime-subtime :
    (a b : Time) → IsNormal a → IsNormal b → (addtime (subtime a b) b ≡ a) × IsNormal (subtime a b)
unfolding subtime addtime
addtime-subtime a b p q = elim (Bool-cases (ltb a.usec b.usec)) [
  | inl borrow ↦
      let carry : leb 1000000 (1000000 - (b.usec - a.usec) + b.usec) ≡ true = ground arith in
      let u : 1000000 - (b.usec - a.usec) + b.usec - 1000000 ≡ a.usec = ground arith in
      let s : a.sec -ℤ b.sec -ℤ pos 1 +ℤ b.sec +ℤ pos 1 ≡ a.sec = omega int_laws in
      rw (borrow, carry) (ap₂ (λ x y. record { sec = x; usec = y }) s u, ground arith)
  | inr enough ↦
      let fits : leb 1000000 (a.usec - b.usec + b.usec) ≡ false = ground arith in
      let u : a.usec - b.usec + b.usec ≡ a.usec = ground arith in
      let s : a.sec -ℤ b.sec +ℤ b.sec ≡ a.sec = omega int_laws in
      rw (enough, fits) (ap₂ (λ x y. record { sec = x; usec = y }) s u, ground arith)
]

abbrev pub opposite : Comparison → Comparison
opposite earlier = later
opposite same = same
opposite later = earlier

less_asym : (a b : ℤ) → less a b ≡ true → less b a ≡ false
less_asym (pos a) (pos b) h = ground arith
less_asym (pos a) (negsuc b) h = absurd cc
less_asym (negsuc a) (pos b) h = refl
less_asym (negsuc a) (negsuc b) h = ground arith

-- Comparing the other way round gives the opposite result.
pub cmptime-opposite : (a b : Time) → cmptime b a ≡ opposite (cmptime a b)
unfolding cmptime
cmptime-opposite a b = ground (arith, less_asym a.sec b.sec, less_asym b.sec a.sec)
