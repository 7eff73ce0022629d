-- ===== src/Tinymt/Period.antt =====
-- Why the state is certified: from the state of 127 zeros the generator never comes away, and it gives only
-- zeros; from any other it never comes there.
use Prim.Native.Nat.{bit_and, bit_xor}
use binsort.Base.{
  ℕ, zero, suc, ◌*◌, ◌/◌, ◌^◌, ◌<◌, ◌≡◌, refl, sym, ap, ◌∙◌, ◌⊎◌, inl, inr, ◌&&◌, Bool-cases, Cells,
  ◌==◌, arith,
}
use binsort.Base.Bits.{bit_and_mask}
use binsort.Base.Xor.{bit_xor_lt, bit_xor_same, bit_xor_zero}
use binsort.Tinymt.{
  Tinymt32, wrap, tinymt32_mask, odd_mask, mixed_x, mixed_y, tinymt32_next_state, tinymt32_temper,
  tinymt32_generate_uint32, period_certification, next_states,
}
use binsort.Tinymt.Words.{IsWords, next_state-IsWords, period_certification-IsWords}

-- The 127 bits that the next state depends on are zero.
pub record IsZero (random : Tinymt32) : Type 0 where
  pub low : bit_and (random.status 0) tinymt32_mask ≡ 0
  pub second : random.status 1 ≡ 0
  pub third : random.status 2 ≡ 0
  pub fourth : random.status 3 ≡ 0

-- Every number that the generator gives is zero.
abbrev pub GivesZeros : Tinymt32 → Type 0
GivesZeros random = (k : ℕ) → (tinymt32_generate_uint32 (next_states k random)).0 ≡ 0

module _ (random : Tinymt32) where
  abbrev s : Cells ℕ
  s = random.status

  abbrev s' : Cells ℕ
  s' = (tinymt32_next_state random).status

  next_status :
      (s' 0 ≡ s 1)
      × (s' 1 ≡ bit_xor (s 2) (odd_mask (mixed_y s) random.mat1))
      × (s' 2
          ≡ bit_xor
              (bit_xor (mixed_x s) (wrap (mixed_y s * 2 ^ 10)))
              (odd_mask (mixed_y s) random.mat2))
      × (s' 3 ≡ mixed_y s)
  unfolding tinymt32_next_state
  next_status = (refl, refl, refl, refl)

  mixed_zero : IsZero random → (mixed_x s ≡ 0) × (mixed_y s ≡ 0)
  unfolding mixed_x mixed_y
  mixed_zero z = (rw (z.low, z.second, z.third) refl, rw (z.low, z.second, z.third, z.fourth) refl)

  -- The next state, all of its words zero.
  next-IsZero : IsZero random → (s' 0 ≡ 0) × IsZero (tinymt32_next_state random)
  unfolding odd_mask
  next-IsZero z =
      let (at0, at1, at2, at3) = next_status in
      let (x, y) = mixed_zero z in
      let first : s' 0 ≡ 0 = at0 ∙ z.second in
      (
        first,
        record {
          low = ap (λ a. bit_and a tinymt32_mask) first;
          second = at1 ∙ rw (z.third, y) refl;
          third = at2 ∙ rw (x, y) refl;
          fourth = at3 ∙ y;
        },
      )

  generate_zero : IsZero random → (tinymt32_generate_uint32 random).0 ≡ 0
  unfolding tinymt32_generate_uint32 tinymt32_temper
  generate_zero z = let (first, next) = next-IsZero z in rw (first, next.third, next.fourth) refl

  abbrev joined : ℕ
  joined = bit_xor (bit_xor (bit_and (s 0) tinymt32_mask) (s 1)) (s 2)

  masked : bit_and (s 0) tinymt32_mask < 2 ^ 31
  masked = omega (arith, bit_and_mask 31 (s 0))

  -- Both mixtures are zero only where what they mix is.
  joined_before : IsWords random → mixed_x s ≡ 0 → joined ≡ 0
  unfolding mixed_x
  joined_before w e =
      let small : joined < 2 ^ 32 =
        bit_xor_lt 32 _ _ (bit_xor_lt 32 _ _ (omega (arith, masked)) (w.status 1)) (w.status 2) in
      omega (arith, small, bit_xor_same joined (wrap (joined * 2 ^ 1)) e)

  fourth_before : mixed_x s ≡ 0 → mixed_y s ≡ 0 → s 3 ≡ 0
  unfolding mixed_y
  fourth_before x e =
      omega
        (arith, bit_xor_same (s 3) _ e, ap (bit_xor (s 3 / 2 ^ 1)) x, bit_xor_zero (s 3 / 2 ^ 1))

  mixed_before : IsZero (tinymt32_next_state random) → (mixed_x s ≡ 0) × (mixed_y s ≡ 0) × (s 2 ≡ 0)
  unfolding odd_mask
  mixed_before z =
      let (at0, at1, at2, at3) = next_status in
      let y : mixed_y s ≡ 0 = sym at3 ∙ z.fourth in
      let second : bit_xor (s 2) 0 ≡ 0 = rw y at (sym at1 ∙ z.second) in
      let third : bit_xor (bit_xor (mixed_x s) 0) 0 ≡ 0 = rw y at (sym at2 ∙ z.third) in
      (
        bit_xor_same (mixed_x s) 0 (bit_xor_same (bit_xor (mixed_x s) 0) 0 third),
        y,
        bit_xor_same (s 2) 0 second,
      )

  -- The zero state comes from itself only.
  IsZero-before : IsWords random → IsZero (tinymt32_next_state random) → IsZero random
  IsZero-before w z =
      let (x, y, third) = mixed_before z in
      let all = joined_before w x in
      let same : bit_and (s 0) tinymt32_mask ≡ s 1 =
        bit_xor_same _ (s 1) (bit_xor_same _ (s 2) all ∙ third) in
      let low : bit_and (s 1) tinymt32_mask ≡ 0 =
        ap (λ a. bit_and a tinymt32_mask) (sym next_status.0) ∙ z.low in
      let second : s 1 ≡ 0 = omega (arith, bit_and_mask 31 (s 1), low, same, masked) in
      record { low = same ∙ second; second = second; third = third; fourth = fourth_before x y }

zero-GivesZeros : (random : Tinymt32) → IsZero random → GivesZeros random
unfolding next_states
zero-GivesZeros random z zero = generate_zero random z
zero-GivesZeros random z (suc k) =
    zero-GivesZeros (tinymt32_next_state random) (next-IsZero random z).1 k

never-IsZero :
    (k : ℕ) (random : Tinymt32) → IsWords random → ¬ IsZero random → ¬ IsZero (next_states k random)
unfolding next_states
never-IsZero zero random w n = n
never-IsZero (suc k) random w n =
    never-IsZero k (tinymt32_next_state random) (next_state-IsWords random w)
      (λ z. n (IsZero-before random w z))

period_certification_cases :
    (random : Tinymt32)
    → ((period_certification random ≡ random) ⊎ IsZero random)
      × ¬ IsZero (period_certification random)
unfolding period_certification
period_certification_cases random =
    let s = random.status in
    elim (Bool-cases (bit_and (s 0) tinymt32_mask == 0 && s 1 == 0 && s 2 == 0 && s 3 == 0)) [
      | inl zeros ↦
          let z : IsZero random = record {
            low = ground arith;
            second = ground arith;
            third = ground arith;
            fourth = ground arith;
          } in
          rw zeros (inr z, λ z'. absurd (omega (arith, z'.second)))
      | inr fine ↦
          rw fine (inl refl, λ z. absurd (ground (arith, z.low, z.second, z.third, z.fourth)))
    ]

-- For words of 32 bits: period_certification leaves the state as it is, or it was one from which the
-- generator would have given only zeros; and from the state that it leaves the generator never comes,
-- in any number of steps, to one in which the 127 bits that the next state depends on are all zero.
pub period_certification_correct :
    (random : Tinymt32)
    → IsWords random
    → ((period_certification random ≡ random) ⊎ GivesZeros random)
      × ((k : ℕ) → ¬ IsZero (next_states k (period_certification random)))
period_certification_correct random w =
    let (changed, nonzero) = period_certification_cases random in
    (
      elim changed [ inl e ↦ inl e | inr z ↦ inr (zero-GivesZeros random z) ],
      λ k.
          never-IsZero k (period_certification random) (period_certification-IsWords random w)
            nonzero,
    )
