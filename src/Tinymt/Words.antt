-- ===== src/Tinymt/Words.antt =====
-- The states stay within 32 bits, and the outputs too.
use Prim.Native.Nat.{bit_and, bit_xor}
use native.Mathlib.Nat.{mod-lt}
use binsort.Base.{
  ℕ, zero, suc, ◌+◌, ◌/◌, ◌%◌, ◌^◌, ◌<◌, ◌&&◌, Bool-cases, inl, inr, Cells, update, ◌==◌, arith,
}
use binsort.Base.Bits.{bit_and_mask}
use binsort.Base.Xor.{bit_xor_lt}
use binsort.Tinymt.{
  Tinymt32, wrap, tinymt32_mask, odd_mask, mixed_x, mixed_y, tinymt32_next_state, tinymt32_temper,
  tinymt32_generate_uint32, period_certification, next_states, seed_loop, tinymt32_init,
}

-- Every word has 32 bits.
pub record IsWords (random : Tinymt32) : Type 0 where
  pub status : (i : ℕ) → random.status i < 2 ^ 32
  pub mat1 : random.mat1 < 2 ^ 32
  pub mat2 : random.mat2 < 2 ^ 32
  pub tmat : random.tmat < 2 ^ 32

wrap_lt : (x : ℕ) → wrap x < 2 ^ 32
wrap_lt x = mod-lt x (omega arith)

xor_lt : {a b : ℕ} → a < 2 ^ 32 → b < 2 ^ 32 → bit_xor a b < 2 ^ 32
xor_lt {a} {b} p q = bit_xor_lt 32 a b p q

update_lt :
    (s : Cells ℕ) (i v : ℕ)
    → ((j : ℕ) → s j < 2 ^ 32)
    → v < 2 ^ 32
    → (j : ℕ) → update s i v j < 2 ^ 32
update_lt s i v h p j = ground (arith, h j)

odd_mask_lt : (y mat : ℕ) → mat < 2 ^ 32 → odd_mask y mat < 2 ^ 32
unfolding odd_mask
odd_mask_lt y mat h = ground arith

masked_lt : (x : ℕ) → bit_and x tinymt32_mask < 2 ^ 32
masked_lt x = omega (arith, bit_and_mask 31 x)

pub mixed_x_lt : (random : Tinymt32) → IsWords random → mixed_x random.status < 2 ^ 32
unfolding mixed_x
mixed_x_lt random w =
    let s = random.status in
    xor_lt (xor_lt (xor_lt (masked_lt (s 0)) (w.status 1)) (w.status 2)) (wrap_lt _)

mixed_y_lt : (random : Tinymt32) → IsWords random → mixed_y random.status < 2 ^ 32
unfolding mixed_y
mixed_y_lt random w =
    let half : random.status 3 / 2 ^ 1 < 2 ^ 32 = omega (arith, w.status 3) in
    xor_lt (w.status 3) (xor_lt half (mixed_x_lt random w))

-- A step of the generator keeps all words within 32 bits.
pub next_state-IsWords : (random : Tinymt32) → IsWords random → IsWords (tinymt32_next_state random)
unfolding tinymt32_next_state
next_state-IsWords random w =
    let x = mixed_x_lt random w in
    let y = mixed_y_lt random w in
    let s₁ = update_lt _ 1 _ (update_lt random.status 0 _ w.status (w.status 1)) (w.status 2) in
    let s₃ = update_lt _ 3 _ (update_lt _ 2 _ s₁ (xor_lt x (wrap_lt _))) y in
    let s₄ = update_lt _ 1 _ s₃ (xor_lt (s₃ 1) (odd_mask_lt _ _ w.mat1)) in
    record {
      status = update_lt _ 2 _ s₄ (xor_lt (s₄ 2) (odd_mask_lt _ _ w.mat2));
      mat1 = w.mat1;
      mat2 = w.mat2;
      tmat = w.tmat;
    }

temper_lt : (random : Tinymt32) → IsWords random → tinymt32_temper random < 2 ^ 32
unfolding tinymt32_temper
temper_lt random w =
    let t1 = wrap (random.status 0 + random.status 2 / 2 ^ 8) in
    let t0 = xor_lt (w.status 3) (wrap_lt (random.status 0 + random.status 2 / 2 ^ 8)) in
    elim (Bool-cases (bit_and t1 1 == 0)) [
      | inl even ↦ rw even t0
      | inr odd ↦ rw odd (xor_lt t0 w.tmat)
    ]

-- The generator gives a number of 32 bits, and a state within 32 bits.
pub generate_uint32_lt :
    (random : Tinymt32)
    → IsWords random
    → ((tinymt32_generate_uint32 random).0 < 2 ^ 32) × IsWords (tinymt32_generate_uint32 random).1
unfolding tinymt32_generate_uint32
generate_uint32_lt random w =
    let w' = next_state-IsWords random w in (temper_lt (tinymt32_next_state random) w', w')

pub period_certification-IsWords :
    (random : Tinymt32) → IsWords random → IsWords (period_certification random)
unfolding period_certification
period_certification-IsWords random w =
    let s = random.status in
    elim (Bool-cases (bit_and (s 0) tinymt32_mask == 0 && s 1 == 0 && s 2 == 0 && s 3 == 0)) [
      | inr fine ↦ rw fine w
      | inl zeros ↦
          let s₁ = update_lt _ 1 73 (update_lt s 0 84 w.status (omega arith)) (omega arith) in
          let s₃ = update_lt _ 3 89 (update_lt _ 2 78 s₁ (omega arith)) (omega arith) in
          rw zeros (record { status = s₃; mat1 = w.mat1; mat2 = w.mat2; tmat = w.tmat })
    ]

next_states-IsWords : (k : ℕ) (random : Tinymt32) → IsWords random → IsWords (next_states k random)
unfolding next_states
next_states-IsWords zero random w = w
next_states-IsWords (suc k) random w = next_states-IsWords k _ (next_state-IsWords random w)

seed_loop_lt :
    (k i : ℕ) (s : Cells ℕ) → ((j : ℕ) → s j < 2 ^ 32) → (j : ℕ) → seed_loop k i s j < 2 ^ 32
unfolding seed_loop
seed_loop_lt zero i s h = h
seed_loop_lt (suc k) i s h =
    seed_loop_lt k (i + 1) _ (update_lt s (i % 4) _ h (xor_lt (h (i % 4)) (wrap_lt _)))

-- tinymt32_init on words of 32 bits gives a state of such words.
pub tinymt32_init-IsWords :
    (random : Tinymt32) (seed : ℕ)
    → IsWords random
    → seed < 2 ^ 32
    → IsWords (tinymt32_init random seed)
unfolding tinymt32_init
tinymt32_init-IsWords random seed w h =
    let s₀ = update_lt _ 1 _ (update_lt random.status 0 seed w.status h) w.mat1 in
    let s₁ = update_lt _ 3 _ (update_lt _ 2 _ s₀ w.mat2) w.tmat in
    next_states-IsWords 8 _ (
      period_certification-IsWords _
        (record { status = seed_loop_lt 7 1 _ s₁; mat1 = w.mat1; mat2 = w.mat2; tmat = w.tmat }))
