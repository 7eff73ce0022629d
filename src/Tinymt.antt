-- ===== src/Tinymt.antt =====
-- tinymt32.c and tinymt32.h: the Tiny Mersenne Twister that the optimisation draws its positions from.
-- A `uint32_t` is a number below 2 ^ 32, with the wrap written out. LINEARITY_CHECK is not defined.
-- The floating-point outputs, which nothing calls, are left out.
pub mod Words
pub mod Period
mod Tests
use Prim.Native.Nat.{bit_and, bit_xor}
use binsort.Base.{
  ℕ, zero, suc, ◌+◌, ◌-◌, ◌*◌, ◌/◌, ◌%◌, ◌^◌, Bool, ◌&&◌, List, [], ◌∷◌, Cells, update, ltb, ◌==◌,
  if◌then◌else◌,
}

-- `struct TINYMT32_T`
pub record Tinymt32 : Type 0 where
  pub status : Cells ℕ
  pub mat1 : ℕ
  pub mat2 : ℕ
  pub tmat : ℕ

abbrev pub wrap : ℕ → ℕ
wrap x = x % 2 ^ 32

abbrev pub tinymt32_mask : ℕ
tinymt32_mask = 0x7fff_ffff

-- `-((int32_t)(y & 1)) & mat`
unfoldable pub odd_mask : ℕ → ℕ → ℕ
odd_mask y mat = if bit_and y 1 == 0 then 0 else mat

-- `x` and `y` of tinymt32_next_state once they are mixed.
unfoldable pub mixed_x : Cells ℕ → ℕ
mixed_x status =
    let x = bit_xor (bit_xor (bit_and (status 0) tinymt32_mask) (status 1)) (status 2) in
    bit_xor x (wrap (x * 2 ^ 1))

unfoldable pub mixed_y : Cells ℕ → ℕ
mixed_y status = bit_xor (status 3) (bit_xor (status 3 / 2 ^ 1) (mixed_x status))

unfoldable pub tinymt32_next_state : Tinymt32 → Tinymt32
tinymt32_next_state random =
    let x = mixed_x random.status in
    let y = mixed_y random.status in
    let s₀ = update random.status 0 (random.status 1) in
    let s₁ = update s₀ 1 (random.status 2) in
    let s₂ = update s₁ 2 (bit_xor x (wrap (y * 2 ^ 10))) in
    let s₃ = update s₂ 3 y in
    let s₄ = update s₃ 1 (bit_xor (s₃ 1) (odd_mask y random.mat1)) in
    record random { status = update s₄ 2 (bit_xor (s₄ 2) (odd_mask y random.mat2)) }

unfoldable pub tinymt32_temper : Tinymt32 → ℕ
tinymt32_temper random =
    let t1 = wrap (random.status 0 + random.status 2 / 2 ^ 8) in
    let t0 = bit_xor (random.status 3) t1 in
    if bit_and t1 1 == 0 then t0 else bit_xor t0 random.tmat

unfoldable pub tinymt32_generate_uint32 : Tinymt32 → ℕ × Tinymt32
tinymt32_generate_uint32 random =
    let random' = tinymt32_next_state random in (tinymt32_temper random', random')

-- No state that generates only zeros.
unfoldable pub period_certification : Tinymt32 → Tinymt32
period_certification random =
    let s = random.status in
    if bit_and (s 0) tinymt32_mask == 0 && s 1 == 0 && s 2 == 0 && s 3 == 0
    then record random { status = update (update (update (update s 0 84) 1 73) 2 78) 3 89 }
    else random

unfoldable pub next_states : ℕ → Tinymt32 → Tinymt32
next_states zero random = random
next_states (suc k) random = next_states k (tinymt32_next_state random)

-- The first loop of tinymt32_init, from `i` on, with `k` rounds left.
unfoldable pub seed_loop : ℕ → ℕ → Cells ℕ → Cells ℕ
seed_loop zero i status = status
seed_loop (suc k) i status =
    let p = status ((i - 1) % 4) in
    let word = wrap (i + 1812433253 * bit_xor p (p / 2 ^ 30)) in
    seed_loop k (i + 1) (update status (i % 4) (bit_xor (status (i % 4)) word))

unfoldable pub tinymt32_init : Tinymt32 → ℕ → Tinymt32
tinymt32_init random seed =
    let s₀ = update (update random.status 0 seed) 1 random.mat1 in
    let s₁ = update (update s₀ 2 random.mat2) 3 random.tmat in
    next_states 8 (period_certification (record random { status = seed_loop 7 1 s₁ }))

-- ini_func1 and ini_func2
unfoldable pub ini_func1 : ℕ → ℕ
ini_func1 x = wrap (bit_xor x (x / 2 ^ 27) * 1664525)

unfoldable pub ini_func2 : ℕ → ℕ
ini_func2 x = wrap (bit_xor x (x / 2 ^ 27) * 1566083941)

-- One round of the first three loops of tinymt32_init_by_array at `i`, which adds `key` to `r`.
unfoldable pub add_round : ℕ → Cells ℕ → ℕ → Cells ℕ
add_round i st key =
    let r = ini_func1 (bit_xor (bit_xor (st (i % 4)) (st ((i + 1) % 4))) (st ((i + 4 - 1) % 4))) in
    let s₁ = update st ((i + 1) % 4) (wrap (st ((i + 1) % 4) + r)) in
    let r' = wrap (r + key) in
    let s₂ = update s₁ ((i + 1 + 1) % 4) (wrap (s₁ ((i + 1 + 1) % 4) + r')) in update s₂ (i % 4) r'

-- The loop over the key, then the one over the rounds left, both in `k` rounds from `i` on.
unfoldable pub key_loop : ℕ → ℕ → Cells ℕ → List ℕ → Cells ℕ × ℕ
key_loop zero i st keys = (st, i)
key_loop (suc k) i st [] = key_loop k ((i + 1) % 4) (add_round i st i) []
key_loop (suc k) i st (key ∷ keys) = key_loop k ((i + 1) % 4) (add_round i st (wrap (key + i))) keys

-- One round of the last loop, which subtracts.
unfoldable pub xor_round : ℕ → Cells ℕ → Cells ℕ
xor_round i st =
    let r = ini_func2 (wrap (st (i % 4) + st ((i + 1) % 4) + st ((i + 4 - 1) % 4))) in
    let s₁ = update st ((i + 1) % 4) (bit_xor (st ((i + 1) % 4)) r) in
    let r' = wrap (r + 2 ^ 32 - i) in
    let s₂ = update s₁ ((i + 1 + 1) % 4) (bit_xor (s₁ ((i + 1 + 1) % 4)) r') in update s₂ (i % 4) r'

unfoldable pub xor_loop : ℕ → ℕ → Cells ℕ → Cells ℕ
xor_loop zero i st = st
xor_loop (suc k) i st = xor_loop k ((i + 1) % 4) (xor_round i st)

unfoldable pub tinymt32_init_by_array : Tinymt32 → List ℕ → ℕ → Tinymt32
tinymt32_init_by_array random init_key key_length =
    let s₀ = update (update random.status 0 0) 1 random.mat1 in
    let s₁ = update (update s₀ 2 random.mat2) 3 random.tmat in
    let count = if ltb 8 (key_length + 1) then key_length + 1 else 8 in
    let (st, i) = key_loop (count - 1) 1 (add_round 0 s₁ key_length) init_key in
    next_states 8 (period_certification (record random { status = xor_loop 4 i st }))
