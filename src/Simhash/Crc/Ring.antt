-- ===== src/Simhash/Crc/Ring.antt =====
-- The hash of a ring buffer is the hash of the bytes in the order in which they were read.
use native.Mathlib.Decide.{dec_lt}
use native.Mathlib.Nat.{mod-eq_of_lt, mod-add-mod, add-mod_right}
use Prim.Native.Nat.{bit_xor}
use binsort.Base.{
  ℕ, zero, suc, ◌+◌, ◌%◌, ◌<◌, ◌≡◌, ◌≢◌, sym, ap, ◌∙◌, List, [], ◌∷◌, ◌++◌, Cells, update, arith,
}
use binsort.Simhash.Crc.{crc_byte, crc_loop, hash_crc32}

-- The `k` bytes from index `i` on, going round at `n`.
unfoldable pub ring : Cells ℕ → ℕ → ℕ → ℕ → List ℕ
ring buf n i zero = []
ring buf n i (suc k) = buf i ∷ ring buf n ((i + 1) % n) k

crc_fold : ℕ → List ℕ → ℕ
crc_fold crc [] = crc
crc_fold crc (b ∷ bs) = crc_fold (crc_byte crc b) bs

-- The hash of a sequence of bytes.
unfoldable pub crc_of : List ℕ → ℕ
unfolding crc_fold
crc_of bs = bit_xor (crc_fold 0xffff_ffff bs) 0xffff_ffff

-- Fewer than `n` steps round the ring do not come back to the start.
away : (n i j : ℕ) → i < n → 0 < j → j < n → (i + j) % n ≢ i
away n i j hi pos h = elim (dec_lt (i + j) n) [
  | yes p ↦ omega (arith, mod-eq_of_lt p)
  | no p ↦ grind arith
]

step_round : (n i j : ℕ) → ((i + j) % n + 1) % n ≡ (i + suc j) % n
step_round n i j = mod-add-mod (i + j) n 1 ∙ ap (λ y. y % n) (omega arith)

whole_round : (n i : ℕ) → i < n → (i + n) % n ≡ i
whole_round n i h = add-mod_right i n ∙ mod-eq_of_lt h

crc_loop-ring :
    (k j crc i i0 n : ℕ) (buf : Cells ℕ)
    → i0 < n
    → suc k + j ≡ n
    → i ≡ (i0 + j) % n
    → crc_loop (suc k) buf i0 n i crc ≡ crc_fold crc (ring buf n i (suc k))
unfolding crc_loop ring crc_fold
crc_loop-ring zero j crc i i0 n buf h e at =
    let full_turn : suc j ≡ n = omega arith in
    let back : (i + 1) % n ≡ i0 =
      ap (λ y. (y + 1) % n) at
      ∙ step_round n i0 j
      ∙ ap (λ y. (i0 + y) % n) full_turn
      ∙ whole_round n i0 h in
    ground arith
crc_loop-ring (suc k) j crc i i0 n buf h e at =
    let next : (i + 1) % n ≡ (i0 + suc j) % n = ap (λ y. (y + 1) % n) at ∙ step_round n i0 j in
    let apart : (i + 1) % n ≢ i0 =
      λ back. away n i0 (suc j) h (omega arith) (omega arith) (sym next ∙ back) in
    ground (
      arith,
      crc_loop-ring k (suc j) (crc_byte crc (buf i)) ((i + 1) % n) i0 n buf h (omega arith) next,
    )

pub hash_crc32-crc_of :
    (buf : Cells ℕ) (i n : ℕ) → i < n → hash_crc32 buf i n ≡ crc_of (ring buf n i n)
unfolding hash_crc32 crc_of
hash_crc32-crc_of buf i zero h = absurd (omega arith)
hash_crc32-crc_of buf i (suc k) h =
    ap (λ c. bit_xor c 0xffff_ffff)
      (crc_loop-ring k 0 0xffff_ffff i i (suc k) buf h (omega arith)
        (sym (mod-eq_of_lt h) ∙ ap (λ y. y % suc k) (omega arith)))

ring_write :
    (k j n i p c : ℕ) (buf : Cells ℕ)
    → i < n
    → suc j + k ≡ n
    → p ≡ (i + suc j) % n
    → ring (update buf i c) n p (suc k) ≡ ring buf n p k ++ c ∷ []
unfolding ring
ring_write zero j n i p c buf h e at =
    let full_turn : suc j ≡ n = omega arith in
    let back : p ≡ i = at ∙ ap (λ y. (i + y) % n) full_turn ∙ whole_round n i h in ground arith
ring_write (suc k) j n i p c buf h e at =
    let apart : p ≢ i = λ back. away n i (suc j) h (omega arith) (omega arith) (sym at ∙ back) in
    let next : (p + 1) % n ≡ (i + suc (suc j)) % n =
      ap (λ y. (y + 1) % n) at ∙ step_round n i (suc j) in
    ground (arith, ring_write k (suc j) n i ((p + 1) % n) c buf h (omega arith) next)

-- Replacing the oldest byte and moving on drops it at the front and adds the new one at the end.
pub ring_push :
    (k n i c : ℕ) (buf : Cells ℕ)
    → n ≡ suc k
    → i < n
    → ring (update buf i c) n ((i + 1) % n) n ≡ ring buf n ((i + 1) % n) k ++ c ∷ []
ring_push k n i c buf e h =
    ap (ring (update buf i c) n ((i + 1) % n)) e
    ∙ ring_write k 0 n i ((i + 1) % n) c buf h (omega arith) (ap (λ y. (i + y) % n) (omega arith))
