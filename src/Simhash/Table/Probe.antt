-- ===== src/Simhash/Table/Probe.antt =====
-- The probe sequence: with an odd stride and a power of two for the size, it visits every slot.
use native.Mathlib.Decide.{ℕ_discrete, dec_lt}
use native.Mathlib.Nat.{
  mod-lt, mod-eq_of_lt, mod-add-mod, add-mod, add-mod-mod, add-mul-mod_self_left, mod-add-div,
}
use Prim.Native.Nat.{bit_and}
use binsort.Base.{
  ℕ, zero, suc, ◌+◌, ◌-◌, ◌*◌, ◌/◌, ◌%◌, ◌^◌, ◌≤◌, ◌<◌, ◌≡◌, ◌≢◌, sym, ap, ◌∙◌, ◌⊎◌, inl, inr,
  arith,
}
use binsort.Base.Bits.{two_pow_suc, two_pow_pos, bit_and_mask, mod-mod_pow}
use binsort.Simhash.Table.{Table, index, next_probe}

mod_unique : (x m r q : ℕ) → x ≡ r + m * q → r < m → x % m ≡ r
mod_unique x m r q e h = ap (λ y. y % m) e ∙ add-mul-mod_self_left r m q ∙ mod-eq_of_lt h

mod-double_cases : (x m : ℕ) → 1 ≤ m → (x % (2 * m) ≡ x % m) ⊎ (x % (2 * m) ≡ x % m + m)
mod-double_cases x m h =
    let r = x % (2 * m) in
    let d = x / (2 * m) in
    let whole = mod-add-div x (2 * m) in
    let below : r < 2 * m = mod-lt x (omega arith) in
    elim (dec_lt r m) [
      | yes low ↦ inl (sym (mod_unique x m r (2 * d) (omega arith) low))
      | no high ↦
          inr (omega (arith, mod_unique x m (r - m) (2 * d + 1) (omega arith) (omega arith)))
    ]

mod_flip :
    (x t m q : ℕ)
    → 1 ≤ m
    → x % m ≡ t % m
    → x % (2 * m) ≢ t % (2 * m)
    → (x + m * (2 * q + 1)) % (2 * m) ≡ t % (2 * m)
mod_flip x t m q h e ne =
    let rt = t % (2 * m) in
    let rx = x % (2 * m) in
    let d = x / (2 * m) in
    let whole = mod-add-div x (2 * m) in
    let below : rt < 2 * m = mod-lt t (omega arith) in
    elim (dec_lt rx rt) [
      | yes low ↦
          let apart : rt ≡ rx + m = omega (arith, mod-double_cases x m h, mod-double_cases t m h) in
          mod_unique _ (2 * m) rt (d + q) (omega arith) below
      | no high ↦
          let apart : rx ≡ rt + m = omega (arith, mod-double_cases x m h, mod-double_cases t m h) in
          mod_unique _ (2 * m) rt (d + q + 1) (omega arith) below
    ]

-- Some multiple of an odd number, below 2^k times it, has any given remainder by 2^k.
odd_multiple : (k q t : ℕ) → (c : ℕ) × (c < 2 ^ k) × ((c * (2 * q + 1)) % 2 ^ k ≡ t % 2 ^ k)
odd_multiple zero q t = (0, omega arith, omega arith)
odd_multiple (suc k) q t =
    let (c, lt, e) = odd_multiple k q t in
    let m = 2 ^ k in
    let s = 2 * q + 1 in
    rw (two_pow_suc k) (elim (ℕ_discrete (c * s % (2 * m)) (t % (2 * m))) [
      | yes same ↦ (c, omega arith, same)
      | no other ↦
          let shifted : (c + m) * s ≡ c * s + m * s = omega arith in
          (
            c + m,
            omega arith,
            ap (λ y. y % (2 * m)) shifted ∙ mod_flip (c * s) t m q (two_pow_pos k) e other,
          )
    ])

-- The slot that a value is looked for in round `c`.
abbrev pub slot : ℕ → ℕ → ℕ → ℕ
slot n crc c = (crc + c * (2 * (n / 4) + 1)) % n

-- In a table of 2 ^ k slots every slot is looked at in some round below its size, for any value.
pub slot_reaches : (k crc i : ℕ) → i < 2 ^ k → (c : ℕ) × (c < 2 ^ k) × (slot (2 ^ k) crc c ≡ i)
slot_reaches k crc i h =
    let n = 2 ^ k in
    let r = crc % n in
    let below : r < n = mod-lt crc (two_pow_pos k) in
    let (c, lt, e) = odd_multiple k (n / 4) (i + n - r) in
    (
      c,
      lt,
      add-mod crc (c * (2 * (n / 4) + 1)) n
          ∙ ap (λ y. (r + y) % n) e
          ∙ add-mod-mod r (i + n - r) n
          ∙ mod_unique (r + (i + n - r)) n i 1 (omega arith) h,
    )

pub index_start : (k : ℕ) (t : Table) (crc : ℕ) → t.nhash ≡ 2 ^ k → index t crc ≡ slot t.nhash crc 0
unfolding index
index_start k t crc e =
    ap (λ n. bit_and crc (n - 1)) e
    ∙ bit_and_mask k crc
    ∙ ap (λ n. crc % n) (sym e)
    ∙ ap (λ y. y % t.nhash) (omega arith)

pub index_next :
    (k : ℕ) (t : Table) (crc h c : ℕ)
    → t.nhash ≡ 2 ^ k
    → k ≤ 32
    → index t h ≡ slot t.nhash crc c
    → index t (next_probe t h) ≡ slot t.nhash crc (suc c)
unfolding index next_probe
index_next k t crc h c e b p =
    let n = 2 ^ k in
    let s = 2 * (n / 4) + 1 in
    let at : h % n ≡ (crc + c * s) % n =
      sym (bit_and_mask k h) ∙ ap (λ n. bit_and h (n - 1)) (sym e) ∙ p ∙ ap (λ n. slot n crc c) e in
    ap (λ n. bit_and ((h + (2 * (n / 4) + 1)) % 2 ^ 32) (n - 1)) e
    ∙ bit_and_mask k ((h + s) % 2 ^ 32)
    ∙ mod-mod_pow k 32 (h + s) b
    ∙ sym (mod-add-mod h n s)
    ∙ ap (λ y. (y + s) % n) at
    ∙ mod-add-mod (crc + c * s) n s
    ∙ ap (λ y. y % n) (omega arith)
    ∙ ap (λ n. slot n crc (suc c)) (sym e)
