-- ===== src/OrderBook/Bitmap/Laws.antt =====
-- `has_bit` after `set_bit` and `clear_bit`.
use exchange_and_feed_handle.Base.{
  Bool-cases, inl, inr, ℕ, zero, suc, ◌-◌, ◌*◌, ◌/◌, ◌%◌, ◌^◌, ◌<◌, ◌≡◌, not, ◌&&◌, ◌||◌, List,
  arith, ◌==◌, if◌then◌else◌, length, get_or-set, bit_and, bit_or,
}
use exchange_and_feed_handle.Base.Bits.{
  bit, bit-lt, bit-bit_and, bit-bit_or, bit-pow, bit_and-pow, bit-mask,
}
use native.Mathlib.Nat.{one-le-pow}
use exchange_and_feed_handle.OrderBook.Bitmap.{has_bit, set_bit, clear_bit, word}

pub is_one-mul : (d p : ℕ) → d < 2 → 0 < p → not (d * p == 0) ≡ (d == 1)
is_one-mul zero p h q = ground arith
is_one-mul (suc zero) p h q = ground arith
is_one-mul (suc (suc d)) p h q = absurd (omega arith)

-- `has_bit` reads one binary digit.
pub has_bit-bit : (bm : List ℕ) (i : ℕ) → has_bit bm i ≡ (bit (word bm (i / 64)) (i % 64) == 1)
unfolding has_bit
has_bit-bit bm i = rw (bit_and-pow (word bm (i / 64)) (i % 64)) (
    is_one-mul (bit (word bm (i / 64)) (i % 64)) (2 ^ (i % 64)) (bit-lt _ _)
      (one-le-pow (i % 64) 2 (omega arith)))

-- Digit `i` of the bitmap as a whole.
abbrev pub digit : List ℕ → ℕ → ℕ
digit bm i = bit (word bm (i / 64)) (i % 64)

-- Setting a bit in range sets its digit, and changes no other.
digit-set_bit :
    (bm : List ℕ) (i j : ℕ)
    → i / 64 < length bm
    → digit (set_bit bm i) j ≡ (if i == j then 1 else digit bm j)
unfolding set_bit
digit-set_bit bm i j h = elim (Bool-cases (i / 64 == j / 64)) [
  | inl same ↦
      let w : j / 64 ≡ i / 64 = ground arith in
      rw (get_or-set bm (i / 64) (j / 64) (bit_or (word bm (i / 64)) (2 ^ (i % 64))) 0, w)
        (ground (
          arith,
          bit-bit_or (word bm (i / 64)) (2 ^ (i % 64)) (j % 64),
          bit-pow (i % 64) (j % 64),
          bit-lt (word bm (i / 64)) (j % 64),
        ))
  | inr apart ↦
      ground (arith, get_or-set bm (i / 64) (j / 64) (bit_or (word bm (i / 64)) (2 ^ (i % 64))) 0)
]

-- Clearing a bit clears its digit, and changes no other.
digit-clear_bit :
    (bm : List ℕ) (i j : ℕ)
    → i / 64 < length bm
    → digit (clear_bit bm i) j ≡ (if i == j then 0 else digit bm j)
unfolding clear_bit
digit-clear_bit bm i j h = elim (Bool-cases (i / 64 == j / 64)) [
  | inl same ↦
      let w : j / 64 ≡ i / 64 = ground arith in
      rw
        (
          get_or-set bm (i / 64) (j / 64) (bit_and (word bm (i / 64)) (2 ^ 64 - 1 - 2 ^ (i % 64)))
              0,
          w,
        )
        (ground (
          arith,
          bit-bit_and (word bm (i / 64)) (2 ^ 64 - 1 - 2 ^ (i % 64)) (j % 64),
          bit-mask 64 (i % 64) (j % 64),
          bit-lt (word bm (i / 64)) (j % 64),
        ))
  | inr apart ↦ ground (
    arith,
    get_or-set bm (i / 64) (j / 64) (bit_and (word bm (i / 64)) (2 ^ 64 - 1 - 2 ^ (i % 64))) 0,
  )
]

-- After setting bit `i`, which lies in the bitmap, bit `i` is set and every other is as before.
pub has_bit-set_bit :
    (bm : List ℕ) (i j : ℕ)
    → i / 64 < length bm
    → has_bit (set_bit bm i) j ≡ ((i == j) || has_bit bm j)
has_bit-set_bit bm i j h =
    rw (has_bit-bit bm j, has_bit-bit (set_bit bm i) j, digit-set_bit bm i j h) (ground arith)

-- After clearing bit `i`, which lies in the bitmap, bit `i` is clear and every other is as before.
pub has_bit-clear_bit :
    (bm : List ℕ) (i j : ℕ)
    → i / 64 < length bm
    → has_bit (clear_bit bm i) j ≡ (not (i == j) && has_bit bm j)
has_bit-clear_bit bm i j h =
    rw (has_bit-bit bm j, has_bit-bit (clear_bit bm i) j, digit-clear_bit bm i j h) (ground arith)
