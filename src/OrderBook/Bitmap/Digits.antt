-- ===== src/OrderBook/Bitmap/Digits.antt =====
-- One word of a bitmap: its lowest and its highest set digit, and the digits of a list of words.
use exchange_and_feed_handle.Base.{
  ℕ, zero, suc, ◌+◌, ◌-◌, ◌/◌, ◌%◌, ◌^◌, ◌≤◌, ◌<◌, ◌≡◌, ◌≢◌, refl, true, false, inl, inr, List, [],
  ◌∷◌, arith, ◌==◌, ltb, if◌then◌else◌, All, Bool-cases,
}
use native.Mathlib.Nat.{pow-suc}
use exchange_and_feed_handle.Base.Bits.{bit, bit-zero, bit-lt, bit-add_one}
use exchange_and_feed_handle.OrderBook.Bitmap.{has_bit, trailing_zeros, bit_width}
use exchange_and_feed_handle.OrderBook.Bitmap.Laws.{digit, has_bit-bit}

low_part :
    (x t : ℕ)
    → x % 2 ≡ 0
    → ((j : ℕ) → j < t → bit (x / 2) j ≡ 0)
    → (j : ℕ) → j < t + 1
    → bit x j ≡ 0
unfolding bit
low_part x t e low zero q = e
low_part x t e low (suc j) q = low j (omega arith)

-- The lowest digit of a word that is not 0.
pub trailing_zeros_lem :
    (w x : ℕ)
    → x ≢ 0
    → x < 2 ^ w
    → (trailing_zeros w x < w)
      × (bit x (trailing_zeros w x) ≡ 1)
      × ((j : ℕ) → j < trailing_zeros w x → bit x j ≡ 0)
unfolding trailing_zeros
trailing_zeros_lem zero x h p = absurd (omega arith)
trailing_zeros_lem (suc w) x h p = elim (Bool-cases (x % 2 == 1)) [
  | inl odd ↦ rw odd (omega arith, unfold bit in ground arith, λ j q. absurd (omega arith))
  | inr even ↦
      let (lt, one, low) =
        trailing_zeros_lem w (x / 2) (λ e. h (ground arith)) (omega (arith, pow-suc 2 w)) in
      rw even (
        omega arith,
        rw (bit-add_one x (trailing_zeros w (x / 2))) one,
        low_part x (trailing_zeros w (x / 2)) (ground arith) low,
      )
]

high_part : (x t : ℕ) → ((j : ℕ) → t ≤ j → bit (x / 2) j ≡ 0) → (j : ℕ) → t + 1 ≤ j → bit x j ≡ 0
unfolding bit
high_part x t high zero q = absurd (omega arith)
high_part x t high (suc j) q = high j (omega arith)

bit_width-zero : (w : ℕ) → bit_width w 0 ≡ 0
unfolding bit_width
bit_width-zero zero = refl
bit_width-zero (suc w) = refl

-- The highest digit of a word that is not 0, in place `k`.
pub bit_width_lem :
    (w x : ℕ)
    → x ≢ 0
    → x < 2 ^ w
    → (k : ℕ) × (bit_width w x ≡ k + 1)
      × (k < w)
      × (bit x k ≡ 1)
      × ((j : ℕ) → k + 1 ≤ j → bit x j ≡ 0)
unfolding bit_width
bit_width_lem zero x h p = absurd (omega arith)
bit_width_lem (suc w) x h p = elim (Bool-cases (x / 2 == 0)) [
  | inl last ↦
      let e : x ≡ 1 = ground arith in
      (
        0,
        rw e (omega (arith, bit_width-zero w)),
        omega arith,
        unfold bit in omega arith,
        high_part x 0 (λ j q. rw (half-zero last) (bit-zero j)),
      )
  | inr more ↦
      let (k, width, lt, one, high) =
        bit_width_lem w (x / 2) (ground arith) (omega (arith, pow-suc 2 w)) in
      (k + 1, ground arith, omega arith, rw (bit-add_one x k) one, high_part x (k + 1) high)
]
  where
    half-zero : (x / 2 == 0) ≡ true → x / 2 ≡ 0
    half-zero e = ground arith

digit-cons :
    (x : ℕ) (ws : List ℕ) (j : ℕ)
    → digit (x ∷ ws) j ≡ (if ltb j 64 then bit x j else digit ws (j - 64))
digit-cons x ws j = elim (Bool-cases (ltb j 64)) [
  | inl low ↦
      let w : j / 64 ≡ 0 = ground arith in let r : j % 64 ≡ j = ground arith in rw (low, w, r)
  | inr high ↦
      let w : j / 64 ≡ suc ((j - 64) / 64) = ground arith in
      let r : j % 64 ≡ (j - 64) % 64 = ground arith in rw (high, w, r)
]

pub digit-nil : (j : ℕ) → digit [] j ≡ 0
digit-nil j = bit-zero (j % 64)

pub digit-cons_low : (x : ℕ) (ws : List ℕ) (j : ℕ) → j < 64 → digit (x ∷ ws) j ≡ bit x j
digit-cons_low x ws j h = ground (arith, digit-cons x ws j)

pub digit-cons_high : (x : ℕ) (ws : List ℕ) (j : ℕ) → 64 ≤ j → digit (x ∷ ws) j ≡ digit ws (j - 64)
digit-cons_high x ws j h = ground (arith, digit-cons x ws j)

abbrev pub Words : List ℕ → Type 0
Words ws = All (λ x. x < 2 ^ 64) ws

pub clear_of_digit : (bm : List ℕ) (i : ℕ) → digit bm i ≡ 0 → has_bit bm i ≡ false
clear_of_digit bm i e = rw (has_bit-bit bm i) (ground arith)

pub set_of_digit : (bm : List ℕ) (i : ℕ) → digit bm i ≡ 1 → has_bit bm i ≡ true
set_of_digit bm i e = rw (has_bit-bit bm i) (ground arith)

pub digit_of_clear : (bm : List ℕ) (i : ℕ) → has_bit bm i ≡ false → digit bm i ≡ 0
digit_of_clear bm i e = digit_zero (digit bm i) (bit-lt _ _) (rw (has_bit-bit bm i) at e)
  where
    digit_zero : (d : ℕ) → d < 2 → (d == 1) ≡ false → d ≡ 0
    digit_zero d h q = ground arith
