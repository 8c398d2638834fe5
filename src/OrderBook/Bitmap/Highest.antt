-- ===== src/OrderBook/Bitmap/Highest.antt =====
-- `find_highest_occupied` finds the upper end of the set of occupied levels.
use exchange_and_feed_handle.Base.{
  ℕ, ◌+◌, ◌-◌, ◌*◌, ◌%◌, ◌^◌, ◌≤◌, ◌<◌, ◌≡◌, refl, ◌∙◌, true, false, inl, inr, Option, none, some,
  List, [], ◌∷◌, arith, ◌==◌, ltb, length, Bool-cases,
}
use exchange_and_feed_handle.Base.Bits.{bit-zero}
use exchange_and_feed_handle.OrderBook.Bitmap.{
  has_bit, countl_zero, highest_in_word, find_highest_from, find_highest_occupied,
}
use exchange_and_feed_handle.OrderBook.Bitmap.Laws.{digit}
use exchange_and_feed_handle.OrderBook.Bitmap.Digits.{
  Words, clear_of_digit, set_of_digit, digit_of_clear, bit_width_lem, digit-nil, digit-cons_low,
  digit-cons_high,
}

-- What a search of the words from number `w` on must answer: the highest digit that is set, or that
-- none is.
abbrev IsHighest : ℕ → ℕ → List ℕ → Option ℕ → Type 0
IsHighest level_count w ws none = (i : ℕ) → digit ws i ≡ 0
IsHighest level_count w ws (some r) =
    (i : ℕ) × (r ≡ w * 64 + i)
    × (r < level_count)
    × (digit ws i ≡ 1)
    × ((j : ℕ) → i < j → digit ws j ≡ 0)

-- No digit from `level_count` on is set.
abbrev Within : ℕ → ℕ → List ℕ → Type 0
Within level_count w ws = (i : ℕ) → level_count ≤ w * 64 + i → digit ws i ≡ 0

Within-tail : (n w x : ℕ) (ws : List ℕ) → Within n w (x ∷ ws) → Within n (w + 1) ws
Within-tail n w x ws h i q = ground (arith, digit-cons_high x ws (i + 64), h (i + 64), add_sub i)
  where
    add_sub : (i : ℕ) → i + 64 - 64 ≡ i
    add_sub i = omega arith

-- An answer behind `x` stands.
keep_higher :
    (n w x r : ℕ) (ws : List ℕ) → IsHighest n (w + 1) ws (some r) → IsHighest n w (x ∷ ws) (some r)
keep_higher n w x r ws (i, e, lt, one, high) = (
  i + 64,
  omega arith,
  lt,
  ground (arith, digit-cons_high x ws (i + 64), add_sub i),
  λ j q. digit-cons_high x ws j (omega arith) ∙ high (j - 64) (omega arith),
)
  where
    add_sub : (i : ℕ) → i + 64 - 64 ≡ i
    add_sub i = omega arith

-- With no answer behind it, the word `x` decides.
from_word :
    (n w x : ℕ) (ws : List ℕ)
    → x < 2 ^ 64
    → w * 64 + 64 ≤ 2 ^ 32
    → Within n w (x ∷ ws)
    → ((i : ℕ) → digit ws i ≡ 0)
    → IsHighest n w (x ∷ ws) (highest_in_word n w x)
unfolding highest_in_word
from_word n w x ws p fits inside blank = elim (Bool-cases (x == 0)) [
  | inl empty ↦ rw empty λ i. elim (Bool-cases (ltb i 64)) [
    | inl lo ↦
        let e : x ≡ 0 = ground arith in digit-cons_low x ws i (ground arith) ∙ rw e (bit-zero i)
    | inr hi ↦ digit-cons_high x ws i (ground arith) ∙ blank (i - 64)
  ]
  | inr full ↦
      let (k, width, lt, one, high) = bit_width_lem 64 x (ground arith) p in
      let at : (w * 64 + (63 - countl_zero x)) % 2 ^ 32 ≡ w * 64 + k = omega arith in
      let set : digit (x ∷ ws) k ≡ 1 = digit-cons_low x ws k lt ∙ one in
      let below : ltb (w * 64 + k) n ≡ true = ground (arith, inside k) in
      rw (full, at, below)
        (
          k,
          refl,
          ground arith,
          set,
          λ j q. elim (Bool-cases (ltb j 64)) [
            | inl lo ↦ digit-cons_low x ws j (ground arith) ∙ high j (omega arith)
            | inr hi ↦ digit-cons_high x ws j (ground arith) ∙ blank (j - 64)
          ],
        )
]

find_highest_from-IsHighest :
    (n w : ℕ) (ws : List ℕ)
    → Words ws
    → w * 64 + 64 * length ws ≤ 2 ^ 32
    → Within n w ws
    → IsHighest n w ws (find_highest_from n w ws)
unfolding find_highest_from
find_highest_from-IsHighest n w [] v fits inside = λ i. digit-nil i
find_highest_from-IsHighest n w (x ∷ ws) v fits inside =
    behind (find_highest_from n (w + 1) ws)
      (find_highest_from-IsHighest n (w + 1) ws v.1 (omega arith) (Within-tail n w x ws inside))
  where
    behind :
        (o : Option ℕ)
        → IsHighest n (w + 1) ws o
        → IsHighest n w (x ∷ ws) (elim o [ some idx ↦ some idx | none ↦ highest_in_word n w x ])
    behind none h = from_word n w x ws v.0 (omega arith) inside h
    behind (some r) h = keep_higher n w x r ws h

-- The answer `i` is below `level_count`, its bit is set and no higher bit is; without an answer no bit
-- is set.
abbrev pub Highest : ℕ → List ℕ → Option ℕ → Type 0
Highest level_count bm none = (i : ℕ) → has_bit bm i ≡ false
Highest level_count bm (some r) =
    (r < level_count) × (has_bit bm r ≡ true) × ((j : ℕ) → r < j → has_bit bm j ≡ false)

IsHighest-Highest : (n : ℕ) (bm : List ℕ) (o : Option ℕ) → IsHighest n 0 bm o → Highest n bm o
IsHighest-Highest n bm none h = λ i. clear_of_digit bm i (h i)
IsHighest-Highest n bm (some r) (i, e, lt, one, high) =
    let e' : r ≡ i = omega arith in
    (lt, rw e' (set_of_digit bm i one), λ j q. clear_of_digit bm j (high j (omega arith)))

-- On a bitmap of 64-bit words with at most 2 ^ 32 bits, none of them set from `level_count` on:
-- `find_highest_occupied` gives the highest bit that is set, and nothing exactly when no bit is set.
pub find_highest_occupied-Highest :
    (n : ℕ) (bm : List ℕ)
    → Words bm
    → 64 * length bm ≤ 2 ^ 32
    → ((i : ℕ) → n ≤ i → has_bit bm i ≡ false)
    → Highest n bm (find_highest_occupied n bm)
unfolding find_highest_occupied
find_highest_occupied-Highest n bm v fits inside =
    IsHighest-Highest n bm (find_highest_from n 0 bm) (
      find_highest_from-IsHighest n 0 bm v (omega arith)
        (λ i q. digit_of_clear bm i (inside i (omega arith))))
