-- ===== src/OrderBook/Bitmap/Lowest.antt =====
-- `find_lowest_occupied` finds the lower end of the set of occupied levels.
use exchange_and_feed_handle.Base.{
  ℕ, ◌+◌, ◌-◌, ◌*◌, ◌%◌, ◌^◌, ◌≤◌, ◌<◌, ◌≡◌, ◌≢◌, ◌∙◌, true, false, inl, inr, Option, none, some,
  List, [], ◌∷◌, arith, ◌==◌, ltb, length, Bool-cases,
}
use exchange_and_feed_handle.Base.Bits.{bit-zero}
use exchange_and_feed_handle.OrderBook.Bitmap.{
  has_bit, countr_zero, find_lowest_from, find_lowest_occupied,
}
use exchange_and_feed_handle.OrderBook.Bitmap.Laws.{digit}
use exchange_and_feed_handle.OrderBook.Bitmap.Digits.{
  Words, clear_of_digit, set_of_digit, trailing_zeros_lem, digit-nil, digit-cons_low,
  digit-cons_high,
}

-- What a search from word `w` on must answer: the lowest digit that is set, or that none below
-- `level_count` is.
abbrev IsLowest : ℕ → ℕ → List ℕ → Option ℕ → Type 0
IsLowest level_count w ws none = (i : ℕ) → w * 64 + i < level_count → digit ws i ≡ 0
IsLowest level_count w ws (some r) =
    (i : ℕ) × (r ≡ w * 64 + i)
    × (r < level_count)
    × (digit ws i ≡ 1)
    × ((j : ℕ) → j < i → digit ws j ≡ 0)

-- An answer for the words behind a word that is 0.
skip_zero :
    (n w : ℕ) (ws : List ℕ) (o : Option ℕ) → IsLowest n (w + 1) ws o → IsLowest n w (0 ∷ ws) o
skip_zero n w ws none h = λ i q. elim (Bool-cases (ltb i 64)) [
  | inl low ↦ digit-cons_low 0 ws i (ground arith) ∙ bit-zero i
  | inr high ↦ digit-cons_high 0 ws i (ground arith) ∙ h (i - 64) (ground arith)
]
skip_zero n w ws (some r) (i, e, lt, one, low) = (
  i + 64,
  omega arith,
  lt,
  ground (arith, digit-cons_high 0 ws (i + 64), add_sub i),
  λ j q. below j q,
)
  where
    add_sub : (i : ℕ) → i + 64 - 64 ≡ i
    add_sub i = omega arith

    below : (j : ℕ) → j < i + 64 → digit (0 ∷ ws) j ≡ 0
    below j q = elim (Bool-cases (ltb j 64)) [
      | inl lo ↦ digit-cons_low 0 ws j (ground arith) ∙ bit-zero j
      | inr hi ↦ digit-cons_high 0 ws j (ground arith) ∙ low (j - 64) (ground arith)
    ]

-- An answer from the first word `x` alone.
from_word :
    (n w x : ℕ) (ws : List ℕ)
    → x ≢ 0
    → x < 2 ^ 64
    → w * 64 + 64 ≤ 2 ^ 32
    → let idx : ℕ = (w * 64 + countr_zero x) % 2 ^ 32 in
      (ltb idx n ≡ true → IsLowest n w (x ∷ ws) (some idx))
      × (ltb idx n ≡ false → n ≤ w * 64 + countr_zero x)
from_word n w x ws h p fits =
    let (lt, one, low) = trailing_zeros_lem 64 x h p in
    let whole : (w * 64 + countr_zero x) % 2 ^ 32 ≡ w * 64 + countr_zero x = omega arith in
    (
      λ t. (
        countr_zero x,
        whole,
        ground arith,
        digit-cons_low x ws (countr_zero x) lt ∙ one,
        λ j q. digit-cons_low x ws j (omega arith) ∙ low j q,
      ),
      λ t. ground arith,
    )

-- The lowest digit of `x` is past the end, so nothing behind `x` counts either.
past_end :
    (n w x : ℕ) (ws : List ℕ) (o : Option ℕ)
    → x ≢ 0
    → x < 2 ^ 64
    → n ≤ w * 64 + countr_zero x
    → IsLowest n (w + 1) ws o
    → IsLowest n w (x ∷ ws) o
past_end n w x ws none h p past rest =
    let (lt, one, low) = trailing_zeros_lem 64 x h p in
    λ i q. digit-cons_low x ws i (omega arith) ∙ low i (omega arith)
past_end n w x ws (some r) h p past (i, e, lt', one', low') =
    let (lt, one, low) = trailing_zeros_lem 64 x h p in absurd (omega arith)

find_lowest_from-IsLowest :
    (n w : ℕ) (ws : List ℕ)
    → Words ws
    → w * 64 + 64 * length ws ≤ 2 ^ 32
    → IsLowest n w ws (find_lowest_from n w ws)
unfolding find_lowest_from
find_lowest_from-IsLowest n w [] v fits = λ i q. digit-nil i
find_lowest_from-IsLowest n w (x ∷ ws) v fits = elim (Bool-cases (x == 0)) [
  | inl blank ↦
      let e : x ≡ 0 = ground arith in
      rw e (
        skip_zero n w ws (find_lowest_from n (w + 1) ws)
          (find_lowest_from-IsLowest n (w + 1) ws v.1 (omega arith)))
  | inr full ↦
      let (found, past) = from_word n w x ws (ground arith) v.0 (omega arith) in
      let idx : ℕ = (w * 64 + countr_zero x) % 2 ^ 32 in
      elim (Bool-cases (ltb idx n)) [
        | inl inside ↦ rw (full, inside) (found inside)
        | inr outside ↦
            rw (full, outside)
              (past_end n w x ws (find_lowest_from n (w + 1) ws) (ground arith) v.0 (past outside)
                (find_lowest_from-IsLowest n (w + 1) ws v.1 (omega arith)))
      ]
]

abbrev pub Lowest : ℕ → List ℕ → Option ℕ → Type 0
Lowest level_count bm none = (i : ℕ) → i < level_count → has_bit bm i ≡ false
Lowest level_count bm (some r) =
    (r < level_count) × (has_bit bm r ≡ true) × ((j : ℕ) → j < r → has_bit bm j ≡ false)

IsLowest-Lowest : (n : ℕ) (bm : List ℕ) (o : Option ℕ) → IsLowest n 0 bm o → Lowest n bm o
IsLowest-Lowest n bm none h = λ i q. clear_of_digit bm i (h i (omega arith))
IsLowest-Lowest n bm (some r) (i, e, lt, one, low) =
    let e' : r ≡ i = omega arith in
    (lt, rw e' (set_of_digit bm i one), λ j q. clear_of_digit bm j (low j (omega arith)))

-- `find_lowest_occupied` on a bitmap of 64-bit words with at most 2 ^ 32 bits: if it gives `i`, then `i`
-- is below `level_count`, its bit is set and no lower bit is; if it gives nothing, no bit below
-- `level_count` is set.
pub find_lowest_occupied-Lowest :
    (n : ℕ) (bm : List ℕ)
    → Words bm
    → 64 * length bm ≤ 2 ^ 32
    → Lowest n bm (find_lowest_occupied n bm)
unfolding find_lowest_occupied
find_lowest_occupied-Lowest n bm v fits =
    IsLowest-Lowest n bm (find_lowest_from n 0 bm)
      (find_lowest_from-IsLowest n 0 bm v (omega arith))
