-- ===== src/OrderBook/Bitmap.antt =====
-- The occupancy bitmaps of src/order_book.cpp: a vector of 64-bit words, one bit for each price level.
pub mod Digits
pub mod Highest
pub mod Laws
pub mod Lowest
use exchange_and_feed_handle.Base.{
  ℕ, zero, suc, ◌+◌, ◌-◌, ◌*◌, ◌/◌, ◌%◌, ◌^◌, Bool, not, Option, none, some, List, [], ◌∷◌, bit_and,
  bit_or, ◌==◌, ltb, if◌then◌else◌, get_or, set,
}

abbrev pub bits_per_word : ℕ
bits_per_word = 64

-- `bitmap[w]`
abbrev pub word : List ℕ → ℕ → ℕ
word bitmap w = get_or bitmap w 0

unfoldable pub has_bit : List ℕ → ℕ → Bool
has_bit bitmap idx =
    not (bit_and (word bitmap (idx / bits_per_word)) (2 ^ (idx % bits_per_word)) == 0)

-- `bm[w] |= (1ull << b)`
unfoldable pub set_bit : List ℕ → ℕ → List ℕ
set_bit bm idx =
    let w = idx / bits_per_word in set bm w (bit_or (word bm w) (2 ^ (idx % bits_per_word)))

-- `bm[w] &= ~(1ull << b)`
unfoldable pub clear_bit : List ℕ → ℕ → List ℕ
clear_bit bm idx =
    let w = idx / bits_per_word in
    set bm w (bit_and (word bm w) (2 ^ 64 - 1 - 2 ^ (idx % bits_per_word)))

-- The zeros below the lowest one of a number of `w` digits.
unfoldable pub trailing_zeros : ℕ → ℕ → ℕ
trailing_zeros zero x = 0
trailing_zeros (suc w) x = let rest = trailing_zeros w (x / 2) + 1 in if x % 2 == 1 then 0 else rest

-- The digits up to the highest one of a number of `w` digits.
unfoldable pub bit_width : ℕ → ℕ → ℕ
bit_width zero x = 0
bit_width (suc w) x = let rest = bit_width w (x / 2) + 1 in if x == 0 then 0 else rest

-- `std::countr_zero` and `std::countl_zero` of a `std::uint64_t`.
abbrev pub countr_zero : ℕ → ℕ
countr_zero x = trailing_zeros 64 x

abbrev pub countl_zero : ℕ → ℕ
countl_zero x = 64 - bit_width 64 x

-- The loop of `find_lowest_occupied` over the words from number `w` on.
unfoldable pub find_lowest_from : ℕ → ℕ → List ℕ → Option ℕ
find_lowest_from level_count w [] = none
find_lowest_from level_count w (x ∷ words) =
    let rest = find_lowest_from level_count (w + 1) words in
    let idx : ℕ = (w * bits_per_word + countr_zero x) % 2 ^ 32 in
    if x == 0 then rest else if ltb idx level_count then some idx else rest

unfoldable pub find_lowest_occupied : ℕ → List ℕ → Option ℕ
find_lowest_occupied level_count bitmap = find_lowest_from level_count 0 bitmap

-- What the loop of `find_highest_occupied` does when it comes to the word `x`, of number `w`.
unfoldable pub highest_in_word : ℕ → ℕ → ℕ → Option ℕ
highest_in_word level_count w x =
    let idx : ℕ = (w * bits_per_word + (63 - countl_zero x)) % 2 ^ 32 in
    if x == 0 then none else if ltb idx level_count then some idx else none

-- That loop goes down from the last word, so the words behind `x` come first.
unfoldable pub find_highest_from : ℕ → ℕ → List ℕ → Option ℕ
find_highest_from level_count w [] = none
find_highest_from level_count w (x ∷ words) = elim (find_highest_from level_count (w + 1) words) [
  | some idx ↦ some idx
  | none ↦ highest_in_word level_count w x
]

unfoldable pub find_highest_occupied : ℕ → List ℕ → Option ℕ
find_highest_occupied level_count bitmap = find_highest_from level_count 0 bitmap
