-- ===== src/OrderBook/Invariant/Band.antt =====
-- The price band of a book, and the level of a price in it.
use exchange_and_feed_handle.Base.{ℕ, ◌+◌, ◌%◌, ◌^◌, ◌<◌, ◌≡◌, true, arith, ◌&&◌}
use exchange_and_feed_handle.Base.Int.{ℤ, pos, negsuc, pos_part, leb_ℤ, to_u64, ◌+ℤ◌, ◌-ℤ◌}
use exchange_and_feed_handle.OrderBook.State.{OrderBook, price_in_band, price_to_index}

-- The band has positive prices, and one level for each.
pub record IsBand (b : OrderBook) : Type 0 where
  pub low : b.min_price ≡ pos (pos_part b.min_price)
  pub high : b.max_price ≡ pos (pos_part b.max_price)
  pub positive : 0 < pos_part b.min_price
  pub span : pos_part b.max_price + 1 ≡ pos_part b.min_price + b.level_count
  pub bound : b.level_count < 2 ^ 32

level_of :
    (lo hi n : ℕ) (price : ℤ)
    → 0 < lo
    → hi + 1 ≡ lo + n
    → n < 2 ^ 32
    → (leb_ℤ (pos lo) price && leb_ℤ price (pos hi)) ≡ true
    → (to_u64 (price -ℤ pos lo) % 2 ^ 32 < n)
      × (price ≡ pos lo +ℤ pos (to_u64 (price -ℤ pos lo) % 2 ^ 32))
unfolding to_u64 ◌-ℤ◌ ◌+ℤ◌
level_of lo hi n (pos p) h e s i = ground arith
level_of lo hi n (negsuc p) h e s i = ground arith

-- In a book with a band of positive prices and one level for each, fewer than 2 ^ 32: a price in the
-- band has an index below the number of levels, and the level with that index has that price.
pub price_to_index-in_band :
    (b : OrderBook) (price : ℤ)
    → IsBand b
    → price_in_band b price ≡ true
    → (price_to_index b price < b.level_count)
      × (price ≡ b.min_price +ℤ pos (price_to_index b price))
unfolding price_in_band price_to_index
price_to_index-in_band b price v h = rw v.low (
    level_of (pos_part b.min_price) (pos_part b.max_price) b.level_count price v.positive v.span
      v.bound (rw (v.low, v.high) at h))
