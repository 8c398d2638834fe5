-- ===== src/OrderBook/Invariant/Crossing.antt =====
-- `add_order` returns, accounts for its quantity, and leaves a book that is not crossed.
use exchange_and_feed_handle.Base.{
  ℕ, ◌<◌, ◌≡◌, sym, ◌∙◌, true, false, inl, inr, arith, ◌==◌, ltb, leb, Bool-cases, Option-cases,
}
use exchange_and_feed_handle.Base.Int.{ℤ, pos, pos_part, ◌+ℤ◌, leb_ℤ}
use exchange_and_feed_handle.Types.{Side, is_buy}
use exchange_and_feed_handle.OrderBook.State.{
  OrderBook, index_to_price, price_to_index, price_in_band,
}
use exchange_and_feed_handle.OrderBook.{crosses}
use exchange_and_feed_handle.OrderBook.Queues.{Queues, nonempty, pushed, IsUncrossed}
use exchange_and_feed_handle.OrderBook.Invariant.{IsBook}
use exchange_and_feed_handle.OrderBook.Invariant.Band.{IsBand, price_to_index-in_band}

pub level_order : (lo i j : ℕ) → leb_ℤ (pos lo +ℤ pos i) (pos lo +ℤ pos j) ≡ leb i j
unfolding ◌+ℤ◌
level_order lo i j = ground arith

-- An order that does not cross the book keeps it uncrossed when it joins its queue.
pub pushed-IsUncrossed :
    (b : OrderBook) (q : Queues) (side : Side) (price : ℤ) (k : ℕ)
    → IsBook b q
    → IsBand b
    → price_in_band b price ≡ true
    → crosses b side price ≡ false
    → IsUncrossed q
    → IsUncrossed (pushed q (is_buy side) (price_to_index b price) k)
unfolding crosses index_to_price
pushed-IsUncrossed b q side price k v band inside c u =
    let (lt, e) = price_to_index-in_band b price band inside in
    elim (Bool-cases (is_buy side)) [
      | inl buy ↦ rw buy (λ i j bid ask. buy_side (price_to_index b price) e buy i j bid ask)
      | inr sell ↦ rw sell (λ i j bid ask. sell_side (price_to_index b price) e sell i j bid ask)
    ]
  where
    buy_side :
        (l : ℕ)
        → price ≡ b.min_price +ℤ pos l
        → is_buy side ≡ true
        → (i j : ℕ) → nonempty (pushed q true l k true i) ≡ true
        → nonempty (q false j) ≡ true
        → i < j
    buy_side l e buy i j bid ask = elim (Bool-cases (l == i)) [
      | inr there ↦ u i j (rw there at bid) ask
      | inl here ↦ elim (Option-cases b.asks.best_idx) [
        | inl none_left ↦ cc (rw none_left at v.asks.best j)
        | inr (r, best) ↦
            let (used, lowest) = rw best at v.asks.best in
            let above : leb r l ≡ false =
              sym (level_order (pos_part b.min_price) r l)
              ∙ rw (buy, best, crosses, e, band.low) at c in
            elim (Bool-cases (ltb j r)) [
              | inl lt ↦ cc (lowest j (ground arith))
              | inr ge ↦ ground arith
            ]
      ]
    ]

    sell_side :
        (l : ℕ)
        → price ≡ b.min_price +ℤ pos l
        → is_buy side ≡ false
        → (i j : ℕ) → nonempty (q true i) ≡ true
        → nonempty (pushed q false l k false j) ≡ true
        → i < j
    sell_side l e sell i j bid ask = elim (Bool-cases (l == j)) [
      | inr there ↦ u i j bid (rw there at ask)
      | inl here ↦ elim (Option-cases b.bids.best_idx) [
        | inl none_left ↦ cc (rw none_left at v.bids.best i)
        | inr (r, best) ↦
            let (used, highest) = rw best at v.bids.best in
            let below : leb l r ≡ false =
              sym (level_order (pos_part b.min_price) l r)
              ∙ rw (sell, best, crosses, e, band.low) at c in
            elim (Bool-cases (ltb r i)) [
              | inl lt ↦ cc (highest i (ground arith))
              | inr ge ↦ ground arith
            ]
      ]
    ]
