-- ===== src/OrderBook/Invariant/Top.antt =====
-- `stats` of src/order_book.cpp against the live orders of a settled book.
use exchange_and_feed_handle.Base.{
  ℕ, ◌≡◌, refl, sym, ◌∙◌, Bool, true, false, inl, inr, Option, none, some, arith, leb,
  if◌then◌else◌, Bool-cases, Option-cases,
}
use exchange_and_feed_handle.Base.Int.{ℤ, pos, pos_part, leb_ℤ, ◌+ℤ◌}
use exchange_and_feed_handle.Base.Map.{lookup}
use exchange_and_feed_handle.Types.{is_buy}
use exchange_and_feed_handle.OrderBook.State.{
  OrderBook, RestingOrderView, node, find, index_to_price,
}
use exchange_and_feed_handle.OrderBook.{stats}
use exchange_and_feed_handle.OrderBook.Queues.{nonempty}
use exchange_and_feed_handle.OrderBook.Invariant.{IsBest}
use exchange_and_feed_handle.OrderBook.Invariant.AddOrder.{IsSettled}
use exchange_and_feed_handle.OrderBook.Invariant.Crossing.{level_order}
use exchange_and_feed_handle.OrderBook.Invariant.Ends.{nonempty_of_mem}

-- The book has a best bid and a best ask; the ask is above the bid, and no order `v` of the bids is above
-- the one, nor `w` of the asks below the other.
pub record IsApart (b : OrderBook) (v w : RestingOrderView) : Type 0 where
  pub bid : ℤ
  pub ask : ℤ
  pub best_bid : (stats b).best_bid ≡ some bid
  pub best_ask : (stats b).best_ask ≡ some ask
  pub apart : leb_ℤ ask bid ≡ false
  pub below : leb_ℤ v.price bid ≡ true
  pub above : leb_ℤ ask w.price ≡ true

-- The level of a live order, which has a queue.
module _ (b : OrderBook) (s : IsSettled b) where
  abbrev used : Bool → ℕ → Bool
  used buy i = nonempty (s.sound.queues buy i)

  found_home :
      (id : ℕ) (v : RestingOrderView)
      → find b id ≡ some v
      → (i : ℕ) × (v.price ≡ b.min_price +ℤ pos i) × (used (is_buy v.side) i ≡ true)
  unfolding find
  found_home id v e = elim (Option-cases (lookup id b.index)) [
    | inl p ↦ cc (rw (p, find) at e)
    | inr (k, p) ↦
        let (_, there) = s.sound.book.indexed.found id k p in
        let home = s.sound.book.linked.home (is_buy (node b k).side) (node b k).level_idx k there in
        let seen = rw (p, find, home.live) at e in
        let same_side : (node b k).side ≡ v.side = cc in
        let same_price : (node b k).price ≡ v.price = cc in
        (
          (node b k).level_idx,
          sym same_price ∙ home.price,
          rw (sym same_side) (nonempty_of_mem k _ there),
        )
  ]

  best_level :
      (buy : Bool) (i : ℕ) (best : Option ℕ)
      → IsBest buy (used buy) best
      → used buy i ≡ true
      → (r : ℕ) × (best ≡ some r)
        × (used buy r ≡ true)
        × ((if buy then leb i r else leb r i) ≡ true)
  best_level true i none h u = cc (sym u ∙ h i)
  best_level false i none h u = cc (sym u ∙ h i)
  best_level true i (some r) (at_best, above) u = elim (Bool-cases (leb i r)) [
    | inl low ↦ (r, refl, at_best, low)
    | inr high ↦ cc (sym u ∙ above i (ground arith))
  ]
  best_level false i (some r) (at_best, below) u = elim (Bool-cases (leb r i)) [
    | inl high ↦ (r, refl, at_best, high)
    | inr low ↦ cc (sym u ∙ below i (ground arith))
  ]

  -- A live order of the bids and one of the asks.
  pub stats-IsApart :
      (j k : ℕ) (v w : RestingOrderView)
      → find b j ≡ some v
      → is_buy v.side ≡ true
      → find b k ≡ some w
      → is_buy w.side ≡ false
      → IsApart b v w
  unfolding stats index_to_price
  stats-IsApart j k v w e buys f sells =
      let (i, price_v, used_v) = found_home j v e in
      let (l, price_w, used_w) = found_home k w f in
      let (r, best_bid, at_bid, over) =
        best_level true i b.bids.best_idx s.sound.book.bids.best (rw buys at used_v) in
      let (t, best_ask, at_ask, under) =
        best_level false l b.asks.best_idx s.sound.book.asks.best (rw sells at used_w) in
      let less = s.uncrossed r t at_bid at_ask in
      let base : b.min_price ≡ pos (pos_part b.min_price) = s.sound.band.low in
      record {
        bid = b.min_price +ℤ pos r;
        ask = b.min_price +ℤ pos t;
        best_bid = rw (stats, best_bid) refl;
        best_ask = rw (stats, best_ask) refl;
        apart = rw base (level_order (pos_part b.min_price) t r ∙ ground arith);
        below = rw (price_v, base) (level_order (pos_part b.min_price) i r ∙ over);
        above = rw (price_w, base) (level_order (pos_part b.min_price) t l ∙ under);
      }
