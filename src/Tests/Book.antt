-- ===== src/Tests/Book.antt =====
-- The order book on a small ladder.
use exchange_and_feed_handle.Base.{ℕ, ◌≡◌, refl, List, [], ◌∷◌, Option, none, some, map}
use exchange_and_feed_handle.Base.Int.{ℤ, pos}
use exchange_and_feed_handle.Base.Run.{Run, ok, ◌>>=◌}
use exchange_and_feed_handle.Types.{Side, TimeInForce, Trade}
use exchange_and_feed_handle.Tests.Compute.{book_code}
use exchange_and_feed_handle.OrderBook.State.{
  OrderBook, PriceLadderConfig, open_book, level_for, MatchOutput,
}
use exchange_and_feed_handle.OrderBook.{add_order, feed_execute, stats, BookStats}

abbrev ladder : PriceLadderConfig
ladder = record {
  min_price = pos 90;
  max_price = pos 170;
  symbol_price_stride = pos 0;
  symbol_price_modulo = 0;
}

-- Two bids at 100 and one at 101; then a sell of 12 at 99.
abbrev session : Run (OrderBook × MatchOutput)
session = do
  b ← open_book 1 ladder
  (b, _) ← add_order b 1 1 7 Side.buy (pos 100) 10 TimeInForce.gtc
  (b, _) ← add_order b 2 2 7 Side.buy (pos 100) 5 TimeInForce.gtc
  (b, _) ← add_order b 3 3 8 Side.buy (pos 101) 1 TimeInForce.gtc
  add_order b 4 4 9 Side.sell (pos 99) 12 TimeInForce.gtc

abbrev fills : Run (OrderBook × MatchOutput) → List (ℕ × ℤ × ℕ)
fills (ok (_, out)) = map (λ (t : Trade). (t.resting_order_id, t.price, t.qty)) out.trades
fills _ = []

abbrev stats_of : Run (OrderBook × MatchOutput) → Option BookStats
stats_of (ok (b, _)) = some (stats b)
stats_of _ = none

session-fills : fills session ≡ (3, pos 101, 1) ∷ (1, pos 100, 10) ∷ (2, pos 100, 1) ∷ []
unfolding book_code
session-fills = refl

stats_of-session :
    stats_of session
    ≡ some (record {
      live_orders = 1;
      bid_levels = 1;
      ask_levels = 0;
      best_bid = some (pos 100);
      best_ask = none;
    })
unfolding book_code
stats_of-session = refl

-- Two bids at 100 that sum to 2 ^ 32, as the exchange's book and as a subscriber's.
abbrev full_level : Run OrderBook
full_level = do
  b ← open_book 1 ladder
  (b, _) ← add_order b 1 1 7 Side.buy (pos 100) 4294967295 TimeInForce.gtc
  (b, _) ← add_order b 2 2 7 Side.buy (pos 100) 1 TimeInForce.gtc
  ok b

-- The total of the level of 100.
abbrev total_of : OrderBook → ℕ
total_of b = (level_for b Side.buy 10).total_qty

-- Behind the execution of the first: the totals of the exchange and of the subscriber.
abbrev totals : Run (ℕ × ℕ)
totals = do
  b ← full_level
  (e, _) ← add_order b 3 3 9 Side.sell (pos 100) 4294967295 TimeInForce.gtc
  ok (total_of e, total_of (feed_execute b 1 4294967295).0)

totals_differ : totals ≡ ok (1, 0)
unfolding book_code
totals_differ = refl
