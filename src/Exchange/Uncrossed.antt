-- ===== src/Exchange/Uncrossed.antt =====
-- The best prices of an exchange's books behind a session.
use exchange_and_feed_handle.Base.{
  ℕ, ◌≤◌, ◌<◌, ◌^◌, ◌≡◌, sym, ◌∙◌, true, false, some, List, arith, length, All,
}
use mathlib.Core.Path.{subst}
use exchange_and_feed_handle.Base.Int.{pos_part}
use exchange_and_feed_handle.Base.Run.{ok}
use exchange_and_feed_handle.Types.{ClientCommand, is_buy}
use exchange_and_feed_handle.OrderBook.State.{null, RestingOrderView, find}
use exchange_and_feed_handle.OrderBook.Invariant.Top.{IsApart, stats-IsApart}
use exchange_and_feed_handle.BookManager.{symbol_ladder, book_at}
use exchange_and_feed_handle.BookManager.Invariant.{IsManager}
use exchange_and_feed_handle.Exchange.{Exchange, ExchangeConfig, open_exchange}
use exchange_and_feed_handle.Exchange.Replay.{run}
use exchange_and_feed_handle.Exchange.Liveness.{open_exchange-run}

-- On a new exchange where no symbol's greatest price leaves 64 bits, any commands for its symbols, at
-- most `null` of them, have been run. If an order of the bids and an order of the asks are live in a
-- symbol's book, `stats` has a best bid and a best ask; the best ask is above the best bid, the order
-- of the bids is not above the best bid, and the order of the asks is not below the best ask.
pub run-IsApart :
    (cfg : ExchangeConfig) (ex ex' : Exchange) (cmds : List (ClientCommand × ℕ)) (s j k : ℕ)
    (v w : RestingOrderView)
    → ((t : ℕ) → t ≤ cfg.max_symbol → pos_part (symbol_ladder cfg.ladder t).max_price < 2 ^ 63)
    → open_exchange cfg ≡ ok ex
    → length cmds ≤ null
    → All (λ (c : ClientCommand × ℕ). (0 < c.0.symbol_id) × (c.0.symbol_id ≤ cfg.max_symbol)) cmds
    → run ex cmds ≡ ok ex'
    → s ≤ cfg.max_symbol
    → find (book_at ex'.books s) j ≡ some v
    → is_buy v.side ≡ true
    → find (book_at ex'.books s) k ≡ some w
    → is_buy w.side ≡ false
    → IsApart (book_at ex'.books s) v w
run-IsApart cfg ex ex' cmds s j k v w h e few good ran le bid buys ask sells =
    let (last, done, m) = open_exchange-run cfg ex cmds h e few good in
    let same : last ≡ ex' = ok_same (sym done ∙ ran) in
    let m' = subst (λ x. IsManager cfg.max_symbol (length cmds) x.books) same m in
    stats-IsApart (book_at ex'.books s) (m'.books s (omega (arith, m'.top))) j k v w bid buys ask
      sells
  where
    ok_same : {a b : Exchange} → ok a ≡ ok b → a ≡ b
    ok_same {a} {b} p = cc
