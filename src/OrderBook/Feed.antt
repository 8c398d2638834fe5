-- ===== src/OrderBook/Feed.antt =====
-- The operations by which a subscriber follows the book, against those of the exchange.
use exchange_and_feed_handle.Base.{
  ℕ, ◌<◌, ◌≡◌, true, false, not, some, [], ◌∷◌, arith, ◌==◌, leb, if◌then◌else◌,
}
use exchange_and_feed_handle.Base.Int.{ℤ}
use exchange_and_feed_handle.Base.Map.{lookup}
use exchange_and_feed_handle.Base.Run.{ok}
use exchange_and_feed_handle.Types.{Side, TimeInForce, RejectReason, is_none}
use exchange_and_feed_handle.OrderBook.State.{OrderBook, MatchOutput, contains, price_in_band, node}
use exchange_and_feed_handle.OrderBook.Nodes.{remove_node}
use exchange_and_feed_handle.OrderBook.{
  add_order, feed_add, cancel_order, feed_execute, execute_node, match_loop, rest_remainder,
  crosses, add_event, empty_output,
}

-- The output for a GTC order that meets no opposite order.
abbrev quiet_output : OrderBook → ℕ → ℕ → ℕ → Side → ℤ → ℕ → MatchOutput
quiet_output b seq order_id account_id side price qty =
    if qty == 0
    then record empty_output { remaining_qty = qty; reject = RejectReason.invalid_qty }
    else if not (price_in_band b price)
    then record empty_output { remaining_qty = qty; reject = RejectReason.invalid_price }
    else if contains b order_id
    then record empty_output { remaining_qty = qty; reject = RejectReason.duplicate_order }
    else record empty_output { md_events = add_event b seq order_id account_id side price qty ∷ [] }

-- For a GTC order that does not cross the book: `add_order` returns the book that `feed_add` gives, and
-- `feed_add` answers true exactly when `add_order` does not reject. The output is one `Add` event with
-- the whole quantity, or the reason of the first check that fails (quantity, price, id) with no event.
add_order-feed_add :
    (b : OrderBook) (seq order_id account_id : ℕ) (side : Side) (price : ℤ) (qty : ℕ)
    → crosses b side price ≡ false
    → (add_order b seq order_id account_id side price qty TimeInForce.gtc
        ≡ ok (
          (feed_add b order_id account_id side price qty).0,
          quiet_output b seq order_id account_id side price qty,
        ))
      × ((feed_add b order_id account_id side price qty).1
          ≡ is_none (quiet_output b seq order_id account_id side price qty).reject)
unfolding add_order feed_add match_loop rest_remainder
add_order-feed_add b seq order_id account_id side price qty h = (ground arith, ground arith)

-- For a live order with something left: a cancel and the execution of all that is left leave the same
-- book, and the execution answers true.
cancel_order-feed_execute :
    (b : OrderBook) (seq order_id idx : ℕ)
    → lookup order_id b.index ≡ some idx
    → 0 < (node b idx).qty
    → ((cancel_order b seq order_id).0 ≡ (feed_execute b order_id (node b idx).qty).0)
      × ((feed_execute b order_id (node b idx).qty).1 ≡ true)
unfolding cancel_order feed_execute execute_node remove_node
cancel_order-feed_execute b seq order_id idx e h =
    let full : leb (node b idx).qty (node b idx).qty ≡ true = ground arith in
    let some_qty : ((node b idx).qty == 0) ≡ false = ground arith in
    (
      rw (e, some_qty, full, cancel_order, feed_execute, execute_node),
      rw (e, some_qty, feed_execute),
    )
