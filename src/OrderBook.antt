-- ===== src/OrderBook.antt =====
-- The public operations of `OrderBook`, from src/order_book.cpp. An operation returns the new book and
-- its result. The matching loop runs on fuel: one round more than there are live orders.
pub mod Bitmap
pub mod Digest
pub mod Feed
pub mod Feeds
pub mod Invariant
pub mod Queues
pub mod Nodes
pub mod Reject
pub mod State
pub mod Totals
use exchange_and_feed_handle.Base.{
  ℕ, zero, suc, ◌+◌, ◌-◌, ◌%◌, ◌^◌, Bool, true, false, not, ◌&&◌, ◌||◌, Option, none, some, List,
  [], ◌∷◌, ◌++◌, ◌==◌, ltb, leb, if◌then◌else◌,
}
use exchange_and_feed_handle.Base.Int.{ℤ, leb_ℤ}
use exchange_and_feed_handle.Base.Map.{lookup, size}
use exchange_and_feed_handle.Base.Run.{Run, ok, out_of_fuel, ◌>>=◌}
use exchange_and_feed_handle.Types.{
  Side, TimeInForce, MdEvent, MdType, RejectReason, is_buy, is_gtc,
}
use State.{
  OrderBook, MatchOutput, level_for, put_level, node, put_node, contains, price_in_band,
  index_to_price,
}
use Nodes.{alloc_node, append_to_level, remove_node, execute_head}

abbrev pub empty_output : MatchOutput
empty_output = record { md_events = []; trades = []; remaining_qty = 0; reject = RejectReason.none }

-- The side that an order on `side` trades against.
abbrev pub opposite : Side → Side
opposite side = if is_buy side then Side.sell else Side.buy

unfoldable pub crosses : OrderBook → Side → ℤ → Bool
crosses b side price =
    if is_buy side
    then (elim b.asks.best_idx [ none ↦ false | some best ↦ leb_ℤ (index_to_price b best) price ])
    else (elim b.bids.best_idx [ none ↦ false | some best ↦ leb_ℤ price (index_to_price b best) ])

-- One round of the loop of `add_order`, at the best opposite level. It runs under `crosses`, so there
-- is a best level.
unfoldable pub match_round : ℕ → ℕ → Side → OrderBook × MatchOutput → OrderBook × MatchOutput
match_round seq order_id side (b, out) =
    elim (if is_buy side then b.asks.best_idx else b.bids.best_idx) [
      | none ↦ (b, out)
      | some idx_level ↦
          execute_head b seq (opposite side) idx_level (level_for b (opposite side) idx_level).head
            out order_id
    ]

unfoldable pub match_loop :
    ℕ → ℕ → ℕ → Side → ℤ → OrderBook × MatchOutput → Run (OrderBook × MatchOutput)
match_loop zero seq order_id side price (b, out) = out_of_fuel
match_loop (suc fuel) seq order_id side price (b, out) =
    let rest = match_loop fuel seq order_id side price (match_round seq order_id side (b, out)) in
    if ltb 0 out.remaining_qty && crosses b side price then rest else ok (b, out)

-- `alloc_node` and then `append_to_level`.
unfoldable pub rest_order : OrderBook → ℕ → ℕ → Side → ℤ → ℕ → OrderBook
rest_order b order_id account_id side price qty =
    let (b', idx) = alloc_node b order_id account_id side price qty in append_to_level b' idx

abbrev pub add_event : OrderBook → ℕ → ℕ → ℕ → Side → ℤ → ℕ → MdEvent
add_event b seq order_id account_id side price qty = record {
  seq = seq;
  type = MdType.add;
  symbol_id = b.symbol_id;
  order_id = order_id;
  new_order_id = 0;
  account_id = account_id;
  side = side;
  price = price;
  qty = qty;
  reason = RejectReason.none;
}

-- The end of `add_order`: what is left of a GTC order rests in the book.
unfoldable pub rest_remainder :
    ℕ → ℕ → ℕ → Side → ℤ → TimeInForce → OrderBook × MatchOutput → OrderBook × MatchOutput
rest_remainder seq order_id account_id side price tif (b, out) =
    if ltb 0 out.remaining_qty && is_gtc tif
    then (
      rest_order b order_id account_id side price out.remaining_qty,
      record out {
        md_events =
            out.md_events
            ++ (add_event b seq order_id account_id side price out.remaining_qty ∷ []);
        remaining_qty = 0;
      },
    )
    else (b, out)

unfoldable pub add_order :
    OrderBook → ℕ → ℕ → ℕ → Side → ℤ → ℕ → TimeInForce → Run (OrderBook × MatchOutput)
add_order b seq order_id account_id side price qty tif =
    if qty == 0
    then ok (b, record start { reject = RejectReason.invalid_qty })
    else if not (price_in_band b price)
    then ok (b, record start { reject = RejectReason.invalid_price })
    else if contains b order_id
    then ok (b, record start { reject = RejectReason.duplicate_order })
    else (match_loop (suc (size b.index)) seq order_id side price (b, start) >>= λ matched.
        ok (rest_remainder seq order_id account_id side price tif matched))
  where
    start : MatchOutput
    start = record empty_output { remaining_qty = qty }

unfoldable pub cancel_order : OrderBook → ℕ → ℕ → OrderBook × Option MdEvent
cancel_order b seq order_id = elim (lookup order_id b.index) [
  | none ↦ (b, none)
  | some idx ↦ let (b', ev) = remove_node b seq idx (node b idx).qty MdType.cancel in (b', some ev)
]

unfoldable pub feed_add : OrderBook → ℕ → ℕ → Side → ℤ → ℕ → OrderBook × Bool
feed_add b order_id account_id side price qty =
    if contains b order_id || qty == 0 || not (price_in_band b price)
    then (b, false)
    else (rest_order b order_id account_id side price qty, true)

-- The part of `feed_execute` behind its lookup, at the node `idx`.
unfoldable pub execute_node : OrderBook → ℕ → ℕ → OrderBook
execute_node b idx qty =
    let n = node b idx in
    let level = level_for b n.side n.level_idx in
    if leb n.qty qty
    then (remove_node b 0 idx n.qty MdType.execute).0
    else put_level (put_node b idx (record n { qty = n.qty - qty })) n.side n.level_idx
        (record level { total_qty = (level.total_qty + 2 ^ 32 - qty) % 2 ^ 32 })

unfoldable pub feed_execute : OrderBook → ℕ → ℕ → OrderBook × Bool
feed_execute b order_id qty = elim (lookup order_id b.index) [
  | none ↦ (b, false)
  | some idx ↦ if qty == 0 then (b, false) else (execute_node b idx qty, true)
]

-- What `replace_order` makes of the cancel's event and the new order's output.
abbrev pub replaced : MdEvent → MatchOutput → MatchOutput
replaced old added = record {
  md_events = old ∷ added.md_events;
  trades = added.trades;
  remaining_qty = added.remaining_qty;
  reject = added.reject;
}

-- The part of `replace_order` behind the cancel of the old order.
unfoldable pub add_replacement :
    ℕ
    → ℕ
    → ℕ
    → Side
    → ℤ
    → ℕ
    → TimeInForce
    → OrderBook × Option MdEvent
    → Run (OrderBook × MatchOutput)
add_replacement seq new_id account_id side price qty tif (b, none) =
    ok (b, record empty_output { reject = RejectReason.unknown_order })
add_replacement seq new_id account_id side price qty tif (b, some old) =
    add_order b seq new_id account_id side price qty tif >>= λ (b', added).
    ok (b', replaced old added)

unfoldable pub replace_order :
    OrderBook → ℕ → ℕ → ℕ → ℕ → Side → ℤ → ℕ → TimeInForce → Run (OrderBook × MatchOutput)
replace_order b seq old_id new_id account_id side price qty tif =
    if not (price_in_band b price)
    then ok (b, record empty_output { reject = RejectReason.invalid_price })
    else add_replacement seq new_id account_id side price qty tif (cancel_order b seq old_id)

pub record BookStats : Type 0 where
  pub live_orders : ℕ
  pub bid_levels : ℕ
  pub ask_levels : ℕ
  pub best_bid : Option ℤ
  pub best_ask : Option ℤ

abbrev pub price_of : OrderBook → Option ℕ → Option ℤ
price_of b none = none
price_of b (some idx) = some (index_to_price b idx)

unfoldable pub stats : OrderBook → BookStats
stats b = record {
  live_orders = size b.index;
  bid_levels = b.bids.level_count;
  ask_levels = b.asks.level_count;
  best_bid = price_of b b.bids.best_idx;
  best_ask = price_of b b.asks.best_idx;
}
