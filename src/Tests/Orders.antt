-- ===== src/Tests/Orders.antt =====
-- The theorems on the order book, at a book of four levels with one bid of 10 at 101.
use exchange_and_feed_handle.Base.{
  ℕ, zero, suc, ◌%◌, ◌+◌, ◌*◌, ◌/◌, ◌≤◌, ◌≡◌, refl, true, false, inl, none, some, List, [], ◌∷◌,
  arith,
}
use exchange_and_feed_handle.Base.Bits.{bit, bit-high, bit-zero}
use exchange_and_feed_handle.Base.Int.{pos}
use exchange_and_feed_handle.Base.Map.{lookup}
use exchange_and_feed_handle.Base.Run.{ok}
use exchange_and_feed_handle.Types.{MdEvent, Trade, Side, TimeInForce, RejectReason, MdType}
use exchange_and_feed_handle.Tests.Compute.{book_code}
use exchange_and_feed_handle.OrderBook.Bitmap.{
  word, has_bit, find_lowest_occupied, find_highest_occupied,
}
use exchange_and_feed_handle.OrderBook.Bitmap.Laws.{has_bit-bit}
use exchange_and_feed_handle.OrderBook.Bitmap.Lowest.{Lowest, find_lowest_occupied-Lowest}
use exchange_and_feed_handle.OrderBook.Bitmap.Highest.{Highest, find_highest_occupied-Highest}
use exchange_and_feed_handle.OrderBook.State.{
  OrderBook, Node, Level, null, empty_level, node, price_in_band,
}
use exchange_and_feed_handle.OrderBook.Nodes.{unlink, remove_node}
use exchange_and_feed_handle.OrderBook.Nodes.Chain.{Seg}
use exchange_and_feed_handle.OrderBook.Nodes.Links.{unlink-Seg}
use exchange_and_feed_handle.OrderBook.{add_order, cancel_order, replace_order, empty_output}
use exchange_and_feed_handle.OrderBook.Reject.{add_order_rejected, replace_order_rejected}

abbrev bid_node : Node
bid_node = record {
  order_id = 5;
  account_id = 7;
  side = Side.buy;
  price = pos 101;
  qty = 10;
  level_idx = 1;
  prev = null;
  next = null;
  active = true;
}

abbrev bid_level : Level
bid_level = record { head = 0; tail = 0; total_qty = 10; count = 1 }

abbrev pub one_bid : OrderBook
one_bid = record {
  symbol_id = 1;
  min_price = pos 100;
  max_price = pos 103;
  level_count = 4;
  nodes = bid_node ∷ [];
  free = [];
  index = (5, 0) ∷ [];
  bids = record {
    levels = empty_level ∷ bid_level ∷ empty_level ∷ empty_level ∷ [];
    bitmap = 2 ∷ [];
    level_count = 1;
    best_idx = some 1;
  };
  asks = record {
    levels = empty_level ∷ empty_level ∷ empty_level ∷ empty_level ∷ [];
    bitmap = 0 ∷ [];
    level_count = 0;
    best_idx = none;
  };
}

bid_found : lookup 5 one_bid.index ≡ some 0
unfolding lookup
bid_found = refl

pub in_band : price_in_band one_bid (pos 102) ≡ true
unfolding book_code
in_band = refl

duplicate :
    add_order one_bid 9 5 7 Side.buy (pos 101) 3 TimeInForce.gtc
    ≡ ok (one_bid, record empty_output { remaining_qty = 3; reject = RejectReason.duplicate_order })
unfolding book_code
duplicate = refl

add_order_rejected_example :
    (one_bid ≡ one_bid) × (◌≡◌ {A = List MdEvent} [] []) × (◌≡◌ {A = List Trade} [] [])
add_order_rejected_example =
    add_order_rejected one_bid one_bid 9 5 7 Side.buy (pos 101) 3 TimeInForce.gtc
      (record empty_output { remaining_qty = 3; reject = RejectReason.duplicate_order }) duplicate
      (λ e. cc)

replace_order_rejected_example :
    replace_order one_bid 9 5 6 7 Side.buy (pos 102) 0 TimeInForce.gtc
    ≡ ok (
      (cancel_order one_bid 9 5).0,
      record {
        md_events = (remove_node one_bid 9 0 10 MdType.cancel).1 ∷ [];
        trades = [];
        remaining_qty = 0;
        reject = RejectReason.invalid_qty;
      },
    )
replace_order_rejected_example =
    replace_order_rejected one_bid 9 5 6 7 0 Side.buy (pos 102) 0 TimeInForce.gtc bid_found in_band
      (inl refl)

find_lowest_occupied-Lowest_example : Lowest 4 (12 ∷ []) (find_lowest_occupied 4 (12 ∷ []))
find_lowest_occupied-Lowest_example =
    find_lowest_occupied-Lowest 4 (12 ∷ []) (omega arith, tt) (omega arith)

digit_of_twelve : (w r : ℕ) → 4 ≤ w * 64 + r → bit (word (12 ∷ []) w) r ≡ 0
digit_of_twelve zero r h = bit-high 4 12 r (omega arith) (omega arith)
digit_of_twelve (suc w) r h = bit-zero r

-- The highest bit of 12 is bit 3.
clear_above : (i : ℕ) → 4 ≤ i → has_bit (12 ∷ []) i ≡ false
clear_above i h = rw (has_bit-bit (12 ∷ []) i, digit_of_twelve (i / 64) (i % 64) (omega arith)) refl

find_highest_occupied-Highest_example : Highest 4 (12 ∷ []) (find_highest_occupied 4 (12 ∷ []))
find_highest_occupied-Highest_example =
    find_highest_occupied-Highest 4 (12 ∷ []) (omega arith, tt) (omega arith) clear_above

-- A queue of three nodes.
abbrev link : ℕ → ℕ → Node
link prev next = record bid_node { prev = prev; next = next }

abbrev three_bids : OrderBook
three_bids = record one_bid { nodes = link null 1 ∷ link 0 2 ∷ link 1 null ∷ [] }

unlink-Seg_example : Seg (unlink three_bids (node three_bids 1)).nodes null (0 ∷ 2 ∷ []) null
unlink-Seg_example =
    unlink-Seg three_bids 1 (0 ∷ []) (2 ∷ []) (refl, (refl, (refl, tt)))
      (omega arith, omega arith, (omega arith, omega arith, (omega arith, omega arith, tt)))
      (refl, refl, (refl, refl, (refl, refl, tt)))
