-- ===== src/Tests/Invariant.antt =====
-- The theorems on the invariant of the book, at a book of four levels with one bid of 10 at 101.
use exchange_and_feed_handle.Base.{
  ℕ, ◌+◌, ◌≤◌, ◌<◌, ◌≡◌, refl, true, false, none, some, arith, length,
}
use mathlib.Core.Path.{subst}
use exchange_and_feed_handle.Base.Int.{ℤ, pos, ◌+ℤ◌}
use exchange_and_feed_handle.Base.Map.{lookup}
use exchange_and_feed_handle.Base.Run.{Run, ok}
use exchange_and_feed_handle.Types.{Side, TimeInForce, MdType}
use exchange_and_feed_handle.Tests.Compute.{book_code}
use exchange_and_feed_handle.Tests.Orders.{one_bid, in_band}
use exchange_and_feed_handle.OrderBook.State.{
  OrderBook, MatchOutput, PriceLadderConfig, null, open_book, find, contains, price_in_band,
  price_to_index,
}
use exchange_and_feed_handle.OrderBook.{
  add_order, cancel_order, replace_order, feed_execute, crosses, match_round, empty_output,
}
use exchange_and_feed_handle.OrderBook.Nodes.{execute_head, remove_node}
use exchange_and_feed_handle.OrderBook.Queues.{without}
use exchange_and_feed_handle.OrderBook.Invariant.{IsBook}
use exchange_and_feed_handle.OrderBook.Invariant.Match.{within}
use exchange_and_feed_handle.OrderBook.Invariant.Loop.{IsFront, match_round-IsFront}
use exchange_and_feed_handle.OrderBook.Invariant.Remove.{remove_node-IsBook}
use exchange_and_feed_handle.OrderBook.Invariant.Band.{price_to_index-in_band}
use exchange_and_feed_handle.OrderBook.Digest.{checksum}
use exchange_and_feed_handle.OrderBook.Digest.Reference.{all_bids, all_asks, checksum-eq}
use exchange_and_feed_handle.Checksum.{hash_combine}
use exchange_and_feed_handle.OrderBook.Invariant.Operations.{IsSound, feed_execute-IsSound}
use exchange_and_feed_handle.OrderBook.Invariant.AddOrder.{IsSettled, IsFilled, add_order-IsFilled}
use exchange_and_feed_handle.OrderBook.Invariant.Settled.{
  add_order-IsSettled, cancel_order-IsSettled, replace_order-IsSettled,
}
use exchange_and_feed_handle.OrderBook.Invariant.Open.{open_book-IsSettled}

abbrev narrow : PriceLadderConfig
narrow = record {
  min_price = pos 100;
  max_price = pos 103;
  symbol_price_stride = pos 0;
  symbol_price_modulo = 0;
}

abbrev book_of : Run OrderBook → OrderBook
book_of (ok b) = b
book_of _ = one_bid

abbrev fresh_book : OrderBook
fresh_book = book_of (open_book 1 narrow)

opened_fresh : open_book 1 narrow ≡ ok fresh_book
unfolding book_code
opened_fresh = refl

fresh_settled : IsSettled fresh_book × (length fresh_book.nodes ≡ 0)
fresh_settled = open_book-IsSettled 1 narrow fresh_book (omega arith) opened_fresh

abbrev first_of : Run (OrderBook × MatchOutput) → OrderBook
first_of (ok (b, out)) = b
first_of _ = one_bid

-- A book that `add_order` makes of a settled one is settled.
after :
    (b c : OrderBook) (seq id account : ℕ) (side : Side) (price : ℤ) (qty : ℕ) (tif : TimeInForce)
    → IsSettled b
    → length b.nodes < null
    → first_of (add_order b seq id account side price qty tif) ≡ c
    → IsSettled c
after b c seq id account side price qty tif s room e =
    let (d, out, ran, w, _) = add_order-IsSettled b seq id account side price qty tif s room in
    let same : d ≡ c = rw ran at e in subst (λ x. IsSettled x) same w

first_bid : first_of (add_order fresh_book 1 5 7 Side.buy (pos 101) 10 TimeInForce.gtc) ≡ one_bid
unfolding book_code
first_bid = refl

few : (n : ℕ) → n ≡ 0 → n < null
few n e = omega arith

one_bid_settled : IsSettled one_bid
one_bid_settled =
    after fresh_book one_bid 1 5 7 Side.buy (pos 101) 10 TimeInForce.gtc fresh_settled.0
      (few _ fresh_settled.1) first_bid

not_six : contains one_bid 6 ≡ false
unfolding book_code
not_six = refl

at_100 : price_in_band one_bid (pos 100) ≡ true
unfolding book_code
at_100 = refl

-- A sell of 12 at 100: it takes the bid, and 2 rest.
add_order-IsFilled_example :
    (c : OrderBook) × (out : MatchOutput) × (add_order one_bid 9 6 7 Side.sell
        (pos 100)
        12
        TimeInForce.gtc
      ≡ ok (c, out))
    × IsFilled one_bid 6 Side.sell (pos 100) 12 TimeInForce.gtc c out
add_order-IsFilled_example =
    add_order-IsFilled one_bid 9 6 7 Side.sell (pos 100) 12 TimeInForce.gtc one_bid_settled
      (omega arith) (omega arith) at_100 not_six

add_order-IsSettled_example :
    (c : OrderBook) × (out : MatchOutput) × (add_order one_bid 9 5 7 Side.sell
        (pos 100)
        12
        TimeInForce.gtc
      ≡ ok (c, out))
    × IsSettled c
    × (length c.nodes ≤ length one_bid.nodes + 1)
add_order-IsSettled_example =
    add_order-IsSettled one_bid 9 5 7 Side.sell (pos 100) 12 TimeInForce.gtc one_bid_settled
      (omega arith)

replace_order-IsSettled_example :
    (c : OrderBook) × (out : MatchOutput) × (replace_order one_bid 9 5 6 7 Side.buy
        (pos 102)
        4
        TimeInForce.gtc
      ≡ ok (c, out))
    × IsSettled c
    × (length c.nodes ≤ length one_bid.nodes + 1)
replace_order-IsSettled_example =
    replace_order-IsSettled one_bid 9 5 6 7 Side.buy (pos 102) 4 TimeInForce.gtc one_bid_settled
      (omega arith)

cancel_order-IsSettled_example :
    IsSettled (cancel_order one_bid 9 5).0
    × (length (cancel_order one_bid 9 5).0.nodes ≡ 1)
    × (find (cancel_order one_bid 9 5).0 5 ≡ none)
cancel_order-IsSettled_example = cancel_order-IsSettled one_bid 9 5 one_bid_settled

feed_execute-IsSound_example : IsSound (feed_execute one_bid 5 4).0
feed_execute-IsSound_example = feed_execute-IsSound one_bid 5 4 one_bid_settled.sound

crosses_bid : crosses one_bid Side.sell (pos 100) ≡ true
unfolding book_code
crosses_bid = refl

match_round-IsFront_example :
    (i : ℕ) × (k : ℕ) × IsFront one_bid_settled.sound.queues true i k
    × (within Side.sell (pos 100) (pos 100 +ℤ pos i) ≡ true)
    × (match_round 9 6 Side.sell (one_bid, empty_output)
        ≡ execute_head one_bid 9 Side.buy i k empty_output 6)
match_round-IsFront_example =
    match_round-IsFront one_bid one_bid_settled.sound.queues 9 6 Side.sell (pos 100) empty_output
      one_bid_settled.sound.book crosses_bid

live_five : lookup 5 one_bid.index ≡ some 0
unfolding book_code
live_five = refl

remove_node-IsBook_example :
    IsBook
      (remove_node one_bid 9 0 10 MdType.cancel).0
      (λ t j. without 0 (one_bid_settled.sound.queues t j))
remove_node-IsBook_example =
    remove_node-IsBook one_bid one_bid_settled.sound.queues true 1 0 9 10 MdType.cancel
      one_bid_settled.sound.book (one_bid_settled.sound.book.indexed.found 5 0 live_five).1

price_to_index-in_band_example :
    (price_to_index one_bid (pos 102) < 4)
    × (pos 102 ≡ pos 100 +ℤ pos (price_to_index one_bid (pos 102)))
price_to_index-in_band_example =
    price_to_index-in_band one_bid (pos 102) one_bid_settled.sound.band in_band

checksum-eq_example :
    checksum one_bid
    ≡ ok (
        all_asks one_bid one_bid_settled.sound.queues 4 0
          (all_bids one_bid one_bid_settled.sound.queues 4 (hash_combine 0x4558_4348_424f_4f4b 1)))
checksum-eq_example = checksum-eq one_bid one_bid_settled.sound.queues one_bid_settled.sound.book
