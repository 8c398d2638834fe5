-- ===== src/Tests/Feed.antt =====
-- The theorems on a session of the exchange and on a subscriber that follows it, at a bid, an ask that
-- takes a part of it, and the cancel of the rest; and at a bid and an ask that both stay.
use exchange_and_feed_handle.Base.{
  ℕ, ◌^◌, ◌<◌, ◌≡◌, refl, sym, ◌∙◌, true, false, inl, inr, none, some, List, [], ◌∷◌, arith, All,
  length, map,
}
use mathlib.Core.Path.{subst}
use exchange_and_feed_handle.Base.Int.{pos}
use exchange_and_feed_handle.Base.Run.{Run, ok}
use exchange_and_feed_handle.Types.{ClientCommand, CommandType, Side, MdEvent, MdType, RejectReason}
use exchange_and_feed_handle.Types.Codes.{IsMdType}
use exchange_and_feed_handle.MarketData.{IsMdEvent, encode_md_event}
use exchange_and_feed_handle.Base.Map.{lookup}
use exchange_and_feed_handle.OrderBook.{empty_output}
use exchange_and_feed_handle.OrderBook.State.{MatchOutput, contains, null, price_in_band}
use exchange_and_feed_handle.OrderBook.Invariant.Operations.{IsSound}
use exchange_and_feed_handle.BookManager.{
  BookManager, book_at, open_manager, bad_symbol, contains_order, add_order, cancel_order,
  replace_order,
}
use exchange_and_feed_handle.BookManager.Invariant.{IsManager, add_order-IsManager}
use exchange_and_feed_handle.BookManager.Open.{open_manager-IsManager}
use exchange_and_feed_handle.BookManager.Agreement.{IsOwn}
use exchange_and_feed_handle.BookManager.Agreement.Behind.{Moves}
use exchange_and_feed_handle.BookManager.Agreement.Commands.{add_order-Moves, replace_order-Moves}
use exchange_and_feed_handle.BookManager.Agreement.Lost.{replace_order_out_of_band}
use exchange_and_feed_handle.BookManager.Agreement.Open.{open_manager-IsAgreed}
use exchange_and_feed_handle.Exchange.{Exchange}
use exchange_and_feed_handle.Subscriber.{SubscriberBook, open_subscriber}
use exchange_and_feed_handle.Subscriber.Follow.{apply_events}
use exchange_and_feed_handle.Subscriber.Frames.{apply_frames}
use exchange_and_feed_handle.Subscriber.Mirror.{Mirrors}
use exchange_and_feed_handle.Exchange.Mirror.Session.{run_feed, IsOrderly, open_exchange-run_feed}
use exchange_and_feed_handle.Exchange.Mirror.Frames.{open_exchange-apply_frames}
use exchange_and_feed_handle.Tests.Compute.{exchange_code}
use exchange_and_feed_handle.OrderBook.State.{RestingOrderView, find}
use exchange_and_feed_handle.OrderBook.Invariant.Top.{IsApart}
use exchange_and_feed_handle.Exchange.Replay.{run}
use exchange_and_feed_handle.Exchange.Uncrossed.{run-IsApart}
use exchange_and_feed_handle.Tests.Session.{state_of, config, opened, opened_lem, small_prices}
use exchange_and_feed_handle.Tests.Wire.{bid}

abbrev ask : ClientCommand
ask = record bid { order_id = 31; account_id = 9; side = Side.sell; qty = 4 }

abbrev pull : ClientCommand
pull = record bid { type = CommandType.cancel; cancel_order_id = bid.order_id }

abbrev session : List (ClientCommand × ℕ)
session = (bid, 500) ∷ (ask, 501) ∷ (pull, 502) ∷ []

abbrev sub : SubscriberBook
sub = record { books = opened.books; decoder = record { expected = 1 } }

sub_lem : open_subscriber config.max_symbol config.ladder ≡ ok sub
unfolding exchange_code open_subscriber
sub_lem = refl

orderly : IsOrderly opened session
unfolding exchange_code
orderly = (inl refl, ((λ t. cc), (inl refl, ((λ t. cc), (inr (inl refl), ((λ t. cc), tt))))))

open_exchange-run_feed_example :
    (ex' : Exchange) × (evs : List MdEvent) × (run_feed opened session ≡ ok (ex', evs))
    × ((apply_events sub.books evs).1 ≡ none)
    × Mirrors ex'.books (apply_events sub.books evs).0
open_exchange-run_feed_example =
    open_exchange-run_feed config opened sub session small_prices opened_lem sub_lem (omega arith)
      ((omega arith, omega arith), ((omega arith, omega arith), ((omega arith, omega arith), tt)))
      orderly

abbrev fed_of : Run (Exchange × List MdEvent) → Exchange × List MdEvent
fed_of (ok r) = r
fed_of _ = (opened, [])

abbrev fed : Exchange × List MdEvent
fed = fed_of (run_feed opened session)

fed_lem : run_feed opened session ≡ ok (fed.0, fed.1)
unfolding exchange_code run_feed
fed_lem = refl

abbrev sent : ℕ → MdType → ℕ → MdEvent
sent seq type qty = record {
  seq = seq;
  type = type;
  symbol_id = 1;
  order_id = 11;
  new_order_id = 0;
  account_id = 7;
  side = Side.buy;
  price = pos 100;
  qty = qty;
  reason = RejectReason.none;
}

sent-IsMdEvent :
    (seq : ℕ) (type : MdType) (qty : ℕ)
    → seq < 2 ^ 64
    → IsMdType type
    → qty < 2 ^ 32
    → IsMdEvent (sent seq type qty)
sent-IsMdEvent seq type qty small known few = record {
  seq_range = small;
  type_range = known;
  symbol_id_range = omega arith;
  order_id_range = omega arith;
  new_order_id_range = omega arith;
  account_id_range = omega arith;
  side_range = tt;
  price_range = (omega arith, omega arith);
  qty_range = few;
  reason_range = tt;
}

fed-IsMdEvent : All IsMdEvent fed.1
unfolding exchange_code run_feed
fed-IsMdEvent = (
  sent-IsMdEvent 1 MdType.add 10 (omega arith) tt (omega arith),
  (
    sent-IsMdEvent 2 MdType.execute 4 (omega arith) tt (omega arith),
    (sent-IsMdEvent 3 MdType.cancel 6 (omega arith) tt (omega arith), tt),
  ),
)

open_exchange-apply_frames_example :
    ((apply_frames sub (map encode_md_event fed.1)).1 ≡ none)
    × Mirrors fed.0.books (apply_frames sub (map encode_md_event fed.1)).0.books
open_exchange-apply_frames_example =
    open_exchange-apply_frames config opened fed.0 sub session fed.1 small_prices opened_lem sub_lem
      (omega arith)
      ((omega arith, omega arith), ((omega arith, omega arith), ((omega arith, omega arith), tt)))
      orderly fed_lem fed-IsMdEvent

abbrev answer_of : Run (BookManager × MatchOutput) → BookManager × MatchOutput
answer_of (ok r) = r
answer_of _ = (opened.books, empty_output)

abbrev bid_placed : BookManager × MatchOutput
bid_placed = answer_of (add_order opened.books 1 bid)

opened_books : open_manager config.max_symbol config.ladder ≡ ok opened.books
unfolding exchange_code
opened_books = refl

opened_books-IsManager : IsManager 1 0 opened.books
opened_books-IsManager =
    open_manager-IsManager 1 config.ladder opened.books small_prices opened_books

opened_books-IsOwn : IsOwn opened.books 1 11
unfolding exchange_code
opened_books-IsOwn t e = cc

bid_lem : add_order opened.books 1 bid ≡ ok (bid_placed.0, bid_placed.1)
unfolding exchange_code
bid_lem = refl

opened_nodes : length (book_at opened.books 1).nodes < null
unfolding exchange_code
opened_nodes = omega arith

opened_symbol : bad_symbol opened.books 1 ≡ false
unfolding exchange_code
opened_symbol = refl

opened_sound : IsSound (book_at opened.books 1)
unfolding exchange_code
opened_sound = (opened_books-IsManager.books 1 (omega arith)).sound

add_order-Moves_example : Moves opened.books 1 11 bid_placed.1.md_events bid_placed.0
add_order-Moves_example =
    add_order-Moves opened.books 1 bid bid_placed.0 bid_placed.1
      (open_manager-IsAgreed 1 config.ladder opened.books opened_books).0 opened_sound
      ((open_manager-IsAgreed 1 config.ladder opened.books opened_books).1 1 opened_symbol)
      opened_nodes opened_symbol opened_books-IsOwn bid_lem

bid_placed-Moves : Moves opened.books 1 11 bid_placed.1.md_events bid_placed.0
bid_placed-Moves =
    add_order-Moves opened.books 1 bid bid_placed.0 bid_placed.1
      (open_manager-IsAgreed 1 config.ladder opened.books opened_books).0 opened_sound
      ((open_manager-IsAgreed 1 config.ladder opened.books opened_books).1 1 opened_symbol)
      opened_nodes opened_symbol opened_books-IsOwn bid_lem

bid_placed_sound : IsSound (book_at bid_placed.0 1)
bid_placed_sound =
    let (m', out, ran, v) =
      add_order-IsManager 0 1 opened.books bid opened_books-IsManager (omega arith) opened_symbol in
    let same : ◌≡◌ {A = BookManager × MatchOutput} (m', out) (bid_placed.0, bid_placed.1) =
      ok_same (sym ran ∙ bid_lem) in
    subst (λ (r : BookManager × MatchOutput). IsSound (book_at r.0 1)) same
      (v.books 1 (omega (arith, v.top))).sound
  where
    ok_same : {a b : BookManager × MatchOutput} → ok a ≡ ok b → a ≡ b
    ok_same {a} {b} p = cc

bid_symbol : lookup 11 bid_placed.0.order_to_symbol ≡ some 1
unfolding exchange_code
bid_symbol = refl

bid_placed_nodes : length (book_at bid_placed.0 1).nodes < null
unfolding exchange_code
bid_placed_nodes = omega arith

abbrev moved : ClientCommand
moved = record bid {
  type = CommandType.replace;
  order_id = 12;
  cancel_order_id = 11;
  price = pos 101;
}

abbrev bid_moved : BookManager × MatchOutput
bid_moved = answer_of (replace_order bid_placed.0 2 moved)

moved_lem : replace_order bid_placed.0 2 moved ≡ ok (bid_moved.0, bid_moved.1)
unfolding exchange_code
moved_lem = refl

moved_accepted : bid_moved.1.reject ≡ RejectReason.none
unfolding exchange_code
moved_accepted = refl

moved-IsOwn : IsOwn bid_placed.0 1 12
unfolding exchange_code
moved-IsOwn t e = cc

replace_order-Moves_example : Moves bid_placed.0 1 12 bid_moved.1.md_events bid_moved.0
replace_order-Moves_example =
    replace_order-Moves bid_placed.0 2 moved 1 bid_moved.0 bid_moved.1 bid_placed-Moves.agreed
      bid_placed_sound bid_placed-Moves.positive bid_placed_nodes bid_symbol moved-IsOwn moved_lem
      moved_accepted

abbrev far_away : ClientCommand
far_away = record moved { price = pos 200 }

far_outside : price_in_band (book_at bid_placed.0 1) far_away.price ≡ false
unfolding exchange_code
far_outside = refl

replace_order_out_of_band_example :
    (m' : BookManager) × (replace_order bid_placed.0 2 far_away
      ≡ ok (m', record empty_output { reject = RejectReason.invalid_price }))
    × (contains (book_at m' 1) 11 ≡ true)
    × (contains_order m' 11 ≡ false)
    × (cancel_order m' 2 11 ≡ (m', none))
replace_order_out_of_band_example =
    replace_order_out_of_band bid_placed.0 2 far_away 1 bid_placed-Moves.agreed bid_symbol
      far_outside refl

-- A bid at 100 and an ask at 102, both live.
abbrev offer : ClientCommand
offer = record ask { price = pos 102 }

abbrev quotes : List (ClientCommand × ℕ)
quotes = (bid, 500) ∷ (offer, 501) ∷ []

abbrev quoted : Exchange
quoted = state_of (run opened quotes)

quoted_lem : run opened quotes ≡ ok quoted
unfolding exchange_code
quoted_lem = refl

abbrev live_order : ℕ → ℕ → Side → ℕ → ℕ → RestingOrderView
live_order id account side price qty = record {
  order_id = id;
  account_id = account;
  side = side;
  price = pos price;
  qty = qty;
}

bid_live : find (book_at quoted.books 1) 11 ≡ some (live_order 11 7 Side.buy 100 10)
unfolding exchange_code find
bid_live = refl

offer_live : find (book_at quoted.books 1) 31 ≡ some (live_order 31 9 Side.sell 102 4)
unfolding exchange_code find
offer_live = refl

run-IsApart_example :
    IsApart
      (book_at quoted.books 1)
      (live_order 11 7 Side.buy 100 10)
      (live_order 31 9 Side.sell 102 4)
run-IsApart_example =
    run-IsApart config opened quoted quotes 1 11 31 (live_order 11 7 Side.buy 100 10)
      (live_order 31 9 Side.sell 102 4) small_prices opened_lem (omega arith)
      ((omega arith, omega arith), ((omega arith, omega arith), tt)) quoted_lem (omega arith)
      bid_live refl offer_live refl
