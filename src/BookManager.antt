-- ===== src/BookManager.antt =====
-- `BookManager` of src/order_book.cpp: the books by symbol, and the symbol of each live order. A read of
-- `books_` out of range gives the empty book `no_book`, and a write out of range does nothing.
pub mod Agreement
pub mod Digest
pub mod Invariant
pub mod Open
use exchange_and_feed_handle.Base.{
  ℕ, zero, suc, ◌+◌, ◌%◌, ◌^◌, Bool, true, false, not, ◌&&◌, ◌||◌, Option, none, some, List, [],
  ◌∷◌, ◌==◌, ltb, if◌then◌else◌, get_or, set,
}
use exchange_and_feed_handle.Base.Int.{ℤ, pos, ◌+ℤ◌, eqb_ℤ, scale}
use exchange_and_feed_handle.Base.Map.{Map, lookup, erase, insert, contains as has_key}
use exchange_and_feed_handle.Base.Run.{Run, ok, throws, out_of_range, ◌>>=◌}
use exchange_and_feed_handle.Types.{ClientCommand, MdEvent, MdType, RejectReason}
use exchange_and_feed_handle.OrderBook.State.{
  OrderBook, Half, MatchOutput, PriceLadderConfig, RestingOrderView, open_book, contains, find,
}
use exchange_and_feed_handle.OrderBook as Book
use exchange_and_feed_handle.OrderBook.{empty_output, stats}

pub record BookManager : Type 0 where
  pub max_symbol : ℕ
  pub ladder : PriceLadderConfig
  pub books : List OrderBook
  pub order_to_symbol : Map ℕ

-- The ladder of the symbol `s`. A price does not overflow here.
unfoldable pub symbol_ladder : PriceLadderConfig → ℕ → PriceLadderConfig
symbol_ladder cfg s =
    if not (eqb_ℤ cfg.symbol_price_stride (pos 0)) && not (cfg.symbol_price_modulo == 0)
    then record {
      min_price = cfg.min_price +ℤ offset;
      max_price = cfg.max_price +ℤ offset;
      symbol_price_stride = pos 0;
      symbol_price_modulo = 0;
    }
    else cfg
  where
    offset : ℤ
    offset = scale (s % cfg.symbol_price_modulo) cfg.symbol_price_stride

-- The books of `n` symbols from `s` on.
unfoldable pub open_books : PriceLadderConfig → ℕ → ℕ → Run (List OrderBook)
open_books cfg s zero = ok []
open_books cfg s (suc n) = do
  b ← open_book s (symbol_ladder cfg s)
  rest ← open_books cfg (s + 1) n
  ok (b ∷ rest)

-- The constructor. Slot 0 is not used.
unfoldable pub open_manager : ℕ → PriceLadderConfig → Run BookManager
open_manager max_symbol ladder = do
  books ← open_books ladder 0 (suc max_symbol)
  ok (record { max_symbol = max_symbol; ladder = ladder; books = books; order_to_symbol = [] })

abbrev no_half : Half
no_half = record { levels = []; bitmap = []; level_count = 0; best_idx = none }

abbrev pub no_book : OrderBook
no_book = record {
  symbol_id = 0;
  min_price = pos 0;
  max_price = pos 0;
  level_count = 0;
  nodes = [];
  free = [];
  index = [];
  bids = no_half;
  asks = no_half;
}

-- `books_[s]`
abbrev pub book_at : BookManager → ℕ → OrderBook
book_at m s = get_or m.books s no_book

abbrev pub put_book : BookManager → ℕ → OrderBook → BookManager
put_book m s b = record m { books = set m.books s b }

-- `symbol_id == 0 || symbol_id > max_symbol_`
abbrev pub bad_symbol : BookManager → ℕ → Bool
bad_symbol m s = s == 0 || ltb m.max_symbol s

unfoldable pub book : BookManager → ℕ → Run OrderBook
book m s = if bad_symbol m s then throws out_of_range else ok (book_at m s)

unfoldable pub find_book : BookManager → ℕ → Option OrderBook
find_book m s = if bad_symbol m s then none else some (book_at m s)

unfoldable pub contains_order : BookManager → ℕ → Bool
contains_order m id = has_key id m.order_to_symbol

unfoldable pub order_symbol : BookManager → ℕ → ℕ
order_symbol m id = elim (lookup id m.order_to_symbol) [ none ↦ 0 | some s ↦ s ]

unfoldable pub find_order : BookManager → ℕ → Option RestingOrderView
find_order m id = let s = order_symbol m id in if s == 0 then none else find (book_at m s) id

unfoldable pub refresh_index_after_add : BookManager → ℕ → ℕ → BookManager
refresh_index_after_add m s id =
    if contains (book_at m s) id
    then record m { order_to_symbol = insert id s m.order_to_symbol }
    else m

unfoldable pub remove_index : BookManager → ℕ → BookManager
remove_index m id = record m { order_to_symbol = erase id m.order_to_symbol }

-- `ev.type == MdType::Execute || ev.type == MdType::Cancel`
abbrev pub takes_away : MdType → Bool
takes_away MdType.execute = true
takes_away MdType.cancel = true
takes_away _ = false

-- The loop over the events: an order that is no longer in the book of the symbol leaves the map.
unfoldable pub remove_gone : BookManager → ℕ → List MdEvent → BookManager
remove_gone m s [] = m
remove_gone m s (ev ∷ evs) =
    remove_gone
      (if takes_away ev.type && not (contains (book_at m s) ev.order_id)
        then remove_index m ev.order_id
        else m)
      s evs

unfoldable pub add_order : BookManager → ℕ → ClientCommand → Run (BookManager × MatchOutput)
add_order m seq cmd = do
  b ← book m cmd.symbol_id
  (b', out) ← Book.add_order b seq cmd.order_id cmd.account_id cmd.side cmd.price cmd.qty cmd.tif
  ok (
    refresh_index_after_add (remove_gone (put_book m cmd.symbol_id b') cmd.symbol_id out.md_events)
        cmd.symbol_id cmd.order_id,
    out,
  )

-- The part of `cancel_order` behind the book's cancel.
abbrev pub cancelled :
    BookManager → ℕ → ℕ → OrderBook × Option MdEvent → BookManager × Option MdEvent
cancelled m s order_id (b, none) = (put_book m s b, none)
cancelled m s order_id (b, some ev) = (remove_index (put_book m s b) order_id, some ev)

unfoldable pub cancel_order : BookManager → ℕ → ℕ → BookManager × Option MdEvent
cancel_order m seq order_id =
    let s = order_symbol m order_id in
    if s == 0
    then (m, none)
    else cancelled m s order_id (Book.cancel_order (book_at m s) seq order_id)

unfoldable pub feed_add : BookManager → MdEvent → BookManager × Bool
feed_add m ev =
    if bad_symbol m ev.symbol_id
    then (m, false)
    else (let (b, added) =
          Book.feed_add (book_at m ev.symbol_id) ev.order_id ev.account_id ev.side ev.price
            ev.qty in
        let m' = put_book m ev.symbol_id b in
        if not added then (m', false) else (
          record m' { order_to_symbol = insert ev.order_id ev.symbol_id m'.order_to_symbol },
          true,
        ))

unfoldable pub feed_execute : BookManager → MdEvent → BookManager × Bool
feed_execute m ev =
    let s = order_symbol m ev.order_id in
    if s == 0
    then (m, false)
    else (let (b, done) = Book.feed_execute (book_at m s) ev.order_id ev.qty in
        let m' = put_book m s b in
        (if done && not (contains b ev.order_id) then remove_index m' ev.order_id else m', done))

unfoldable pub replace_order : BookManager → ℕ → ClientCommand → Run (BookManager × MatchOutput)
replace_order m seq cmd =
    let s = order_symbol m cmd.cancel_order_id in
    if s == 0
    then ok (m, record empty_output { reject = RejectReason.unknown_order })
    else (Book.replace_order (book_at m s) seq cmd.cancel_order_id cmd.order_id cmd.account_id
          cmd.side cmd.price cmd.qty cmd.tif
        >>= λ (b, out). ok (
          refresh_index_after_add
              (remove_gone (remove_index (put_book m s b) cmd.cancel_order_id) s out.md_events) s
              cmd.order_id,
          out,
        ))

-- The loop of `live_orders`, over the books of slot 1 and on.
unfoldable pub count_live : List OrderBook → ℕ
count_live [] = 0
count_live (b ∷ bs) = ((stats b).live_orders + count_live bs) % 2 ^ 64

unfoldable pub live_orders : BookManager → ℕ
live_orders m = elim m.books [ [] ↦ 0 | _ ∷ bs ↦ count_live bs ]
