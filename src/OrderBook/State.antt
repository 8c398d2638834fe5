-- ===== src/OrderBook/State.antt =====
-- The state of `OrderBook` (include/exsim/core/order_book.hpp), its constructor and accessors, and the
-- node pool with its free list and id index (src/order_book.cpp).
-- The code reads `nodes_`, `bids_` and `asks_` without a bounds check. Here a read out of range gives a
-- default value and a write out of range does nothing.
use exchange_and_feed_handle.Base.{
  ℕ, ◌+◌, ◌-◌, ◌/◌, ◌%◌, ◌^◌, Bool, false, not, ◌&&◌, ◌||◌, Option, none, some, List, [], ltb,
  if◌then◌else◌, get_or, set, replicate,
}
use exchange_and_feed_handle.Base.Int.{ℤ, pos, ◌+ℤ◌, ◌-ℤ◌, leb_ℤ, to_u64}
use exchange_and_feed_handle.Base.Map.{Map, lookup, contains as has_key}
use exchange_and_feed_handle.Base.Run.{Run, ok, throws, invalid_argument}
use exchange_and_feed_handle.Types.{Side, MdEvent, Trade, RejectReason, is_buy}
use exchange_and_feed_handle.OrderBook.Bitmap.{set_bit, bits_per_word}

pub record RestingOrderView : Type 0 where
  pub order_id : ℕ
  pub account_id : ℕ
  pub side : Side
  pub price : ℤ
  pub qty : ℕ

pub record MatchOutput : Type 0 where
  pub md_events : List MdEvent
  pub trades : List Trade
  pub remaining_qty : ℕ
  pub reject : RejectReason

pub record PriceLadderConfig : Type 0 where
  pub min_price : ℤ
  pub max_price : ℤ
  pub symbol_price_stride : ℤ
  pub symbol_price_modulo : ℕ

-- `kNull`
abbrev pub null : ℕ
null = 0xffff_ffff

pub record Node : Type 0 where
  pub order_id : ℕ
  pub account_id : ℕ
  pub side : Side
  pub price : ℤ
  pub qty : ℕ
  pub level_idx : ℕ
  pub prev : ℕ
  pub next : ℕ
  pub active : Bool

-- `Node{}`
abbrev pub empty_node : Node
empty_node = record {
  order_id = 0;
  account_id = 0;
  side = Side.buy;
  price = pos 0;
  qty = 0;
  level_idx = 0;
  prev = null;
  next = null;
  active = false;
}

pub record Level : Type 0 where
  pub head : ℕ
  pub tail : ℕ
  pub total_qty : ℕ
  pub count : ℕ

-- `Level{}`
abbrev pub empty_level : Level
empty_level = record { head = null; tail = null; total_qty = 0; count = 0 }

-- What the book keeps for one side: `bids_`, `bid_bitmap_`, `bid_level_count_` and `best_bid_idx_`,
-- or the four members for the asks.
pub record Half : Type 0 where
  pub levels : List Level
  pub bitmap : List ℕ
  pub level_count : ℕ
  pub best_idx : Option ℕ

-- The head of `free` is the back of the vector `free_`.
pub record OrderBook : Type 0 where
  pub symbol_id : ℕ
  pub min_price : ℤ
  pub max_price : ℤ
  pub level_count : ℕ
  pub nodes : List Node
  pub free : List ℕ
  pub index : Map ℕ
  pub bids : Half
  pub asks : Half

-- The constructor. `span` is computed in `uint64_t`.
unfoldable pub open_book : ℕ → PriceLadderConfig → Run OrderBook
open_book symbol_id ladder =
    if leb_ℤ min_price (pos 0) || not (leb_ℤ min_price max_price)
    then throws invalid_argument
    else if ltb 0xffff_ffff span
    then throws invalid_argument
    else ok (record {
      symbol_id = symbol_id;
      min_price = min_price;
      max_price = max_price;
      level_count = span;
      nodes = [];
      free = [];
      index = [];
      bids = empty_half;
      asks = empty_half;
    })
  where
    open ladder use {min_price, max_price}

    span : ℕ
    span = (to_u64 (max_price -ℤ min_price) + 1) % 2 ^ 64

    empty_half : Half
    empty_half = record {
      levels = replicate span empty_level;
      bitmap = replicate ((span + bits_per_word - 1) / bits_per_word) 0;
      level_count = 0;
      best_idx = none;
    }

unfoldable pub price_in_band : OrderBook → ℤ → Bool
price_in_band b price = leb_ℤ b.min_price price && leb_ℤ price b.max_price

unfoldable pub price_to_index : OrderBook → ℤ → ℕ
price_to_index b price = to_u64 (price -ℤ b.min_price) % 2 ^ 32

unfoldable pub index_to_price : OrderBook → ℕ → ℤ
index_to_price b idx = b.min_price +ℤ pos idx

-- `side == Side::Buy ? bids_ : asks_`, read and written.
abbrev pub half : OrderBook → Side → Half
half b side = if is_buy side then b.bids else b.asks

abbrev pub put_half : OrderBook → Side → Half → OrderBook
put_half b side h = if is_buy side then record b { bids = h } else record b { asks = h }

unfoldable pub level_for : OrderBook → Side → ℕ → Level
level_for b side idx = get_or (half b side).levels idx empty_level

-- A write through the reference that `level_for` returns.
unfoldable pub put_level : OrderBook → Side → ℕ → Level → OrderBook
put_level b side idx level =
    let h = half b side in put_half b side (record h { levels = set h.levels idx level })

-- `nodes_[idx]`
abbrev pub node : OrderBook → ℕ → Node
node b idx = get_or b.nodes idx empty_node

abbrev pub put_node : OrderBook → ℕ → Node → OrderBook
put_node b idx n = record b { nodes = set b.nodes idx n }

-- `best_bid_idx_` after a bid at `idx`, `best_ask_idx_` after an ask.
abbrev pub raise_best : Option ℕ → ℕ → Option ℕ
raise_best none idx = some idx
raise_best (some best) idx = if ltb best idx then some idx else some best

abbrev pub lower_best : Option ℕ → ℕ → Option ℕ
lower_best none idx = some idx
lower_best (some best) idx = if ltb idx best then some idx else some best

unfoldable pub set_occupied : OrderBook → Side → ℕ → OrderBook
set_occupied b side idx =
    let h = half b side in
    put_half b side (record h {
      bitmap = set_bit h.bitmap idx;
      best_idx = (if is_buy side then raise_best h.best_idx idx else lower_best h.best_idx idx);
    })

unfoldable pub contains : OrderBook → ℕ → Bool
contains b id = has_key id b.index

unfoldable pub find : OrderBook → ℕ → Option RestingOrderView
find b id = elim (lookup id b.index) [ none ↦ none | some idx ↦ view (node b idx) ]
  where
    view : Node → Option RestingOrderView
    view n =
        if not n.active
        then none
        else some (record {
          order_id = n.order_id;
          account_id = n.account_id;
          side = n.side;
          price = n.price;
          qty = n.qty;
        })
