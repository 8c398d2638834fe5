-- ===== src/OrderBook/Invariant.antt =====
-- The invariant of the order book: its nodes, index, free list, levels and bitmaps describe one set of
-- queues.
pub mod Index
pub mod Ladder
pub mod Add
pub mod AddOrder
pub mod Band
pub mod Crossing
pub mod Ends
pub mod Grow
pub mod Loop
pub mod Match
pub mod Open
pub mod Operations
pub mod Push
pub mod Reduce
pub mod Remove
pub mod Rest
pub mod Settled
pub mod RestOrder
pub mod Top
pub mod Unlink
use exchange_and_feed_handle.Base.{
  ℕ, ◌+◌, ◌*◌, ◌^◌, ◌≤◌, ◌<◌, ◌≡◌, Bool, true, false, Option, none, some, List, [], length, get_or,
}
use exchange_and_feed_handle.Base.Int.{ℤ, pos, ◌+ℤ◌}
use exchange_and_feed_handle.Base.Map.{Map, lookup}
use exchange_and_feed_handle.Types.{is_buy}
use exchange_and_feed_handle.OrderBook.Bitmap.{has_bit}
use exchange_and_feed_handle.OrderBook.Bitmap.Digits.{Words}
use exchange_and_feed_handle.OrderBook.State.{OrderBook, Node, Level, Half, null, empty_level}
use exchange_and_feed_handle.OrderBook.Nodes.Chain.{at, mem, first, last, Distinct, Seg, InPool}
use exchange_and_feed_handle.OrderBook.Queues.{Queues, nonempty}

-- A node of the queue of side `buy` and level `i` belongs there, and has the price of the level.
pub record IsHome (min_price : ℤ) (buy : Bool) (i : ℕ) (n : Node) : Type 0 where
  pub side : is_buy n.side ≡ buy
  pub level : n.level_idx ≡ i
  pub live : n.active ≡ true
  pub price : n.price ≡ min_price +ℤ pos i

-- The nodes of each queue are linked in its order.
pub record IsLinked (min_price : ℤ) (ns : List Node) (q : Queues) : Type 0 where
  pub chain : (s : Bool) (i : ℕ) → Seg ns null (q s i) null
  pub distinct : (s : Bool) (i : ℕ) → Distinct (q s i)
  pub pool : (s : Bool) (i : ℕ) → InPool ns (q s i)
  pub home : (s : Bool) (i k : ℕ) → mem k (q s i) ≡ true → IsHome min_price s i (at ns k)

-- The index has exactly the nodes of the queues, each under its id.
pub record IsIndexed (ns : List Node) (index : Map ℕ) (q : Queues) : Type 0 where
  pub indexed :
      (s : Bool) (i k : ℕ) → mem k (q s i) ≡ true → lookup (at ns k).order_id index ≡ some k
  pub found :
      (id k : ℕ)
      → lookup id index ≡ some k
      → ((at ns k).order_id ≡ id) × (mem k (q (is_buy (at ns k).side) (at ns k).level_idx) ≡ true)

-- The free nodes are in no queue.
pub record IsFree (ns : List Node) (free : List ℕ) (q : Queues) : Type 0 where
  pub distinct : Distinct free
  pub pool : InPool ns free
  pub apart : (s : Bool) (i k : ℕ) → mem k free ≡ true → mem k (q s i) ≡ false

-- The level holds the ends and the length of its queue.
pub record IsEnds (level : Level) (q : List ℕ) : Type 0 where
  pub head : level.head ≡ first q null
  pub tail : level.tail ≡ last null q
  pub count : level.count ≡ length q

-- `best` is the best level with a queue: the highest for bids, the lowest for asks.
abbrev pub IsBest : Bool → (ℕ → Bool) → Option ℕ → Type 0
IsBest buy used none = (i : ℕ) → used i ≡ false
IsBest true used (some r) = (used r ≡ true) × ((j : ℕ) → r < j → used j ≡ false)
IsBest false used (some r) = (used r ≡ true) × ((j : ℕ) → j < r → used j ≡ false)

-- One side of the book, of `n` levels, describes its queues.
pub record IsLadder (n : ℕ) (buy : Bool) (h : Half) (q : ℕ → List ℕ) : Type 0 where
  pub size : length h.levels ≡ n
  pub ends : (i : ℕ) → i < n → IsEnds (get_or h.levels i empty_level) (q i)
  pub words : Words h.bitmap
  pub enough_bits : n ≤ 64 * length h.bitmap
  pub bits_bound : 64 * length h.bitmap ≤ 2 ^ 32
  pub occupied : (i : ℕ) → has_bit h.bitmap i ≡ nonempty (q i)
  pub outside : (i : ℕ) → n ≤ i → q i ≡ []
  pub best : IsBest buy (λ i. nonempty (q i)) h.best_idx

pub record IsBook (b : OrderBook) (q : Queues) : Type 0 where
  pub linked : IsLinked b.min_price b.nodes q
  pub indexed : IsIndexed b.nodes b.index q
  pub free : IsFree b.nodes b.free q
  pub bids : IsLadder b.level_count true b.bids (q true)
  pub asks : IsLadder b.level_count false b.asks (q false)
  pub pool_bound : length b.nodes ≤ null
