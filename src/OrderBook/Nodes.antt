-- ===== src/OrderBook/Nodes.antt =====
-- The private operations of `OrderBook` on its nodes and levels, from src/order_book.cpp. Each returns
-- the new book. A `std::uint32_t` counter wraps at 2 ^ 32, a `std::size_t` one at 2 ^ 64.
pub mod Chain
pub mod Frame
pub mod Links
use exchange_and_feed_handle.Base.{
  ℕ, zero, suc, ◌+◌, ◌-◌, ◌%◌, ◌^◌, min, Bool, true, false, Option, none, some, List, [], ◌∷◌, ◌++◌,
  ◌==◌, ltb, if◌then◌else◌, length, get_or, set,
}
use exchange_and_feed_handle.Base.Int.{ℤ}
use exchange_and_feed_handle.Base.Map.{insert, erase}
use exchange_and_feed_handle.Types.{Side, MdEvent, MdType, Trade, RejectReason, is_buy}
use exchange_and_feed_handle.OrderBook.Bitmap.{
  clear_bit, find_lowest_occupied, find_highest_occupied,
}
use exchange_and_feed_handle.OrderBook.State.{
  OrderBook, Half, Node, Level, MatchOutput, null, empty_node, empty_level, half, put_half,
  level_for, put_level, node, put_node, set_occupied, price_to_index,
}

-- The node that `alloc_node` fills in.
abbrev pub new_node : OrderBook → ℕ → ℕ → Side → ℤ → ℕ → Node
new_node b id account_id side price qty = record {
  order_id = id;
  account_id = account_id;
  side = side;
  price = price;
  qty = qty;
  level_idx = price_to_index b price;
  prev = null;
  next = null;
  active = true;
}

unfoldable pub alloc_node : OrderBook → ℕ → ℕ → Side → ℤ → ℕ → OrderBook × ℕ
alloc_node b id account_id side price qty = elim b.free [
  | [] ↦
      let idx = length b.nodes % 2 ^ 32 in
      (
        record b {
          nodes = set (b.nodes ++ (empty_node ∷ [])) idx n;
          index = insert id idx b.index;
        },
        idx,
      )
  | idx ∷ rest ↦
      (record b { nodes = set b.nodes idx n; free = rest; index = insert id idx b.index }, idx)
]
  where
    n : Node
    n = new_node b id account_id side price qty

unfoldable pub free_node : OrderBook → ℕ → OrderBook
free_node b idx = record b {
  nodes = set b.nodes idx empty_node;
  free = idx ∷ b.free;
  index = erase (node b idx).order_id b.index;
}

abbrev pub find_best : OrderBook → Side → List ℕ → Option ℕ
find_best b side bitmap =
    if is_buy side
    then find_highest_occupied b.level_count bitmap
    else find_lowest_occupied b.level_count bitmap

-- `best && *best == idx`
abbrev pub is_best : Option ℕ → ℕ → Bool
is_best none idx = false
is_best (some best) idx = best == idx

unfoldable pub recompute_best_after_clear : OrderBook → Side → ℕ → OrderBook
recompute_best_after_clear b side cleared_idx =
    let h = half b side in
    put_half b side (record h {
      best_idx = (if is_best h.best_idx cleared_idx then find_best b side h.bitmap else h.best_idx);
    })

unfoldable pub clear_occupied : OrderBook → Side → ℕ → OrderBook
clear_occupied b side idx =
    let h = half b side in
    recompute_best_after_clear (put_half b side (record h { bitmap = clear_bit h.bitmap idx })) side
      idx

-- `++bid_level_count_` or `++ask_level_count_`, and `--`.
abbrev pub count_level : OrderBook → Side → OrderBook
count_level b side =
    let h = half b side in put_half b side (record h { level_count = (h.level_count + 1) % 2 ^ 64 })

abbrev pub uncount_level : OrderBook → Side → OrderBook
uncount_level b side =
    let h = half b side in
    put_half b side (record h { level_count = (h.level_count + 2 ^ 64 - 1) % 2 ^ 64 })

-- `nodes_[idx].next = next` and `nodes_[idx].prev = prev`
abbrev pub set_next : OrderBook → ℕ → ℕ → OrderBook
set_next b idx next = put_node b idx (record (node b idx) { next = next })

abbrev pub set_prev : OrderBook → ℕ → ℕ → OrderBook
set_prev b idx prev = put_node b idx (record (node b idx) { prev = prev })

-- The level after the node `idx`, of quantity `qty`, is linked behind its tail.
abbrev pub level_after_append : Level → ℕ → ℕ → Level
level_after_append level idx qty = record {
  head = (if level.tail == null then idx else level.head);
  tail = idx;
  total_qty = (level.total_qty + qty) % 2 ^ 32;
  count = (level.count + 1) % 2 ^ 32;
}

unfoldable pub append_to_level : OrderBook → ℕ → OrderBook
append_to_level b idx =
    if level.count == 0 then set_occupied (count_level filled n.side) n.side n.level_idx else filled
  where
    n : Node
    n = node b idx

    level : Level
    level = level_for b n.side n.level_idx

    placed : OrderBook
    placed = put_node b idx (record n { prev = level.tail; next = null })

    linked : OrderBook
    linked = if level.tail == null then placed else set_next placed level.tail idx

    filled : OrderBook
    filled = put_level linked n.side n.level_idx (level_after_append level idx n.qty)

-- The level after the node `n` is unlinked from it.
abbrev pub level_after_remove : Level → Node → ℕ → Level
level_after_remove level n removed_qty = record {
  head = (if n.prev == null then n.next else level.head);
  tail = (if n.next == null then n.prev else level.tail);
  total_qty = level.total_qty - min level.total_qty removed_qty;
  count = (if ltb 0 level.count then level.count - 1 else level.count);
}

-- The pointers of the neighbours of `n`. Neither write changes a pointer that the other reads.
abbrev pub unlink : OrderBook → Node → OrderBook
unlink b n =
    let front = if n.prev == null then b else set_next b n.prev n.next in
    if n.next == null then front else set_prev front n.next n.prev

unfoldable pub remove_node : OrderBook → ℕ → ℕ → ℕ → MdType → OrderBook × MdEvent
remove_node b seq idx removed_qty type = (
  free_node
      (if level'.count == 0
        then clear_occupied
            (uncount_level (put_level (unlink b n) n.side n.level_idx empty_level) n.side) n.side
            n.level_idx
        else put_level (unlink b n) n.side n.level_idx level')
      idx,
  record {
    seq = seq;
    type = type;
    symbol_id = b.symbol_id;
    order_id = n.order_id;
    new_order_id = 0;
    account_id = n.account_id;
    side = n.side;
    price = n.price;
    qty = removed_qty;
    reason = RejectReason.none;
  },
)
  where
    n : Node
    n = node b idx

    level' : Level
    level' = level_after_remove (level_for b n.side n.level_idx) n removed_qty

-- What `execute_head` appends to the output.
abbrev pub trade_of : OrderBook → ℕ → Node → ℕ → ℕ → Trade
trade_of b seq n aggressor exec_qty = record {
  seq = seq;
  symbol_id = b.symbol_id;
  resting_order_id = n.order_id;
  aggressing_order_id = aggressor;
  price = n.price;
  qty = exec_qty;
}

abbrev pub execute_event : OrderBook → ℕ → Node → ℕ → MdEvent
execute_event b seq n exec_qty = record {
  seq = seq;
  type = MdType.execute;
  symbol_id = b.symbol_id;
  order_id = n.order_id;
  new_order_id = 0;
  account_id = n.account_id;
  side = n.side;
  price = n.price;
  qty = exec_qty;
  reason = RejectReason.none;
}

-- `level` is given by its side and index. The caller's `out` is passed, and returned with the trade
-- and the event, and with `remaining_qty` less what was executed.
unfoldable pub execute_head :
    OrderBook → ℕ → Side → ℕ → ℕ → MatchOutput → ℕ → OrderBook × MatchOutput
execute_head b seq side level_idx idx out aggressor = (
  if resting.qty - exec_qty == 0 then (remove_node reduced seq idx 0 MdType.execute).0 else reduced,
  record out {
    md_events = out.md_events ++ (execute_event b seq resting exec_qty ∷ []);
    trades = out.trades ++ (trade_of b seq resting aggressor exec_qty ∷ []);
    remaining_qty = out.remaining_qty - exec_qty;
  },
)
  where
    resting : Node
    resting = node b idx

    exec_qty : ℕ
    exec_qty = min resting.qty out.remaining_qty

    level : Level
    level = level_for b side level_idx

    reduced : OrderBook
    reduced =
        put_level (put_node b idx (record resting { qty = resting.qty - exec_qty })) side level_idx
          (record level { total_qty = (level.total_qty + 2 ^ 32 - exec_qty) % 2 ^ 32 })
