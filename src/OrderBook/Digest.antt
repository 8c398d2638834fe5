-- ===== src/OrderBook/Digest.antt =====
-- `OrderBook::checksum` of src/order_book.cpp. Its loops run on fuel: one round more than there are
-- levels, and for the nodes of a level one more than there are nodes.
pub mod Reference
use exchange_and_feed_handle.Base.{
  ℕ, zero, suc, ◌+◌, ◌-◌, Bool, Option, none, some, List, [], ◌∷◌, ◌==◌, if◌then◌else◌, length,
  get_or,
}
use exchange_and_feed_handle.Base.Int.{to_u64}
use exchange_and_feed_handle.Base.Run.{Run, ok, out_of_fuel, ◌>>=◌}
use exchange_and_feed_handle.Checksum.{hash_combine}
use exchange_and_feed_handle.OrderBook.Bitmap.{has_bit, find_lowest_occupied, find_highest_occupied}
use exchange_and_feed_handle.OrderBook.State.{
  OrderBook, Node, Level, Half, null, empty_level, index_to_price,
}
use exchange_and_feed_handle.OrderBook.Nodes.Chain.{at}

-- The three values of a node.
unfoldable pub hash_node : ℕ → Node → ℕ
hash_node h n = hash_combine (hash_combine (hash_combine h n.order_id) n.account_id) n.qty

-- The loop over the nodes of a level, from `node_idx` on.
unfoldable pub hash_chain : ℕ → List Node → ℕ → ℕ → Run ℕ
hash_chain zero ns node_idx h = out_of_fuel
hash_chain (suc fuel) ns node_idx h =
    let n = at ns node_idx in
    let rest = hash_chain fuel ns n.next (hash_node h n) in if node_idx == null then ok h else rest

-- The price and the quantity of a level, and then its nodes.
unfoldable pub hash_level : OrderBook → Half → ℕ → ℕ → Run ℕ
hash_level b side idx h =
    let level = get_or side.levels idx empty_level in
    hash_chain (suc (length b.nodes)) b.nodes level.head
      (hash_combine (hash_combine h (to_u64 (index_to_price b idx))) level.total_qty)

-- The loops that look for the next level: down from below `idx`, and up from `j` for `n` levels.
unfoldable pub prev_occupied : List ℕ → ℕ → Option ℕ
prev_occupied bitmap zero = none
prev_occupied bitmap (suc j) =
    let rest = prev_occupied bitmap j in if has_bit bitmap j then some j else rest

unfoldable pub next_occupied : List ℕ → ℕ → ℕ → Option ℕ
next_occupied bitmap zero j = none
next_occupied bitmap (suc n) j =
    let rest = next_occupied bitmap n (j + 1) in if has_bit bitmap j then some j else rest

-- The loops over the bid levels and over the ask levels.
unfoldable pub hash_bids : ℕ → OrderBook → Option ℕ → ℕ → Run ℕ
hash_bids zero b maybe_idx h = out_of_fuel
hash_bids (suc fuel) b none h = ok h
hash_bids (suc fuel) b (some idx) h = hash_level b b.bids idx h >>= λ h'.
    (if idx == 0 then ok h' else hash_bids fuel b (prev_occupied b.bids.bitmap idx) h')

unfoldable pub hash_asks : ℕ → OrderBook → Option ℕ → ℕ → Run ℕ
hash_asks zero b maybe_idx h = out_of_fuel
hash_asks (suc fuel) b none h = ok h
hash_asks (suc fuel) b (some idx) h = hash_level b b.asks idx h >>= λ h'.
    hash_asks fuel b (next_occupied b.asks.bitmap (b.level_count - (idx + 1)) (idx + 1)) h'

unfoldable pub checksum : OrderBook → Run ℕ
checksum b =
    hash_bids (suc b.level_count) b (find_highest_occupied b.level_count b.bids.bitmap)
      (hash_combine 0x4558_4348_424f_4f4b b.symbol_id)
    >>= λ h. hash_asks (suc b.level_count) b (find_lowest_occupied b.level_count b.asks.bitmap) h
