-- ===== src/OrderBook/Invariant/Operations.antt =====
-- Every operation of the order book keeps the invariant, and none runs out of fuel.
use exchange_and_feed_handle.Base.{
  ℕ, ◌-◌, ◌<◌, ◌≡◌, refl, true, false, inl, inr, none, some, ◌==◌, leb, length, Bool-cases,
  Option-cases, ==_refl,
}
use exchange_and_feed_handle.Base.Int.{ℤ}
use exchange_and_feed_handle.Base.Map.{lookup, lookup-erase}
use exchange_and_feed_handle.Types.{Side, MdType, is_buy}
use exchange_and_feed_handle.OrderBook.State.{OrderBook, null, node, price_in_band, contains}
use exchange_and_feed_handle.OrderBook.Nodes.{remove_node}
use exchange_and_feed_handle.OrderBook.Nodes.Frame.{SameBand, SameBand-remove_node}
use exchange_and_feed_handle.OrderBook.{
  cancel_order, feed_add, feed_execute, execute_node, rest_order,
}
use exchange_and_feed_handle.OrderBook.Queues.{Queues, Shrinks, without, nonempty-without}
use exchange_and_feed_handle.OrderBook.Invariant.{IsBook}
use exchange_and_feed_handle.OrderBook.Invariant.Band.{IsBand}
use exchange_and_feed_handle.OrderBook.Invariant.Remove.{remove_node-IsBook}
use exchange_and_feed_handle.OrderBook.Invariant.Reduce.{reduced_book-IsBook}
use exchange_and_feed_handle.OrderBook.Invariant.RestOrder.{rest_order-Joins, rest_order-band}
use exchange_and_feed_handle.OrderBook.Invariant.Match.{remove_node-parts, reduced_band}

pub IsBand-same : {b c : OrderBook} → SameBand b c → IsBand b → IsBand c
IsBand-same s v = record {
  low = rw s.low v.low;
  high = rw s.high v.high;
  positive = rw s.low v.positive;
  span = rw (s.low, s.high, s.levels) v.span;
  bound = rw s.levels v.bound;
}

-- A book whose parts describe some queues, in a band of positive prices.
pub record IsSound (b : OrderBook) : Type 0 where
  pub band : IsBand b
  pub queues : Queues
  pub book : IsBook b queues

-- A live order's node is in a queue, and leaves it.
pub remove_live :
    (b : OrderBook) (seq order_id k removed : ℕ) (type : MdType)
    → (v : IsSound b) → lookup order_id b.index ≡ some k
    → (w : IsSound (remove_node b seq k removed type).0) × Shrinks v.queues w.queues
remove_live b seq order_id k removed type v e =
    let (id, m) = v.book.indexed.found order_id k e in
    (
      record {
        band = IsBand-same (SameBand-remove_node b seq k removed type) v.band;
        queues = λ t j. without k (v.queues t j);
        book =
            remove_node-IsBook b v.queues (is_buy (node b k).side) (node b k).level_idx k seq
              removed type v.book m;
      },
      λ t j e. nonempty-without k (v.queues t j) e,
    )

-- A cancel keeps the invariant, and after it the id is not live.
pub cancel_order-IsSound :
    (b : OrderBook) (seq order_id : ℕ)
    → IsSound b
    → IsSound (cancel_order b seq order_id).0
      × (lookup order_id (cancel_order b seq order_id).0.index ≡ none)
unfolding cancel_order
cancel_order-IsSound b seq order_id v = elim (Option-cases (lookup order_id b.index)) [
  | inl p ↦ rw (p, cancel_order) (v, p)
  | inr (k, p) ↦
      let (id, m) = v.book.indexed.found order_id k p in
      let (index, pool) = remove_node-parts b seq k (node b k).qty MdType.cancel in
      rw (p, cancel_order)
        (
          (remove_live b seq order_id k (node b k).qty MdType.cancel v p).0,
          rw (index, lookup-erase (node b k).order_id order_id b.index, id, ==_refl order_id) refl,
        )
]

-- An execution from the feed, of any id and quantity, keeps a sound book sound.
pub feed_execute-IsSound :
    (b : OrderBook) (order_id qty : ℕ) → IsSound b → IsSound (feed_execute b order_id qty).0
unfolding feed_execute execute_node
feed_execute-IsSound b order_id qty v = elim (Option-cases (lookup order_id b.index)) [
  | inl p ↦ rw (p, feed_execute) v
  | inr (k, p) ↦ elim (Bool-cases (qty == 0)) [
    | inl nil ↦ rw (p, nil, feed_execute) v
    | inr some_qty ↦ elim (Bool-cases (leb (node b k).qty qty)) [
      | inl all ↦
          rw (p, some_qty, all, feed_execute, execute_node)
            (remove_live b 0 order_id k (node b k).qty MdType.execute v p).0
      | inr part ↦
          rw (p, some_qty, part, feed_execute, execute_node)
            (record {
              band =
                  IsBand-same
                    (reduced_band b (node b k).side (node b k).level_idx k ((node b k).qty - qty) _)
                    v.band;
              queues = v.queues;
              book =
                  reduced_book-IsBook b v.queues (node b k).side (node b k).level_idx k
                    ((node b k).qty - qty) _ v.book;
            })
    ]
  ]
]

-- So does an order that comes to rest, if it is in the band, with a new id.
pub rest_order-IsSound :
    (b : OrderBook) (id account : ℕ) (side : Side) (price : ℤ) (qty : ℕ)
    → IsSound b
    → price_in_band b price ≡ true
    → contains b id ≡ false
    → length b.nodes < null
    → IsSound (rest_order b id account side price qty)
rest_order-IsSound b id account side price qty v inside fresh room =
    let (k, (w, _, _, _)) =
      rest_order-Joins b v.queues v.book v.band id account side price qty inside fresh room in
    record {
      band = IsBand-same (rest_order-band b id account side price qty) v.band;
      queues = _;
      book = w;
    }

-- An order from the feed, whatever it is, keeps a sound book with fewer nodes than `null` sound.
feed_add-IsSound :
    (b : OrderBook) (id account : ℕ) (side : Side) (price : ℤ) (qty : ℕ)
    → IsSound b
    → length b.nodes < null
    → IsSound (feed_add b id account side price qty).0
unfolding feed_add
feed_add-IsSound b id account side price qty v room = elim (Bool-cases (contains b id)) [
  | inl dup ↦ rw (dup, feed_add) v
  | inr fresh ↦ elim (Bool-cases (qty == 0)) [
    | inl nil ↦ rw (fresh, nil, feed_add) v
    | inr some_qty ↦ elim (Bool-cases (price_in_band b price)) [
      | inr out ↦ rw (fresh, some_qty, out, feed_add) v
      | inl inside ↦
          rw (fresh, some_qty, inside, feed_add)
            (rest_order-IsSound b id account side price qty v inside fresh room)
    ]
  ]
]
