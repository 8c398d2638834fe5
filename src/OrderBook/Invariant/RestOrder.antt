-- ===== src/OrderBook/Invariant/RestOrder.antt =====
-- `rest_order` keeps the invariant.
use exchange_and_feed_handle.Base.{
  ℕ, ◌+◌, ◌%◌, ◌^◌, ◌<◌, ◌≡◌, refl, sym, Bool, true, false, ◌⊎◌, inl, inr, none, some, List, [],
  ◌∷◌, ◌++◌, arith, length, set, length-set, length-append, Option-cases, ==_refl, ◌≤◌,
}
use mathlib.Core.Path.{subst}
use exchange_and_feed_handle.Base.Int.{ℤ, pos, ◌+ℤ◌}
use exchange_and_feed_handle.Base.Map.{lookup, insert, lookup-insert, contains as has_key}
use exchange_and_feed_handle.Types.{Side, is_buy}
use exchange_and_feed_handle.OrderBook.State.{
  OrderBook, Node, node, null, empty_node, price_in_band, price_to_index, contains,
}
use exchange_and_feed_handle.OrderBook.Nodes.{new_node, alloc_node, append_to_level}
use exchange_and_feed_handle.OrderBook.{rest_order}
use exchange_and_feed_handle.OrderBook.Nodes.Chain.{at, mem}
use exchange_and_feed_handle.OrderBook.Nodes.Frame.{SameBand, SameBand-trans}
use exchange_and_feed_handle.OrderBook.Queues.{Queues, pushed}
use exchange_and_feed_handle.OrderBook.Invariant.{IsBook}
use exchange_and_feed_handle.OrderBook.Invariant.Band.{IsBand, price_to_index-in_band}
use exchange_and_feed_handle.OrderBook.Invariant.Unlink.{contents}
use exchange_and_feed_handle.OrderBook.Invariant.Rest.{IsReady, reuse, extend}
use exchange_and_feed_handle.OrderBook.Invariant.Add.{
  append_to_level-IsBook, append_to_level-band, append_to_level-node, append_to_level-index,
  length-append_to_level,
}

List-cases : (l : List ℕ) → (l ≡ []) ⊎ ((k : ℕ) × (r : List ℕ) × (l ≡ k ∷ r))
List-cases [] = inl refl
List-cases (k ∷ r) = inr (k, r, refl)

pub lookup_of_contains : (b : OrderBook) (id : ℕ) → contains b id ≡ false → lookup id b.index ≡ none
unfolding contains has_key
lookup_of_contains b id h = elim (Option-cases (lookup id b.index)) [
  | inl p ↦ p
  | inr (k, p) ↦ cc (rw (p, has_key) at h)
]

module _ (b : OrderBook) (q : Queues) (v : IsBook b q) (band : IsBand b) (id account : ℕ)
    (side : Side) (price : ℤ) (qty : ℕ) (in_band : price_in_band b price ≡ true)
    (fresh : contains b id ≡ false) where
  abbrev pub order : Node
  order = new_node b id account side price qty

  abbrev pub place : ℕ → Queues
  place k = pushed q (is_buy side) (price_to_index b price) k

  -- What is known once the node `k` is in the book.
  abbrev pub Joins : OrderBook → ℕ → Type 0
  Joins c k =
      IsBook c (place k)
      × (lookup id c.index ≡ some k)
      × (contents (node c k) ≡ contents order)
      × ((t : Bool) (j : ℕ) → mem k (q t j) ≡ false)

  filled-Joins :
      (ps : List Node) (free : List ℕ) (k : ℕ)
      → IsReady b q order ps free k
      → Joins
          (append_to_level (record b { nodes = ps; free = free; index = insert id k b.index }) k)
          k
  filled-Joins ps free k w =
      let (inside, priced) = price_to_index-in_band b price band in_band in
      let w' : IsReady b q (at ps k) ps free k = rw (sym w.filled) at w in
      let none_there = lookup_of_contains b id fresh in
      let inside' : (at ps k).level_idx < b.level_count = rw w.filled inside in
      let priced' : (at ps k).price ≡ b.min_price +ℤ pos (at ps k).level_idx = rw w.filled priced in
      let live' : (at ps k).active ≡ true = rw w.filled refl in
      let fresh' : lookup (at ps k).order_id b.index ≡ none = rw w.filled none_there in
      let index = append_to_level-index b q v ps free k w' inside' priced' live' fresh' in
      (
        rw w.filled at (append_to_level-IsBook b q v ps free k w' inside' priced' live' fresh'),
        rw (rw w.filled at index, lookup-insert id id k b.index, ==_refl id) refl,
        rw w.filled at (append_to_level-node b q v ps free k w' inside' priced' live' fresh'),
        w.new,
      )

  alloc_new :
      b.free ≡ []
      → length b.nodes < null
      → alloc_node b id account side price qty ≡ (
        record b {
          nodes = set (b.nodes ++ (empty_node ∷ [])) (length b.nodes) order;
          index = insert id (length b.nodes) b.index;
        },
        length b.nodes,
      )
  unfolding alloc_node
  alloc_new e room =
      let wrap : length b.nodes % 2 ^ 32 ≡ length b.nodes = omega arith in ground arith

  alloc_old :
      (k : ℕ) (rest : List ℕ)
      → b.free ≡ k ∷ rest
      → alloc_node b id account side price qty
        ≡ (record b { nodes = set b.nodes k order; free = rest; index = insert id k b.index }, k)
  unfolding alloc_node
  alloc_old k rest e = ground arith

  -- For a price in the band and a new id, on a book with fewer nodes than `null`: the order joins the back
  -- of the queue of its price, in a node that was in no queue.
  pub rest_order-Joins :
      length b.nodes < null → (k : ℕ) × Joins (rest_order b id account side price qty) k
  unfolding rest_order
  rest_order-Joins room = elim (List-cases b.free) [
    | inl e ↦
        let ps = set (b.nodes ++ (empty_node ∷ [])) (length b.nodes) order in
        let w =
          subst (λ l. IsReady b q order ps l (length b.nodes)) (sym e)
            (extend b q v order room e) in
        (length b.nodes, rw (alloc_new e room) (filled-Joins ps b.free (length b.nodes) w))
    | inr (k, rest, e) ↦
        let w = reuse b q v order k rest e in
        (k, rw (alloc_old k rest e) (filled-Joins (set b.nodes k order) rest k w))
  ]

alloc_node-band :
    (b : OrderBook) (id account : ℕ) (side : Side) (price : ℤ) (qty : ℕ)
    → SameBand b (alloc_node b id account side price qty).0
unfolding alloc_node
alloc_node-band b id account side price qty = ground arith

-- It leaves the band.
pub rest_order-band :
    (b : OrderBook) (id account : ℕ) (side : Side) (price : ℤ) (qty : ℕ)
    → SameBand b (rest_order b id account side price qty)
unfolding rest_order
rest_order-band b id account side price qty =
    let (c, k) = alloc_node b id account side price qty in
    SameBand-trans (alloc_node-band b id account side price qty) (append_to_level-band c k)

length-alloc_node :
    (b : OrderBook) (id account : ℕ) (side : Side) (price : ℤ) (qty : ℕ)
    → length (alloc_node b id account side price qty).0.nodes ≤ length b.nodes + 1
unfolding alloc_node
length-alloc_node b id account side price qty = elim (List-cases b.free) [
  | inl e ↦
      rw
        (
          e,
          alloc_node,
          length-set (b.nodes ++ (empty_node ∷ [])) (length b.nodes % 2 ^ 32)
              (new_node b id account side price qty),
          length-append b.nodes (empty_node ∷ []),
        )
        (omega arith)
  | inr (k, rest, e) ↦
      rw (e, alloc_node, length-set b.nodes k (new_node b id account side price qty)) (omega arith)
]

-- It adds at most one node to the pool.
pub length-rest_order :
    (b : OrderBook) (id account : ℕ) (side : Side) (price : ℤ) (qty : ℕ)
    → length (rest_order b id account side price qty).nodes ≤ length b.nodes + 1
unfolding rest_order
length-rest_order b id account side price qty =
    let (c, k) = alloc_node b id account side price qty in
    omega (arith, length-append_to_level c k, length-alloc_node b id account side price qty)
