-- ===== src/OrderBook/Feeds/Rest.antt =====
-- The event of an order that comes to rest leads to the book behind it.
use exchange_and_feed_handle.Base.{
  ℕ, zero, suc, ◌%◌, ◌^◌, ◌<◌, ◌≡◌, refl, sym, ap, ◌∙◌, true, false, inl, inr, some, List, [], ◌∷◌,
  ◌++◌, arith, ◌==◌, if◌then◌else◌, length, set, get_or, Bool-cases, ==_refl,
}
use exchange_and_feed_handle.Base.Int.{ℤ}
use exchange_and_feed_handle.Base.Map.{lookup, insert, lookup-insert, contains-insert}
use exchange_and_feed_handle.Types.{Side, is_buy}
use exchange_and_feed_handle.OrderBook.State.{
  OrderBook, Node, node, null, empty_node, empty_level, half, price_in_band, contains,
}
use exchange_and_feed_handle.OrderBook.Nodes.{new_node, alloc_node, append_to_level}
use exchange_and_feed_handle.OrderBook.Nodes.Chain.{at, at-set_ne, mem}
use exchange_and_feed_handle.OrderBook.{rest_order, feed_add, add_event}
use exchange_and_feed_handle.OrderBook.Invariant.Unlink.{InPool-mem, contents, contents-write_next}
use exchange_and_feed_handle.OrderBook.Invariant.Add.{append_to_level-eq}
use exchange_and_feed_handle.OrderBook.Invariant.RestOrder.{rest_order-Joins, rest_order-band}
use exchange_and_feed_handle.OrderBook.Invariant.Operations.{IsSound}
use exchange_and_feed_handle.OrderBook.Totals.Operations.{apply_to_book}
use exchange_and_feed_handle.OrderBook.Feeds.{Fed, IsPositive}

append_to_level-same_index : (b : OrderBook) (k : ℕ) → (append_to_level b k).index ≡ b.index
append_to_level-same_index b k =
    ap (λ x. x.index) (append_to_level-eq b k)
    ∙ elim (Bool-cases (is_buy (node b k).side)) [ inl buy ↦ rw buy refl | inr sell ↦ rw sell refl ]

append_to_level-others :
    (b : OrderBook) (k j : ℕ)
    → (j == k) ≡ false
    → contents (node (append_to_level b k) j) ≡ contents (node b j)
append_to_level-others b k j apart =
    let n = node b k in
    let level = get_or (half b n.side).levels n.level_idx empty_level in
    let n' : Node = record n { prev = level.tail; next = null } in
    ap (λ x. contents (node x j)) (append_to_level-eq b k)
    ∙ contents-write_next (set b.nodes k n') level.tail k j
    ∙ ap contents (at-set_ne b.nodes k j n' apart)

at-append : (ns : List Node) (j : ℕ) (n : Node) → j < length ns → at (ns ++ (n ∷ [])) j ≡ at ns j
at-append [] j n h = absurd (omega arith)
at-append (x ∷ ns) zero n h = refl
at-append (x ∷ ns) (suc j) n h = at-append ns j n (omega arith)

module _ (b : OrderBook) (id account : ℕ) (side : Side) (price : ℤ) (qty : ℕ) where
  abbrev slot : ℕ
  slot = (alloc_node b id account side price qty).1

  alloc_node-index : (alloc_node b id account side price qty).0.index ≡ insert id slot b.index
  unfolding alloc_node
  alloc_node-index = by_free b.free refl
    where
      by_free :
          (free : List ℕ)
          → b.free ≡ free
          → (alloc_node b id account side price qty).0.index
            ≡ insert id (alloc_node b id account side price qty).1 b.index
      by_free [] e = rw (e, alloc_node) refl
      by_free (k ∷ r) e = rw (e, alloc_node) refl

  alloc_node-others :
      (j : ℕ)
      → j < length b.nodes
      → (j == slot) ≡ false
      → node (alloc_node b id account side price qty).0 j ≡ node b j
  unfolding alloc_node
  alloc_node-others j inside apart = by_free b.free refl apart
    where
      by_free :
          (free : List ℕ)
          → b.free ≡ free
          → (j == (alloc_node b id account side price qty).1) ≡ false
          → node (alloc_node b id account side price qty).0 j ≡ node b j
      by_free [] e far =
          rw (e, alloc_node)
            (at-set_ne (b.nodes ++ (empty_node ∷ [])) (length b.nodes % 2 ^ 32) j
                (new_node b id account side price qty) (rw (e, alloc_node) at far)
              ∙ at-append b.nodes j empty_node inside)
      by_free (k ∷ r) e far =
          rw (e, alloc_node)
            (at-set_ne b.nodes k j (new_node b id account side price qty)
              (rw (e, alloc_node) at far))

  abbrev rested : OrderBook
  rested = rest_order b id account side price qty

  rest_order-index : rested.index ≡ insert id slot b.index
  unfolding rest_order
  rest_order-index =
      append_to_level-same_index (alloc_node b id account side price qty).0 slot ∙ alloc_node-index

  rest_order-others :
      (j : ℕ)
      → j < length b.nodes
      → (j == slot) ≡ false
      → contents (node rested j) ≡ contents (node b j)
  unfolding rest_order
  rest_order-others j inside apart =
      append_to_level-others (alloc_node b id account side price qty).0 slot j apart
      ∙ ap contents (alloc_node-others j inside apart)

  -- For an order of a positive quantity and a new id, at a price in the band, on a sound book with room.
  module _ (s : IsSound b) (pos : IsPositive b) (some_qty : (qty == 0) ≡ false)
      (in_band : price_in_band b price ≡ true) (fresh : contains b id ≡ false)
      (room : length b.nodes < null) where
    pub rest_order-Fed : (seq : ℕ) → Fed b (add_event b seq id account side price qty) rested
    unfolding apply_to_book feed_add contains
    rest_order-Fed seq = record {
      done = rw (fresh, some_qty, in_band, feed_add) refl;
      same = rw (fresh, some_qty, in_band, feed_add) refl;
      symbol = refl;
      kept = (rest_order-band b id account side price qty).symbol;
      others = λ j apart. rw (rest_order-index, contains-insert id j slot b.index) (ground arith);
      leaves = rw (rest_order-index, contains-insert id id slot b.index, ==_refl id) refl;
    }

    pub rest_order-IsPositive : IsPositive rested
    rest_order-IsPositive x j e =
        let (k, (_, found, same, new)) =
          rest_order-Joins b s.queues s.book s.band id account side price qty in_band fresh room in
        let read : (y : ℕ)
            → lookup y rested.index ≡ (if id == y then some slot else lookup y b.index) =
          λ y. ap (λ m. lookup y m) rest_order-index ∙ lookup-insert id y slot b.index in
        elim (Bool-cases (id == x)) [
          | inl mine ↦
              let same_id : x ≡ id = ground arith in
              let here : j ≡ k = cc (rw same_id at e) in
              rw (here, ap (λ n. n.qty) same) (ground arith)
          | inr other ↦
              let was : lookup x b.index ≡ some j = sym (rw other at (read x)) ∙ e in
              let (_, m) = s.book.indexed.found x j was in
              let at_slot : k ≡ slot = cc (rw (==_refl id) at (read id)) in
              let inside =
                (InPool-mem b.nodes j _
                  (s.book.linked.pool (is_buy (node b j).side) (node b j).level_idx) m).0 in
              let far : (j == slot) ≡ false = elim (Bool-cases (j == slot)) [
                | inr a ↦ a
                | inl h ↦
                    let at_k : j ≡ k = ground arith in
                    let out : mem j (s.queues (is_buy (node b j).side) (node b j).level_idx)
                        ≡ false =
                      rw at_k (new (is_buy (node b k).side) (node b k).level_idx) in
                    cc
              ] in
              rw (ap (λ n. n.qty) (rest_order-others j inside far)) (pos x j was)
        ]
