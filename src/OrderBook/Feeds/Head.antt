-- ===== src/OrderBook/Feeds/Head.antt =====
-- The event of an execution leads to the book behind it.
use exchange_and_feed_handle.Base.{
  ℕ, zero, suc, ◌+◌, ◌-◌, ◌%◌, ◌^◌, ◌<◌, min, ◌≡◌, refl, sym, ap, ◌∙◌, true, false, inl, inr, none,
  some, List, [], ◌∷◌, arith, ◌==◌, leb, if◌then◌else◌, length, set, get_or-set, Bool-cases,
}
use exchange_and_feed_handle.Base.Map.{lookup, lookup-erase, contains-erase}
use exchange_and_feed_handle.Types.{Side, MdType, is_buy}
use exchange_and_feed_handle.OrderBook.State.{
  OrderBook, Node, MatchOutput, node, null, empty_node, put_node, level_for, contains,
}
use exchange_and_feed_handle.OrderBook.Nodes.{execute_head, execute_event, unlink}
use exchange_and_feed_handle.OrderBook.Nodes.Chain.{at, at-set_self, at-set_ne, mem}
use exchange_and_feed_handle.OrderBook.Nodes.Links.{write_next, write_prev, nodes-unlink}
use exchange_and_feed_handle.OrderBook.{feed_execute, execute_node}
use exchange_and_feed_handle.OrderBook.Nodes.Frame.{SameBand-remove_node}
use exchange_and_feed_handle.OrderBook.Queues.{Queues}
use exchange_and_feed_handle.OrderBook.Invariant.{IsBook}
use exchange_and_feed_handle.OrderBook.Invariant.Match.{reduced_band}
use exchange_and_feed_handle.OrderBook.Invariant.Unlink.{InPool-mem, contents-unlink}
use exchange_and_feed_handle.OrderBook.Invariant.Reduce.{reduced_book}
use exchange_and_feed_handle.OrderBook.Totals.{
  plain, SameOrders, plainly_removed, plain-remove_node,
}
use exchange_and_feed_handle.OrderBook.Totals.Operations.{apply_to_book, plain-reduced_book}
use exchange_and_feed_handle.OrderBook.Feeds.{Fed, IsPositive}

module _ (k : ℕ) (e : Node) where
  -- Pools that agree but for the node `k`.
  abbrev Alike : List Node → List Node → Type 0
  Alike ms ns = set ms k e ≡ set ns k e

  set_twice : (ms : List Node) (i : ℕ) (v w : Node) → set (set ms i v) i w ≡ set ms i w
  set_twice [] i v w = refl
  set_twice (m ∷ ms) zero v w = refl
  set_twice (m ∷ ms) (suc i) v w = ap (λ r. m ∷ r) (set_twice ms i v w)

  set_swap :
      (ms : List Node) (i j : ℕ) (v w : Node)
      → (i == j) ≡ false
      → set (set ms i v) j w ≡ set (set ms j w) i v
  set_swap [] i j v w h = refl
  set_swap (m ∷ ms) zero zero v w h = cc
  set_swap (m ∷ ms) zero (suc j) v w h = refl
  set_swap (m ∷ ms) (suc i) zero v w h = refl
  set_swap (m ∷ ms) (suc i) (suc j) v w h = ap (λ r. m ∷ r) (set_swap ms i j v w (ground arith))

  at-Alike : (ms ns : List Node) (p : ℕ) → (p == k) ≡ false → Alike ms ns → at ms p ≡ at ns p
  at-Alike ms ns p h s =
      let read = ap (λ l. at l p) s in
      ground (arith, get_or-set ms k p e empty_node, get_or-set ns k p e empty_node)

  -- A change of a node that reads that node only.
  write_Alike :
      (f : Node → Node) (ms ns : List Node) (p : ℕ)
      → Alike ms ns
      → Alike (set ms p (f (at ms p))) (set ns p (f (at ns p)))
  write_Alike f ms ns p s = elim (Bool-cases (p == k)) [
    | inl here ↦
        let same : p ≡ k = ground arith in
        rw (same, set_twice ms k (f (at ms k)) e, set_twice ns k (f (at ns k)) e) s
    | inr there ↦
        rw
          (
            set_swap ms p k (f (at ms p)) e there,
            set_swap ns p k (f (at ns p)) e there,
            at-Alike ms ns p there s,
            s,
          )
          refl
  ]

  next_Alike :
      (ms ns : List Node) (p n : ℕ) → Alike ms ns → Alike (write_next ms p n) (write_next ns p n)
  next_Alike ms ns p n s = elim (Bool-cases (p == null)) [
    | inl nil ↦ rw nil s
    | inr real ↦ rw real (write_Alike (λ x. record x { next = n }) ms ns p s)
  ]

  prev_Alike :
      (ms ns : List Node) (n p : ℕ) → Alike ms ns → Alike (write_prev ms n p) (write_prev ns n p)
  prev_Alike ms ns n p s = elim (Bool-cases (n == null)) [
    | inl nil ↦ rw nil s
    | inr real ↦ rw real (write_Alike (λ x. record x { prev = p }) ms ns n s)
  ]

-- The quantity of the removed node does not matter.
plainly_removed_emptied :
    (x : OrderBook) (k qty : ℕ)
    → k < length x.nodes
    → plainly_removed (put_node x k (record (node x k) { qty = qty })) k ≡ plainly_removed x k
plainly_removed_emptied x k qty inside =
    let n = node x k in
    let n' : Node = record n { qty = qty } in
    let y = put_node x k n' in
    let alike : set (set x.nodes k n') k empty_node ≡ set x.nodes k empty_node =
      set_twice k empty_node x.nodes k n' empty_node in
    let linked =
      prev_Alike k empty_node _ _ n.next n.prev
        (next_Alike k empty_node (set x.nodes k n') x.nodes n.prev n.next alike) in
    let pool : set (unlink y n').nodes k empty_node ≡ set (unlink x n).nodes k empty_node =
      ap (λ l. set l k empty_node) (nodes-unlink y n')
      ∙ linked
      ∙ sym (ap (λ l. set l k empty_node) (nodes-unlink x n)) in
    elim (Bool-cases (is_buy n.side)) [
      | inl buy ↦ rw (at-set_self x.nodes k n' inside, pool, buy) refl
      | inr sell ↦ rw (at-set_self x.nodes k n' inside, pool, sell) refl
    ]

-- The node `k`, live and of the queue of `side` and level `i`, is executed against what is left of an order.
module _ (b : OrderBook) (q : Queues) (v : IsBook b q) (pos : IsPositive b) (seq : ℕ) (side : Side)
    (i k : ℕ) (m : mem k (q (is_buy side) i) ≡ true) (out : MatchOutput) (aggressor : ℕ)
    (wants : 0 < out.remaining_qty) where
  abbrev exec_qty : ℕ
  exec_qty = min (node b k).qty out.remaining_qty

  abbrev reduced : OrderBook
  reduced =
      reduced_book b side i k ((node b k).qty - exec_qty)
        (((level_for b side i).total_qty + 2 ^ 32 - exec_qty) % 2 ^ 32)

  abbrev after : OrderBook
  after = (execute_head b seq side i k out aggressor).0

  live : lookup (node b k).order_id b.index ≡ some k
  live = v.indexed.indexed (is_buy side) i k m

  inside : k < length b.nodes
  inside = (InPool-mem b.nodes k (q (is_buy side) i) (v.linked.pool (is_buy side) i) m).0

  some_qty : (exec_qty == 0) ≡ false
  some_qty = let p = pos (node b k).order_id k live in ground arith

  -- A full execution removes the node.
  plain-full : ((node b k).qty - exec_qty == 0) ≡ true → plain after ≡ plainly_removed (plain b) k
  unfolding execute_head
  plain-full full =
      rw (full, execute_head)
        (plain-remove_node reduced seq k 0 MdType.execute
          ∙ ap (λ x. plainly_removed x k) (plain-reduced_book b side i k _ _)
          ∙ plainly_removed_emptied (plain b) k ((node b k).qty - exec_qty) inside)

  plain-part :
      ((node b k).qty - exec_qty == 0) ≡ false
      → plain after ≡ put_node (plain b) k (record (node b k) { qty = (node b k).qty - exec_qty })
  unfolding execute_head
  plain-part part = rw (part, execute_head) (plain-reduced_book b side i k _ _)

  execute_head-SameOrders : SameOrders (feed_execute b (node b k).order_id exec_qty).0 after
  unfolding feed_execute execute_node
  execute_head-SameOrders = elim (Bool-cases ((node b k).qty - exec_qty == 0)) [
    | inl full ↦
        let all : leb (node b k).qty exec_qty ≡ true = ground arith in
        rw (live, some_qty, all, feed_execute, execute_node)
          (plain-remove_node b 0 k (node b k).qty MdType.execute ∙ sym (plain-full full))
    | inr part ↦
        let less : leb (node b k).qty exec_qty ≡ false = ground arith in
        rw (live, some_qty, less, feed_execute, execute_node)
          (plain-reduced_book b (node b k).side (node b k).level_idx k _ _ ∙ sym (plain-part part))
  ]

  after_symbol : after.symbol_id ≡ b.symbol_id
  unfolding execute_head
  after_symbol =
      let kept = reduced_band b side i k ((node b k).qty - exec_qty) _ in
      elim (Bool-cases ((node b k).qty - exec_qty == 0)) [
        | inl full ↦
            rw (full, execute_head)
              ((SameBand-remove_node reduced seq k 0 MdType.execute).symbol ∙ kept.symbol)
        | inr part ↦ rw (part, execute_head) kept.symbol
      ]

  after_others : (j : ℕ) → (j == (node b k).order_id) ≡ false → contains after j ≡ contains b j
  unfolding contains
  after_others j apart = elim (Bool-cases ((node b k).qty - exec_qty == 0)) [
    | inl full ↦
        let index = ap (λ x. x.index) (plain-full full) in
        rw (index, contains-erase (node b k).order_id j b.index) (ground arith)
    | inr part ↦ ap (λ x. contains x j) (plain-part part)
  ]

  -- The event of the execution leads to the book behind it.
  pub execute_head-Fed : Fed b (execute_event b seq (node b k) exec_qty) after
  unfolding apply_to_book feed_execute
  execute_head-Fed = record {
    done = rw (live, some_qty, feed_execute) refl;
    same = execute_head-SameOrders;
    symbol = refl;
    kept = after_symbol;
    others = after_others;
    leaves = tt;
  }

  qty_full :
      ((node b k).qty - exec_qty == 0) ≡ true
      → (j : ℕ) → (j == k) ≡ false
      → (node after j).qty ≡ (node b j).qty
  qty_full full j apart =
      ap (λ x. (node x j).qty) (plain-full full)
      ∙ ap (λ x. x.qty) (at-set_ne (unlink (plain b) (node b k)).nodes k j empty_node apart)
      ∙ ap (λ x. x.qty) (contents-unlink (plain b) (node b k) j)

  -- Every live order still has something left.
  pub execute_head-IsPositive : IsPositive after
  execute_head-IsPositive id j e = elim (Bool-cases ((node b k).qty - exec_qty == 0)) [
    | inl full ↦
        let gone : lookup id after.index
            ≡ (if (node b k).order_id == id then none else lookup id b.index) =
          ap (λ x. lookup id x.index) (plain-full full)
          ∙ lookup-erase (node b k).order_id id b.index in
        elim (Bool-cases ((node b k).order_id == id)) [
          | inl same ↦ cc (rw same at gone)
          | inr apart ↦
              let was : lookup id b.index ≡ some j = sym (rw apart at gone) ∙ e in
              let (mine, _) = v.indexed.found id j was in
              let far : (j == k) ≡ false = ground arith in rw (qty_full full j far) (pos id j was)
        ]
    | inr part ↦
        let was : lookup id b.index ≡ some j =
          sym (ap (λ x. lookup id x.index) (plain-part part)) ∙ e in
        elim (Bool-cases (j == k)) [
          | inl here ↦
              let same : j ≡ k = ground arith in
              let left : (node after k).qty ≡ (node b k).qty - exec_qty =
                ap (λ x. (node x k).qty) (plain-part part)
                ∙ ap (λ x. x.qty)
                    (at-set_self b.nodes k (record (node b k) { qty = (node b k).qty - exec_qty })
                      inside) in
              rw (same, left) (ground arith)
          | inr there ↦
              let kept : (node after j).qty ≡ (node b j).qty =
                ap (λ x. (node x j).qty) (plain-part part)
                ∙ ap (λ x. x.qty)
                    (at-set_ne b.nodes k j (record (node b k) { qty = (node b k).qty - exec_qty })
                      there) in
              rw kept (pos id j was)
        ]
  ]
