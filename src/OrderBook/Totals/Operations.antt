-- ===== src/OrderBook/Totals/Operations.antt =====
-- The operations of the feed on books that agree but for their totals.
use exchange_and_feed_handle.Base.{
  ℕ, ◌-◌, ◌≡◌, refl, sym, ap, ◌∙◌, Bool, true, false, not, ◌||◌, inl, inr, Option, none, some, List,
  [], ◌∷◌, ◌==◌, leb, Bool-cases, Option-cases,
}
use exchange_and_feed_handle.Base.Int.{ℤ}
use exchange_and_feed_handle.Base.Map.{lookup}
use exchange_and_feed_handle.Types.{Side, MdType, MdEvent}
use exchange_and_feed_handle.OrderBook.State.{
  OrderBook, Level, node, contains, price_in_band, price_to_index, level_for, put_node,
}
use exchange_and_feed_handle.OrderBook.Nodes.{alloc_node, append_to_level, remove_node}
use exchange_and_feed_handle.OrderBook.{
  rest_order, feed_add, feed_execute, execute_node, cancel_order,
}
use exchange_and_feed_handle.OrderBook.Invariant.Reduce.{reduced_book}
use exchange_and_feed_handle.OrderBook.Totals.{
  plain_level, plain_levels, plain, SameOrders, plainly_removed, plain-remove_node,
  plainly_appended, plain-append_to_level, plain-put_total,
}

plain_levels_twice : (ls : List Level) → plain_levels (plain_levels ls) ≡ plain_levels ls
plain_levels_twice [] = refl
plain_levels_twice (l ∷ ls) = ap (λ r. plain_level l ∷ r) (plain_levels_twice ls)

pub plain_twice : (b : OrderBook) → plain (plain b) ≡ plain b
plain_twice b = rw (plain_levels_twice b.bids.levels, plain_levels_twice b.asks.levels) refl

pub remove_node-SameOrders :
    (b c : OrderBook) (seq seq' k removed removed' : ℕ) (type type' : MdType)
    → SameOrders b c
    → SameOrders (remove_node b seq k removed type).0 (remove_node c seq' k removed' type').0
remove_node-SameOrders b c seq seq' k removed removed' type type' s =
    plain-remove_node b seq k removed type
    ∙ ap (λ x. plainly_removed x k) s
    ∙ sym (plain-remove_node c seq' k removed' type')

append_to_level-SameOrders :
    (b c : OrderBook) (k : ℕ)
    → SameOrders b c
    → SameOrders (append_to_level b k) (append_to_level c k)
append_to_level-SameOrders b c k s =
    plain-append_to_level b k ∙ ap (λ x. plainly_appended x k) s ∙ sym (plain-append_to_level c k)

alloc_node-plain :
    (b : OrderBook) (id account : ℕ) (side : Side) (price : ℤ) (qty : ℕ)
    → alloc_node (plain b) id account side price qty ≡ (
      plain (alloc_node b id account side price qty).0,
      (alloc_node b id account side price qty).1,
    )
unfolding alloc_node price_to_index
alloc_node-plain b id account side price qty = by_free b.free refl
  where
    by_free :
        (free : List ℕ)
        → b.free ≡ free
        → alloc_node (plain b) id account side price qty ≡ (
          plain (alloc_node b id account side price qty).0,
          (alloc_node b id account side price qty).1,
        )
    by_free [] e = rw (e, alloc_node) refl
    by_free (k ∷ r) e = rw (e, alloc_node) refl

rest_order-plain :
    (b : OrderBook) (id account : ℕ) (side : Side) (price : ℤ) (qty : ℕ)
    → SameOrders
        (rest_order (plain b) id account side price qty)
        (rest_order b id account side price qty)
unfolding rest_order
rest_order-plain b id account side price qty =
    let (c, k) = alloc_node b id account side price qty in
    rw (alloc_node-plain b id account side price qty)
      (append_to_level-SameOrders (plain c) c k (plain_twice c))

-- A partial execution changes the quantity of its node only.
pub plain-reduced_book :
    (b : OrderBook) (side : Side) (i k qty total : ℕ)
    → plain (reduced_book b side i k qty total)
      ≡ put_node (plain b) k (record (node b k) { qty = qty })
unfolding level_for
plain-reduced_book b side i k qty total =
    plain-put_total (put_node b k (record (node b k) { qty = qty })) side i total

feed_add-plain :
    (b : OrderBook) (id account : ℕ) (side : Side) (price : ℤ) (qty : ℕ)
    → SameOrders
        (feed_add (plain b) id account side price qty).0
        (feed_add b id account side price qty).0
      × ((feed_add (plain b) id account side price qty).1
          ≡ (feed_add b id account side price qty).1)
unfolding feed_add contains price_in_band
feed_add-plain b id account side price qty =
    elim (Bool-cases (contains b id || qty == 0 || not (price_in_band b price))) [
      | inl refused ↦ rw (refused, feed_add) (plain_twice b, refl)
      | inr good ↦ rw (good, feed_add) (rest_order-plain b id account side price qty, refl)
    ]

execute_node-plain :
    (b : OrderBook) (k qty : ℕ) → SameOrders (execute_node (plain b) k qty) (execute_node b k qty)
unfolding execute_node
execute_node-plain b k qty = elim (Bool-cases (leb (node b k).qty qty)) [
  | inl all ↦
      rw (all, execute_node) (remove_node-SameOrders (plain b) b 0 0 k _ _ _ _ (plain_twice b))
  | inr part ↦
      let n = node b k in
      rw (part, execute_node)
        (plain-reduced_book (plain b) n.side n.level_idx k (n.qty - qty) _
          ∙ ap (λ x. put_node x k (record n { qty = n.qty - qty })) (plain_twice b)
          ∙ sym (plain-reduced_book b n.side n.level_idx k (n.qty - qty) _))
]

feed_execute-plain :
    (b : OrderBook) (id qty : ℕ)
    → SameOrders (feed_execute (plain b) id qty).0 (feed_execute b id qty).0
      × ((feed_execute (plain b) id qty).1 ≡ (feed_execute b id qty).1)
unfolding feed_execute
feed_execute-plain b id qty = elim (Option-cases (lookup id b.index)) [
  | inl p ↦ rw (p, feed_execute) (plain_twice b, refl)
  | inr (k, p) ↦ elim (Bool-cases (qty == 0)) [
    | inl nil ↦ rw (p, nil, feed_execute) (plain_twice b, refl)
    | inr some_qty ↦ rw (p, some_qty, feed_execute) (execute_node-plain b k qty, refl)
  ]
]

-- A cancel without its event's fields.
abbrev pub has_event {ℓ} : {A : Type ℓ} → Option A → Bool
has_event none = false
has_event (some _) = true

cancel_order-plain :
    (b : OrderBook) (seq id : ℕ)
    → SameOrders (cancel_order (plain b) seq id).0 (cancel_order b seq id).0
      × (has_event (cancel_order (plain b) seq id).1 ≡ has_event (cancel_order b seq id).1)
unfolding cancel_order
cancel_order-plain b seq id = elim (Option-cases (lookup id b.index)) [
  | inl p ↦ rw (p, cancel_order) (plain_twice b, refl)
  | inr (k, p) ↦
      rw (p, cancel_order)
        (
          remove_node-SameOrders (plain b) b seq seq k _ _ MdType.cancel MdType.cancel
              (plain_twice b),
          refl,
        )
]

-- What an event of the feed does to a book: `apply_event`, on the book of the event's symbol.
unfoldable pub apply_to_book : OrderBook → MdEvent → OrderBook × Bool
apply_to_book b ev = elim ev.type [
  | MdType.add ↦ feed_add b ev.order_id ev.account_id ev.side ev.price ev.qty
  | MdType.cancel ↦
      ((cancel_order b ev.seq ev.order_id).0, has_event (cancel_order b ev.seq ev.order_id).1)
  | MdType.execute ↦ feed_execute b ev.order_id ev.qty
  | _ ↦ (b, true)
]

apply_to_book-plain :
    (b : OrderBook) (ev : MdEvent)
    → SameOrders (apply_to_book (plain b) ev).0 (apply_to_book b ev).0
      × ((apply_to_book (plain b) ev).1 ≡ (apply_to_book b ev).1)
unfolding apply_to_book
apply_to_book-plain b ev = by_type ev.type refl
  where
    by_type :
        (t : MdType)
        → ev.type ≡ t
        → SameOrders (apply_to_book (plain b) ev).0 (apply_to_book b ev).0
          × ((apply_to_book (plain b) ev).1 ≡ (apply_to_book b ev).1)
    by_type MdType.add e =
        rw (e, apply_to_book) (feed_add-plain b ev.order_id ev.account_id ev.side ev.price ev.qty)
    by_type MdType.cancel e = rw (e, apply_to_book) (cancel_order-plain b ev.seq ev.order_id)
    by_type MdType.execute e = rw (e, apply_to_book) (feed_execute-plain b ev.order_id ev.qty)
    by_type MdType.replace e = rw (e, apply_to_book) (plain_twice b, refl)
    by_type MdType.reject e = rw (e, apply_to_book) (plain_twice b, refl)
    by_type (MdType.other n) e = rw (e, apply_to_book) (plain_twice b, refl)

-- An event does the same to books that agree but for their totals.
pub apply_to_book-SameOrders :
    (b c : OrderBook) (ev : MdEvent)
    → SameOrders b c
    → SameOrders (apply_to_book b ev).0 (apply_to_book c ev).0
      × ((apply_to_book b ev).1 ≡ (apply_to_book c ev).1)
apply_to_book-SameOrders b c ev s =
    let (p, x) = apply_to_book-plain b ev in
    let (q, y) = apply_to_book-plain c ev in
    (
      sym p ∙ ap (λ d. plain (apply_to_book d ev).0) s ∙ q,
      sym x ∙ ap (λ d. (apply_to_book d ev).1) s ∙ y,
    )
