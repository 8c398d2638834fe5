-- ===== src/OrderBook/Invariant/Settled.antt =====
-- The operations of the book on a settled book.
use exchange_and_feed_handle.Base.{
  ℕ, ◌+◌, ◌≤◌, ◌<◌, ◌≡◌, refl, sym, ap, ◌∙◌, false, inl, inr, Option, none, some, arith, ◌==◌,
  if◌then◌else◌, length, Bool-cases, Option-cases, ==_refl, get_or-set,
}
use exchange_and_feed_handle.Base.Int.{ℤ}
use exchange_and_feed_handle.Base.Map.{lookup, lookup-erase}
use exchange_and_feed_handle.Base.Run.{ok}
use exchange_and_feed_handle.Types.{Side, MdType, MdEvent, TimeInForce, RejectReason}
use exchange_and_feed_handle.OrderBook.State.{
  OrderBook, MatchOutput, null, node, empty_node, find, price_in_band, contains,
}
use exchange_and_feed_handle.OrderBook.Nodes.{remove_node, unlink}
use exchange_and_feed_handle.OrderBook.{
  add_order, cancel_order, replace_order, add_replacement, replaced, empty_output,
}
use exchange_and_feed_handle.OrderBook.Queues.{Shrinks-IsUncrossed}
use exchange_and_feed_handle.OrderBook.Invariant.Unlink.{contents, contents-unlink}
use exchange_and_feed_handle.OrderBook.Invariant.Remove.{remove_node-eq}
use exchange_and_feed_handle.OrderBook.Invariant.Match.{remove_node-parts}
use exchange_and_feed_handle.OrderBook.Invariant.Operations.{remove_live}
use exchange_and_feed_handle.OrderBook.Invariant.AddOrder.{IsSettled, add_order-IsFilled}

abbrev rejected : ℕ → RejectReason → MatchOutput
rejected qty reject = record empty_output { remaining_qty = qty; reject = reject }

-- On a settled book with fewer nodes than `null`, `add_order` returns, whatever the order is, and the
-- book is settled again, with at most one node more.
pub add_order-IsSettled :
    (b : OrderBook) (seq id account : ℕ) (side : Side) (price : ℤ) (qty : ℕ) (tif : TimeInForce)
    → IsSettled b
    → length b.nodes < null
    → (c : OrderBook) × (out : MatchOutput) × (add_order b seq id account side price qty tif
        ≡ ok (c, out))
      × IsSettled c
      × (length c.nodes ≤ length b.nodes + 1)
unfolding add_order
add_order-IsSettled b seq id account side price qty tif s room = elim (Bool-cases (qty == 0)) [
  | inl nil ↦ (b, rejected qty RejectReason.invalid_qty, rw (nil, add_order) refl, s, omega arith)
  | inr asked ↦ elim (Bool-cases (price_in_band b price)) [
    | inr out ↦ (
      b,
      rejected qty RejectReason.invalid_price,
      rw (asked, out, add_order) refl,
      s,
      omega arith,
    )
    | inl inside ↦ elim (Bool-cases (contains b id)) [
      | inl dup ↦ (
        b,
        rejected qty RejectReason.duplicate_order,
        rw (asked, inside, dup, add_order) refl,
        s,
        omega arith,
      )
      | inr fresh ↦
          let (c, out, ran, w) =
            add_order-IsFilled b seq id account side price qty tif s room (ground arith) inside
              fresh in
          (c, out, ran, w.settled, w.pool)
    ]
  ]
]

-- The node of another order is as it was.
pub removed_other :
    (b : OrderBook) (k removed seq j : ℕ) (type : MdType)
    → (j == k) ≡ false
    → contents (node (remove_node b seq k removed type).0 j) ≡ contents (node b j)
removed_other b k removed seq j type apart =
    let e = get_or-set (unlink b (node b k)).nodes k j empty_node empty_node in
    rw (remove_node-eq b seq k removed type, e) (ground (arith, contents-unlink b (node b k) j))

find_of_contents :
    (b c : OrderBook) (id k : ℕ)
    → lookup id b.index ≡ some k
    → lookup id c.index ≡ some k
    → contents (node c k) ≡ contents (node b k)
    → find c id ≡ find b id
unfolding find
find_of_contents b c id k e f same = rw (e, f, find) (ground arith)

-- The index, when the node `k` of `id` is removed.
removed_index :
    (b : OrderBook) (s : IsSettled b) (k id seq : ℕ)
    → lookup id b.index ≡ some k
    → (j : ℕ)
    → lookup j (remove_node b seq k (node b k).qty MdType.cancel).0.index
      ≡ (if id == j then none else lookup j b.index)
removed_index b s k id seq p j =
    let (same, _) = s.sound.book.indexed.found id k p in
    let (index, _) = remove_node-parts b seq k (node b k).qty MdType.cancel in
    rw (index, same) (lookup-erase id j b.index)

-- Another order is found as it was, when the node `k` of `id` is removed.
removed_find :
    (b : OrderBook) (s : IsSettled b) (k id seq other : ℕ)
    → (node b k).order_id ≡ id
    → ((j : ℕ)
        → lookup j (remove_node b seq k (node b k).qty MdType.cancel).0.index
          ≡ (if id == j then none else lookup j b.index))
    → (other == id) ≡ false
    → find (remove_node b seq k (node b k).qty MdType.cancel).0 other ≡ find b other
unfolding find
removed_find b s k id seq other same gone apart =
    let c = (remove_node b seq k (node b k).qty MdType.cancel).0 in
    let apart' : (id == other) ≡ false = ground arith in
    let e : lookup other c.index ≡ lookup other b.index = rw (gone other, apart') refl in
    elim (Option-cases (lookup other b.index)) [
      | inl p ↦ rw (e, p, find) refl
      | inr (j, p) ↦
          let (mine, _) = s.sound.book.indexed.found other j p in
          let far : (j == k) ≡ false = elim (Bool-cases (j == k)) [
            | inr a ↦ a
            | inl h ↦
                let at_k : j ≡ k = ground arith in
                let clash : id ≡ other =
                  sym same ∙ ap (λ x. (node b x).order_id) (sym at_k) ∙ mine in
                absurd (ground arith)
          ] in
          find_of_contents b c other j p (e ∙ p)
            (removed_other b k (node b k).qty seq j MdType.cancel far)
    ]

-- A cancel of any id on a settled book leaves a settled book with as many nodes, in which the id is
-- not found.
pub cancel_order-IsSettled :
    (b : OrderBook) (seq id : ℕ)
    → IsSettled b
    → IsSettled (cancel_order b seq id).0
      × (length (cancel_order b seq id).0.nodes ≡ length b.nodes)
      × (find (cancel_order b seq id).0 id ≡ none)
unfolding cancel_order find
cancel_order-IsSettled b seq id s = elim (Option-cases (lookup id b.index)) [
  | inl p ↦ rw (p, cancel_order) (s, refl, rw (p, find) refl)
  | inr (k, p) ↦
      let (w, fewer) = remove_live b seq id k (node b k).qty MdType.cancel s.sound p in
      rw (p, cancel_order)
        (
          record {
            sound = w;
            uncrossed = Shrinks-IsUncrossed s.sound.queues w.queues fewer s.uncrossed;
          },
          (remove_node-parts b seq k (node b k).qty MdType.cancel).1,
          rw (removed_index b s k id seq p id, ==_refl id, find) refl,
        )
]

-- A cancel on a settled book leaves every other order as it was found.
find-cancel_order :
    (b : OrderBook) (seq id other : ℕ)
    → IsSettled b
    → (other == id) ≡ false
    → find (cancel_order b seq id).0 other ≡ find b other
unfolding cancel_order
find-cancel_order b seq id other s apart = elim (Option-cases (lookup id b.index)) [
  | inl p ↦ rw (p, cancel_order) refl
  | inr (k, p) ↦
      rw (p, cancel_order)
        (removed_find b s k id seq other (s.sound.book.indexed.found id k p).0
          (removed_index b s k id seq p) apart)
]

-- On a settled book with fewer nodes than `null`, `replace_order` returns, whatever its arguments are,
-- and the book is settled again, with at most one node more.
pub replace_order-IsSettled :
    (b : OrderBook) (seq old_id new_id account : ℕ) (side : Side) (price : ℤ) (qty : ℕ)
    (tif : TimeInForce)
    → IsSettled b
    → length b.nodes < null
    → (c : OrderBook) × (out : MatchOutput) × (replace_order b seq old_id new_id account side price
          qty tif
        ≡ ok (c, out))
      × IsSettled c
      × (length c.nodes ≤ length b.nodes + 1)
unfolding replace_order add_replacement
replace_order-IsSettled b seq old_id new_id account side price qty tif s room =
    elim (Bool-cases (price_in_band b price)) [
      | inr out ↦ (
        b,
        record empty_output { reject = RejectReason.invalid_price },
        rw (out, replace_order) refl,
        s,
        omega arith,
      )
      | inl inside ↦
          let (w, same, _) = cancel_order-IsSettled b seq old_id s in
          let (c, out, ran, w', pool) =
            replacement (cancel_order b seq old_id).1 (cancel_order b seq old_id).0 w
              (omega (arith, same)) in
          (c, out, rw (inside, replace_order) ran, w', omega (arith, same, pool))
    ]
  where
    replacement :
        (old : Option MdEvent) (d : OrderBook)
        → IsSettled d
        → length d.nodes < null
        → (c : OrderBook) × (out : MatchOutput) × (add_replacement seq new_id account side price qty
              tif
              (d, old)
            ≡ ok (c, out))
          × IsSettled c
          × (length c.nodes ≤ length d.nodes + 1)
    replacement none d w less =
        (d, record empty_output { reject = RejectReason.unknown_order }, refl, w, omega arith)
    replacement (some old) d w less =
        let (c, out, ran, w', pool) =
          add_order-IsSettled d seq new_id account side price qty tif w less in
        (c, replaced old out, rw ran refl, w', pool)
