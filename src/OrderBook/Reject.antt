-- ===== src/OrderBook/Reject.antt =====
-- The rejects of `add_order` and `replace_order`.
use exchange_and_feed_handle.Base.{
  ℕ, zero, suc, ◌≡◌, ◌≢◌, ◌∙◌, ◌⊎◌, inl, inr, true, ◌&&◌, some, [], ◌∷◌, arith, ◌==◌, ltb,
  if◌then◌else◌, Bool-cases,
}
use exchange_and_feed_handle.Base.Int.{ℤ}
use exchange_and_feed_handle.Base.Map.{lookup, size}
use exchange_and_feed_handle.Base.Run.{ok, ◌>>=◌, >>=-returns}
use exchange_and_feed_handle.Types.{Side, TimeInForce, MdType, MdEvent, RejectReason}
use exchange_and_feed_handle.OrderBook.State.{OrderBook, MatchOutput, contains, price_in_band, node}
use exchange_and_feed_handle.OrderBook.Nodes.{execute_head, remove_node}
use exchange_and_feed_handle.OrderBook.Nodes.Frame.{SameBand-remove_node, price_in_band-same}
use exchange_and_feed_handle.OrderBook.{
  add_order, replace_order, add_replacement, cancel_order, match_loop, match_round, rest_remainder,
  crosses, empty_output,
}

module _ (seq order_id : ℕ) (side : Side) where
  match_round-reject :
      (b : OrderBook) (out : MatchOutput)
      → (match_round seq order_id side (b, out)).1.reject ≡ out.reject
  unfolding match_round execute_head
  match_round-reject b out = ground arith

  match_loop-reject :
      (fuel : ℕ) (price : ℤ) (b b' : OrderBook) (out out' : MatchOutput)
      → match_loop fuel seq order_id side price (b, out) ≡ ok (b', out')
      → out'.reject ≡ out.reject
  match_loop-reject zero price b b' out out' e = unfold match_loop in cc
  match_loop-reject (suc fuel) price b b' out out' e =
      elim (Bool-cases (ltb 0 out.remaining_qty && crosses b side price)) [
        | inl more ↦
            let m = match_round seq order_id side (b, out) in
            match_loop-reject fuel price m.0 b' m.1 out'
              (unfold match_loop in rw (more, match_loop) at e)
            ∙ match_round-reject b out
        | inr done ↦ unfold match_loop in ground arith
      ]

rest_remainder-reject :
    (seq order_id account_id : ℕ) (side : Side) (price : ℤ) (tif : TimeInForce) (b : OrderBook)
    (mid : MatchOutput) (b' : OrderBook) (out : MatchOutput)
    → ok (rest_remainder seq order_id account_id side price tif (b, mid)) ≡ ok (b', out)
    → out.reject ≡ mid.reject
unfolding rest_remainder
rest_remainder-reject seq order_id account_id side price tif b mid b' out e = ground arith

-- A rejected `add_order` leaves no trace: the book is as it was, and there is no event and no trade.
pub add_order_rejected :
    (b b' : OrderBook) (seq order_id account_id : ℕ) (side : Side) (price : ℤ) (qty : ℕ)
    (tif : TimeInForce) (out : MatchOutput)
    → add_order b seq order_id account_id side price qty tif ≡ ok (b', out)
    → out.reject ≢ RejectReason.none
    → (b' ≡ b) × (out.md_events ≡ []) × (out.trades ≡ [])
unfolding add_order
add_order_rejected b b' seq order_id account_id side price qty tif out e h =
    elim (Bool-cases (qty == 0)) [
      | inl p ↦ ground arith
      | inr p ↦ elim (Bool-cases (price_in_band b price)) [
        | inr q ↦ ground arith
        | inl q ↦ elim (Bool-cases (contains b order_id)) [
          | inl r ↦ ground arith
          | inr r ↦ absurd (h (matched (rw (p, q, r, add_order) at e)))
        ]
      ]
    ]
  where
    matched :
        (match_loop
              (suc (size b.index))
              seq
              order_id
              side
              price
              (b, record empty_output { remaining_qty = qty })
            >>= λ m. ok (rest_remainder seq order_id account_id side price tif m))
          ≡ ok (b', out)
        → out.reject ≡ RejectReason.none
    matched q =
        let ((c, mid), rested, found) = >>=-returns _ _ _ q in
        rest_remainder-reject seq order_id account_id side price tif c mid b' out rested
        ∙ match_loop-reject seq order_id side _ price b c _ mid found

cancel_order_live :
    (b : OrderBook) (seq order_id idx : ℕ)
    → lookup order_id b.index ≡ some idx
    → cancel_order b seq order_id ≡ (
      (remove_node b seq idx (node b idx).qty MdType.cancel).0,
      some (remove_node b seq idx (node b idx).qty MdType.cancel).1,
    )
unfolding cancel_order
cancel_order_live b seq order_id idx e = rw (e, cancel_order)

add_order_refused :
    (b : OrderBook) (seq order_id account_id : ℕ) (side : Side) (price : ℤ) (qty : ℕ)
    (tif : TimeInForce)
    → price_in_band b price ≡ true
    → (qty ≡ 0) ⊎ (contains b order_id ≡ true)
    → add_order b seq order_id account_id side price qty tif
      ≡ ok (
        b,
        record empty_output {
          remaining_qty = qty;
          reject = (if qty == 0 then RejectReason.invalid_qty else RejectReason.duplicate_order);
        },
      )
unfolding add_order
add_order_refused b seq order_id account_id side price qty tif band h = ground arith

add_replacement_refused :
    (b : OrderBook) (seq new_id account_id : ℕ) (side : Side) (price : ℤ) (qty : ℕ)
    (tif : TimeInForce) (old : MdEvent)
    → price_in_band b price ≡ true
    → (qty ≡ 0) ⊎ (contains b new_id ≡ true)
    → add_replacement seq new_id account_id side price qty tif (b, some old)
      ≡ ok (
        b,
        record {
          md_events = old ∷ [];
          trades = [];
          remaining_qty = qty;
          reject = (if qty == 0 then RejectReason.invalid_qty else RejectReason.duplicate_order);
        },
      )
unfolding add_replacement
add_replacement_refused b seq new_id account_id side price qty tif old band h =
    rw (add_order_refused b seq new_id account_id side price qty tif band h)

-- A `replace_order` whose new order is refused has already removed the old one. When the old order is
-- live and the price in band, but the new quantity is 0, or the new id is live once the old order is
-- gone: the result has the reject reason, the book without the old order, and the event of the cancel.
pub replace_order_rejected :
    (b : OrderBook) (seq old_id new_id account_id idx : ℕ) (side : Side) (price : ℤ) (qty : ℕ)
    (tif : TimeInForce)
    → lookup old_id b.index ≡ some idx
    → price_in_band b price ≡ true
    → (qty ≡ 0) ⊎ (contains (cancel_order b seq old_id).0 new_id ≡ true)
    → replace_order b seq old_id new_id account_id side price qty tif
      ≡ ok (
        (cancel_order b seq old_id).0,
        record {
          md_events = (remove_node b seq idx (node b idx).qty MdType.cancel).1 ∷ [];
          trades = [];
          remaining_qty = qty;
          reject = (if qty == 0 then RejectReason.invalid_qty else RejectReason.duplicate_order);
        },
      )
unfolding replace_order
replace_order_rejected b seq old_id new_id account_id idx side price qty tif e band h =
    let b' = (remove_node b seq idx (node b idx).qty MdType.cancel).0 in
    let cancelled = cancel_order_live b seq old_id idx e in
    let still : price_in_band b' price ≡ true =
      price_in_band-same price (SameBand-remove_node b seq idx _ _) ∙ band in
    rw (band, cancelled)
      (add_replacement_refused b' seq new_id account_id side price qty tif _ still
        (rw cancelled at h))
