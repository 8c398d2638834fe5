-- ===== src/OrderBook/Feeds/Replace.antt =====
-- The events of a cancel and of a replace lead to the book behind them.
use exchange_and_feed_handle.Base.{
  ℕ, ◌<◌, ◌≡◌, refl, sym, ap, ◌∙◌, true, false, inl, inr, Option, none, some, [], arith, ◌==◌,
  length, Bool-cases, Option-cases, ==_refl,
}
use mathlib.Core.Path.{subst}
use exchange_and_feed_handle.Base.Int.{ℤ}
use exchange_and_feed_handle.Base.Map.{lookup, lookup-erase, contains-erase}
use exchange_and_feed_handle.Base.Run.{ok, >>=-returns}
use exchange_and_feed_handle.Types.{Side, MdEvent, MdType, TimeInForce, RejectReason}
use exchange_and_feed_handle.OrderBook.State.{
  OrderBook, MatchOutput, null, node, price_in_band, contains,
}
use exchange_and_feed_handle.OrderBook.Nodes.{remove_node}
use exchange_and_feed_handle.OrderBook.Nodes.Frame.{SameBand-remove_node}
use exchange_and_feed_handle.OrderBook.{
  cancel_order, replace_order, add_replacement, empty_output, replaced,
}
use exchange_and_feed_handle.OrderBook.Invariant.Operations.{IsSound, cancel_order-IsSound}
use exchange_and_feed_handle.OrderBook.Invariant.Match.{remove_node-parts}
use exchange_and_feed_handle.OrderBook.Invariant.AddOrder.{contains_of_absent}
use exchange_and_feed_handle.OrderBook.Invariant.Settled.{removed_other}
use exchange_and_feed_handle.OrderBook.Totals.{plain}
use exchange_and_feed_handle.OrderBook.Totals.Operations.{apply_to_book}
use exchange_and_feed_handle.OrderBook.Feeds.{Fed, IsPositive}
use exchange_and_feed_handle.OrderBook.Feeds.Live.{Feeds-absent}
use exchange_and_feed_handle.OrderBook.Feeds.Commands.{Leads, Leads-refl, add_order-Leads}

-- What a cancel of `id` gives: nothing and the same book, which does not have the order, or its event, which leads to the book behind it.
abbrev pub CancelLeads : (b : OrderBook) → ℕ → OrderBook × Option MdEvent → Type 0
CancelLeads b id (c, none) = (b ≡ c) × (contains b id ≡ false)
CancelLeads b id (c, some ev) =
    Fed b ev c × IsPositive c × (ev.type ≡ MdType.cancel) × (ev.order_id ≡ id)

removed-IsPositive :
    (b : OrderBook) (s : IsSound b) (seq id k : ℕ)
    → IsPositive b
    → lookup id b.index ≡ some k
    → IsPositive (remove_node b seq k (node b k).qty MdType.cancel).0
removed-IsPositive b s seq id k pos p x j e =
    let (same, _) = s.book.indexed.found id k p in
    let (index, _) = remove_node-parts b seq k (node b k).qty MdType.cancel in
    let read = ap (λ m. lookup x m) index ∙ lookup-erase (node b k).order_id x b.index in
    elim (Bool-cases ((node b k).order_id == x)) [
      | inl mine ↦ cc (rw mine at read)
      | inr other ↦
          let was : lookup x b.index ≡ some j = sym (rw other at read) ∙ e in
          let (theirs, _) = s.book.indexed.found x j was in
          let far : (j == k) ≡ false = ground arith in
          rw (ap (λ n. n.qty) (removed_other b k (node b k).qty seq j MdType.cancel far))
            (pos x j was)
    ]

-- The event of a cancel.
abbrev cancel_event : OrderBook → ℕ → ℕ → MdEvent
cancel_event b seq k = record {
  seq = seq;
  type = MdType.cancel;
  symbol_id = b.symbol_id;
  order_id = (node b k).order_id;
  new_order_id = 0;
  account_id = (node b k).account_id;
  side = (node b k).side;
  price = (node b k).price;
  qty = (node b k).qty;
  reason = RejectReason.none;
}

remove_node-event :
    (b : OrderBook) (seq k : ℕ)
    → (remove_node b seq k (node b k).qty MdType.cancel).1 ≡ cancel_event b seq k
unfolding remove_node
remove_node-event b seq k = refl

removed_applied :
    (b : OrderBook) (seq id k : ℕ)
    → lookup id b.index ≡ some k
    → (node b k).order_id ≡ id
    → apply_to_book b (cancel_event b seq k)
      ≡ ((remove_node b seq k (node b k).qty MdType.cancel).0, true)
unfolding apply_to_book cancel_order
removed_applied b seq id k p same = rw (same, p, apply_to_book, cancel_order) refl

removed_Fed :
    (b : OrderBook) (s : IsSound b) (seq id k : ℕ)
    → lookup id b.index ≡ some k
    → Fed b (cancel_event b seq k) (remove_node b seq k (node b k).qty MdType.cancel).0
unfolding contains
removed_Fed b s seq id k p =
    let (same, _) = s.book.indexed.found id k p in
    let (index, _) = remove_node-parts b seq k (node b k).qty MdType.cancel in
    let applied = removed_applied b seq id k p same in
    record {
      done = ap (λ r. r.1) applied;
      same = ap (λ r. plain r.0) applied;
      symbol = refl;
      kept = (SameBand-remove_node b seq k (node b k).qty MdType.cancel).symbol;
      others = λ j apart. rw (index, contains-erase (node b k).order_id j b.index) (ground arith);
      leaves =
          rw
            (
              index,
              contains-erase (node b k).order_id (node b k).order_id b.index,
              ==_refl (node b k).order_id,
            )
            refl;
    }

pub cancel_order-Leads :
    (b : OrderBook) (seq id : ℕ)
    → IsSound b
    → IsPositive b
    → CancelLeads b id (cancel_order b seq id)
unfolding cancel_order
cancel_order-Leads b seq id s pos = elim (Option-cases (lookup id b.index)) [
  | inl p ↦ rw (p, cancel_order) (refl, contains_of_absent b id p)
  | inr (k, p) ↦
      rw (p, cancel_order, remove_node-event b seq k)
        (
          removed_Fed b s seq id k p,
          removed-IsPositive b s seq id k pos p,
          refl,
          (s.book.indexed.found id k p).0,
        )
]

length-cancel_order :
    (b : OrderBook) (seq id : ℕ) → length (cancel_order b seq id).0.nodes ≡ length b.nodes
unfolding cancel_order
length-cancel_order b seq id = elim (Option-cases (lookup id b.index)) [
  | inl p ↦ rw (p, cancel_order) refl
  | inr (k, p) ↦ rw (p, cancel_order) (remove_node-parts b seq k (node b k).qty MdType.cancel).1
]

-- The events of a replace lead to the book behind it; and behind an accepted one the old order is live only
-- if it is the new one.
abbrev pub Replaces : OrderBook → ℕ → ℕ → OrderBook → MatchOutput → Type 0
Replaces b old_id new_id c out =
    Leads b new_id c out
    × (out.reject ≡ RejectReason.none → contains c old_id ≡ true → old_id ≡ new_id)

Replaces-refl :
    (b : OrderBook) (old_id new_id : ℕ) (out : MatchOutput)
    → IsPositive b
    → out.md_events ≡ []
    → ((out.reject ≡ RejectReason.none) → ⊥)
    → Replaces b old_id new_id b out
Replaces-refl b old_id new_id out pos e refused =
    (Leads-refl b new_id out pos e, λ accepted live. absurd (refused accepted))

-- On a sound book with room, where every live order has something left: the events of `replace_order`,
-- whatever it answers, lead to the book behind it.
pub replace_order-Leads :
    (b : OrderBook) (seq old_id new_id account : ℕ) (side : Side) (price : ℤ) (qty : ℕ)
    (tif : TimeInForce) (c : OrderBook) (out : MatchOutput)
    → IsSound b
    → IsPositive b
    → length b.nodes < null
    → replace_order b seq old_id new_id account side price qty tif ≡ ok (c, out)
    → Replaces b old_id new_id c out
unfolding replace_order add_replacement
replace_order-Leads b seq old_id new_id account side price qty tif c out s pos room e =
    elim (Bool-cases (price_in_band b price)) [
      | inr outside ↦
          let run = rw (outside, replace_order) at e in
          let same : ◌≡◌ {A = OrderBook × MatchOutput}
              (b, record empty_output { reject = RejectReason.invalid_price }) (c, out) =
            cc in
          subst (λ (r : OrderBook × MatchOutput). Replaces b old_id new_id r.0 r.1) same
            (Replaces-refl b old_id new_id _ pos refl (λ accepted. cc))
      | inl inside ↦
          let d = (cancel_order b seq old_id).0 in
          let (sound, _) = cancel_order-IsSound b seq old_id s in
          let size = length-cancel_order b seq old_id in
          behind (cancel_order b seq old_id).1 d (cancel_order-Leads b seq old_id s pos) sound
            (omega (arith, size)) (rw (inside, replace_order) at e)
    ]
  where
    behind :
        (old : Option MdEvent) (d : OrderBook)
        → CancelLeads b old_id (d, old)
        → IsSound d
        → length d.nodes < null
        → add_replacement seq new_id account side price qty tif (d, old) ≡ ok (c, out)
        → Replaces b old_id new_id c out
    behind none d (same, _) sound less run =
        let book : b ≡ c = same ∙ cc in
        let sent : record empty_output { reject = RejectReason.unknown_order } ≡ out = cc in
        subst (λ x. Replaces b old_id new_id x out) book
          (Replaces-refl b old_id new_id out pos (ap (λ o. o.md_events) (sym sent))
            (λ accepted. cc (ap (λ o. o.reject) sent ∙ accepted)))
    behind (some old) d (fed, positive, type, named) sound less run =
        let ((d', added), run', found) = >>=-returns _ _ _ run in
        let lead =
          add_order-Leads d seq new_id account side price qty tif d' added sound positive less
            found in
        let same : ◌≡◌ {A = OrderBook × MatchOutput} (d', replaced old added) (c, out) = cc in
        let clash : contains d' old_id ≡ true → contains d' old_id ≡ false → old_id ≡ new_id =
          λ x y. cc in
        let gone : contains d old_id ≡ false = rw (type, named) at fed.leaves in
        subst (λ (r : OrderBook × MatchOutput). Replaces b old_id new_id r.0 r.1) same
          (
            record {
              feeds = (d, fed, lead.feeds);
              adds = ((λ e. cc (sym type ∙ e)), lead.adds);
              positive = lead.positive;
            },
            λ accepted live. elim (Bool-cases (old_id == new_id)) [
              | inl mine ↦ ground arith
              | inr far ↦
                  let absent =
                    Feeds-absent d added.md_events d' new_id old_id lead.feeds lead.adds far gone in
                  clash live absent
            ],
          )
