-- ===== src/OrderBook/Feeds/Live.antt =====
-- The orders of a book that events take away were in it, and those that come are added.
use exchange_and_feed_handle.Base.{
  ℕ, ◌≡◌, refl, sym, ◌∙◌, true, false, inl, inr, List, [], ◌∷◌, arith, ◌==◌, Bool-cases,
  Option-cases,
}
use exchange_and_feed_handle.Base.Map.{lookup, contains as has_key}
use exchange_and_feed_handle.Types.{MdEvent, MdType}
use exchange_and_feed_handle.OrderBook as Book
use exchange_and_feed_handle.OrderBook.State.{OrderBook, contains}
use exchange_and_feed_handle.OrderBook.Totals.Operations.{apply_to_book, has_event}
use exchange_and_feed_handle.OrderBook.Feeds.{Fed, Feeds, AddsOnly, Leaves, contains-SameOrders}
use exchange_and_feed_handle.BookManager.{takes_away}

pub cancelled_contains :
    (b : OrderBook) (seq id : ℕ)
    → has_event (Book.cancel_order b seq id).1 ≡ true
    → contains b id ≡ true
unfolding contains has_key Book.cancel_order
cancelled_contains b seq id done = elim (Option-cases (lookup id b.index)) [
  | inl p ↦ cc (rw (p, Book.cancel_order) at done)
  | inr (k, p) ↦ rw (p, contains, has_key) refl
]

pub executed_contains :
    (b : OrderBook) (id qty : ℕ) → (Book.feed_execute b id qty).1 ≡ true → contains b id ≡ true
unfolding contains has_key Book.feed_execute
executed_contains b id qty done = elim (Option-cases (lookup id b.index)) [
  | inl p ↦ cc (rw (p, Book.feed_execute) at done)
  | inr (k, p) ↦ rw (p, contains, has_key) refl
]

-- An order that an event takes away, or a part of it, is in the book before it.
pub Fed-live :
    (b : OrderBook) (ev : MdEvent) (c : OrderBook)
    → Fed b ev c
    → takes_away ev.type ≡ true
    → contains b ev.order_id ≡ true
unfolding apply_to_book
Fed-live b ev c f takes = by_type ev.type refl takes
  where
    by_type : (t : MdType) → ev.type ≡ t → takes_away t ≡ true → contains b ev.order_id ≡ true
    by_type MdType.cancel e away =
        cancelled_contains b ev.seq ev.order_id (rw (e, apply_to_book) at f.done)
    by_type MdType.execute e away =
        executed_contains b ev.order_id ev.qty (rw (e, apply_to_book) at f.done)
    by_type MdType.add e away = cc
    by_type MdType.replace e away = cc
    by_type MdType.reject e away = cc
    by_type (MdType.other k) e away = cc

-- An event that takes nothing away leaves its order in the book, and is an `Add`.
pub Fed-added :
    (b : OrderBook) (ev : MdEvent) (c : OrderBook)
    → Fed b ev c
    → takes_away ev.type ≡ false
    → (ev.type ≡ MdType.add) × (contains c ev.order_id ≡ true)
Fed-added b ev c f takes = by_type ev.type refl takes f.leaves
  where
    by_type :
        (t : MdType)
        → ev.type ≡ t
        → takes_away t ≡ false
        → Leaves t (contains c ev.order_id)
        → (ev.type ≡ MdType.add) × (contains c ev.order_id ≡ true)
    by_type MdType.add e away live = (e, live)
    by_type MdType.cancel e away live = cc
    by_type MdType.execute e away live = cc
    by_type MdType.replace e away live = absurd live
    by_type MdType.reject e away live = absurd live
    by_type (MdType.other k) e away live = absurd live

-- An order that is not in the book, and is not the one that the events add, is not in the book behind any of
-- them.
pub Fed-absent :
    (b : OrderBook) (ev : MdEvent) (c : OrderBook) (id j : ℕ)
    → Fed b ev c
    → (ev.type ≡ MdType.add → ev.order_id ≡ id)
    → (j == id) ≡ false
    → contains b j ≡ false
    → (contains c j ≡ false) × ((j == ev.order_id) ≡ false)
Fed-absent b ev c id j f adds far gone = elim (Bool-cases (j == ev.order_id)) [
  | inr apart ↦ (f.others j apart ∙ gone, apart)
  | inl same ↦
      let is_ev : j ≡ ev.order_id = ground arith in
      elim (Bool-cases (takes_away ev.type)) [
        | inl away ↦ let live = Fed-live b ev c f away in cc (sym (rw is_ev at gone) ∙ live)
        | inr kept ↦ let (add, _) = Fed-added b ev c f kept in let is_id = adds add in ground arith
      ]
]

pub Feeds-absent :
    (b : OrderBook) (evs : List MdEvent) (c : OrderBook) (id j : ℕ)
    → Feeds b evs c
    → AddsOnly id evs
    → (j == id) ≡ false
    → contains b j ≡ false
    → contains c j ≡ false
Feeds-absent b [] c id j same adds far gone = sym (contains-SameOrders b c j same) ∙ gone
Feeds-absent b (ev ∷ evs) c id j (m, fed, rest) (add, adds) far gone =
    Feeds-absent m evs c id j rest adds far (Fed-absent b ev m id j fed add far gone).0
