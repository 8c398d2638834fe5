-- ===== src/Exchange/Mirror.antt =====
-- The numbers that the exchange gives to events are nothing to a subscriber's books.
pub mod Commands
pub mod Frames
pub mod Process
pub mod Session
use exchange_and_feed_handle.Base.{
  ℕ, ◌≡◌, refl, sym, ap, ◌∙◌, Bool, true, false, inl, inr, none, some, List, [], ◌∷◌, Option-cases,
}
use exchange_and_feed_handle.Base.Map.{lookup}
use exchange_and_feed_handle.Types.{MdEvent, MdType}
use exchange_and_feed_handle.OrderBook as Book
use exchange_and_feed_handle.OrderBook.State.{OrderBook, node}
use exchange_and_feed_handle.OrderBook.Nodes.{remove_node}
use exchange_and_feed_handle.OrderBook.Totals.{plain}
use exchange_and_feed_handle.OrderBook.Totals.Operations.{apply_to_book, has_event}
use exchange_and_feed_handle.OrderBook.Feeds.{Fed, Feeds, AddsOnly}
use exchange_and_feed_handle.BookManager.{BookManager, book_at}
use exchange_and_feed_handle.BookManager.Agreement.Behind.{Moves}
use exchange_and_feed_handle.Exchange.{number_events, bump}

cancel_order_seq :
    (b : OrderBook) (seq seq' id : ℕ)
    → ◌≡◌ {A = OrderBook × Bool}
        ((Book.cancel_order b seq id).0, has_event (Book.cancel_order b seq id).1)
        ((Book.cancel_order b seq' id).0, has_event (Book.cancel_order b seq' id).1)
unfolding Book.cancel_order remove_node
cancel_order_seq b seq seq' id = elim (Option-cases (lookup id b.index)) [
  | inl p ↦ rw (p, Book.cancel_order) refl
  | inr (k, p) ↦ rw (p, Book.cancel_order, remove_node) refl
]

-- The number of an event is nothing to a book.
apply_to_book_seq :
    (b : OrderBook) (ev : MdEvent) (k : ℕ)
    → apply_to_book b (record ev { seq = k }) ≡ apply_to_book b ev
unfolding apply_to_book
apply_to_book_seq b ev k = by_type ev.type refl
  where
    by_type :
        (t : MdType) → ev.type ≡ t → apply_to_book b (record ev { seq = k }) ≡ apply_to_book b ev
    by_type MdType.add e = rw (e, apply_to_book) refl
    by_type MdType.cancel e = rw (e, apply_to_book) (cancel_order_seq b k ev.seq ev.order_id)
    by_type MdType.execute e = rw (e, apply_to_book) refl
    by_type MdType.replace e = rw (e, apply_to_book) refl
    by_type MdType.reject e = rw (e, apply_to_book) refl
    by_type (MdType.other n) e = rw (e, apply_to_book) refl

number_events-Feeds :
    (k : ℕ) (b : OrderBook) (evs : List MdEvent) (c : OrderBook)
    → Feeds b evs c
    → Feeds b (number_events k evs).1 c
unfolding number_events
number_events-Feeds k b [] c same = same
number_events-Feeds k b (ev ∷ evs) c (m, fed, rest) = (
  m,
  record {
    done = ap (λ r. r.1) (apply_to_book_seq b ev k) ∙ fed.done;
    same = ap (λ r. plain r.0) (apply_to_book_seq b ev k) ∙ fed.same;
    symbol = fed.symbol;
    kept = fed.kept;
    others = fed.others;
    leaves = fed.leaves;
  },
  number_events-Feeds (bump k) m evs c rest,
)

number_events-AddsOnly :
    (k id : ℕ) (evs : List MdEvent) → AddsOnly id evs → AddsOnly id (number_events k evs).1
unfolding number_events
number_events-AddsOnly k id [] adds = adds
number_events-AddsOnly k id (ev ∷ evs) (add, adds) =
    (add, number_events-AddsOnly (bump k) id evs adds)

pub number_events-Moves :
    (k : ℕ) (m : BookManager) (s id : ℕ) (evs : List MdEvent) (m' : BookManager)
    → Moves m s id evs m'
    → Moves m s id (number_events k evs).1 m'
number_events-Moves k m s id evs m' w = record {
  agreed = w.agreed;
  feeds = number_events-Feeds k (book_at m s) evs (book_at m' s) w.feeds;
  adds = number_events-AddsOnly k id evs w.adds;
  positive = w.positive;
  others = w.others;
  max = w.max;
}
