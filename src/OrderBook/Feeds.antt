-- ===== src/OrderBook/Feeds.antt =====
-- The events that lead a subscriber from one book to another, but for the totals of the levels.
pub mod Commands
pub mod Head
pub mod Live
pub mod Loop
pub mod Replace
pub mod Rest
use exchange_and_feed_handle.Base.{
  ℕ, ◌<◌, ◌≡◌, refl, sym, ap, ◌∙◌, Bool, true, false, Option, some, List, [], ◌∷◌, ◌++◌, ◌==◌, All,
}
use exchange_and_feed_handle.Base.Map.{lookup}
use exchange_and_feed_handle.Types.{MdEvent, MdType}
use exchange_and_feed_handle.OrderBook.State.{OrderBook, node, contains}
use exchange_and_feed_handle.OrderBook.Totals.{plain, SameOrders}
use exchange_and_feed_handle.OrderBook.Totals.Operations.{apply_to_book, apply_to_book-SameOrders}

-- What a type of event says of whether its order is in the book behind it. The exchange's books send no
-- other types.
abbrev pub Leaves : MdType → Bool → Type 0
Leaves MdType.add live = live ≡ true
Leaves MdType.cancel live = live ≡ false
Leaves MdType.execute live = Unit {0}
Leaves _ live = ⊥

-- The event leads from `b` to `c`: a subscriber with `b` applies it without an error and has `c`.
pub record Fed (b : OrderBook) (ev : MdEvent) (c : OrderBook) : Type 0 where
  pub done : (apply_to_book b ev).1 ≡ true
  pub same : SameOrders (apply_to_book b ev).0 c
  pub symbol : ev.symbol_id ≡ b.symbol_id
  pub kept : c.symbol_id ≡ b.symbol_id
  pub others : (j : ℕ) → (j == ev.order_id) ≡ false → contains c j ≡ contains b j
  pub leaves : Leaves ev.type (contains c ev.order_id)

-- The events lead from `b` to `c`, one after another.
abbrev pub Feeds : OrderBook → List MdEvent → OrderBook → Type 0
Feeds b [] c = SameOrders b c
Feeds b (ev ∷ evs) c = (m : OrderBook) × Fed b ev m × Feeds m evs c

pub contains-SameOrders : (b c : OrderBook) (j : ℕ) → SameOrders b c → contains b j ≡ contains c j
unfolding contains
contains-SameOrders b c j s = ap (λ x. contains x j) s

Fed-SameOrders :
    (b b' : OrderBook) (ev : MdEvent) (c : OrderBook) → SameOrders b' b → Fed b ev c → Fed b' ev c
Fed-SameOrders b b' ev c s f =
    let (same, done) = apply_to_book-SameOrders b' b ev s in
    let symbol : b'.symbol_id ≡ b.symbol_id = ap (λ x. x.symbol_id) s in
    record {
      done = done ∙ f.done;
      same = same ∙ f.same;
      symbol = f.symbol ∙ sym symbol;
      kept = f.kept ∙ sym symbol;
      others = λ j apart. f.others j apart ∙ sym (contains-SameOrders b' b j s);
      leaves = f.leaves;
    }

pub Feeds-SameOrders :
    (b b' : OrderBook) (evs : List MdEvent) (c : OrderBook)
    → SameOrders b' b
    → Feeds b evs c
    → Feeds b' evs c
Feeds-SameOrders b b' [] c s f = s ∙ f
Feeds-SameOrders b b' (ev ∷ evs) c s (m, fed, rest) = (m, Fed-SameOrders b b' ev m s fed, rest)

pub Feeds-append :
    (b : OrderBook) (evs fs : List MdEvent) (m c : OrderBook)
    → Feeds b evs m
    → Feeds m fs c
    → Feeds b (evs ++ fs) c
Feeds-append b [] fs m c s g = Feeds-SameOrders m b fs c s g
Feeds-append b (ev ∷ evs) fs m c (n, fed, rest) g = (n, fed, Feeds-append n evs fs m c rest g)

-- Every live order has something left.
abbrev pub IsPositive : OrderBook → Type 0
IsPositive b = (id k : ℕ) → lookup id b.index ≡ some k → 0 < (node b k).qty

-- Only the order `id` is added.
abbrev pub AddsOnly : ℕ → List MdEvent → Type 0
AddsOnly id evs = All (λ (ev : MdEvent). ev.type ≡ MdType.add → ev.order_id ≡ id) evs

pub AddsOnly-append :
    (id : ℕ) (evs fs : List MdEvent) → AddsOnly id evs → AddsOnly id fs → AddsOnly id (evs ++ fs)
AddsOnly-append id [] fs adds more = more
AddsOnly-append id (ev ∷ evs) fs (one, adds) more = (one, AddsOnly-append id evs fs adds more)
