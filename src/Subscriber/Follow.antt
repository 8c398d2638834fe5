-- ===== src/Subscriber/Follow.antt =====
-- A subscriber applies the events that lead to a book, and has that book but for the totals of its levels.
use Prim.Native.String.{String}
use exchange_and_feed_handle.Base.{
  ℕ, ◌≡◌, refl, sym, ap, ◌∙◌, Bool, true, false, inl, inr, Option, none, some, List, [], ◌∷◌, arith,
  ◌==◌, if◌then◌else◌, Bool-cases, ==_refl,
}
use mathlib.Core.Path.{subst}
use exchange_and_feed_handle.Base.Map.{Map, lookup, insert, erase, lookup-insert, lookup-erase}
use exchange_and_feed_handle.Types.{MdEvent, MdType}
use exchange_and_feed_handle.OrderBook as Book
use exchange_and_feed_handle.OrderBook.State.{OrderBook, contains}
use exchange_and_feed_handle.OrderBook.Totals.{SameOrders}
use exchange_and_feed_handle.OrderBook.Totals.Operations.{apply_to_book, has_event}
use exchange_and_feed_handle.OrderBook.Feeds.{
  Fed, Feeds, Leaves, contains-SameOrders, Feeds-SameOrders, AddsOnly,
}
use exchange_and_feed_handle.OrderBook.Feeds.Live.{cancelled_contains, executed_contains}
use exchange_and_feed_handle.BookManager.{
  BookManager, book_at, put_book, bad_symbol, order_symbol, remove_index, cancelled, feed_add,
  feed_execute, cancel_order,
}
use exchange_and_feed_handle.BookManager.Agreement.{
  IsAgreed, IsOwn, changed-IsAgreed, book_at-put_book, book_at-put_book_other,
}
use exchange_and_feed_handle.Subscriber.{apply_event, unless, is_some}

-- The books `n'` behind events for the symbol `s` that lead to its book `c`.
pub record Followed (n : BookManager) (s : ℕ) (c : OrderBook) (n' : BookManager) : Type 0 where
  pub agreed : IsAgreed n'
  pub here : SameOrders (book_at n' s) c
  pub others : (t : ℕ) → (s == t) ≡ false → book_at n' t ≡ book_at n t
  pub max : n'.max_symbol ≡ n.max_symbol
  pub own : (id : ℕ) → IsOwn n s id → IsOwn n' s id

-- One event for the book of `s`.
module _ (n : BookManager) (s : ℕ) (ev : MdEvent) (c : OrderBook) (v : IsAgreed n)
    (good : bad_symbol n s ≡ false) (f : Fed (book_at n s) ev c) where
  abbrev fed_book : OrderBook
  fed_book = (apply_to_book (book_at n s) ev).0

  abbrev with_symbols : Map ℕ → BookManager
  with_symbols symbols = record (put_book n s fed_book) { order_to_symbol = symbols }

  followed :
      (symbols : Map ℕ)
      → IsOwn n s ev.order_id
      → lookup ev.order_id symbols ≡ (if contains c ev.order_id then some s else none)
      → ((j : ℕ) → (j == ev.order_id) ≡ false → lookup j symbols ≡ lookup j n.order_to_symbol)
      → Followed n s c (with_symbols symbols)
  followed symbols own mine theirs =
      let name : fed_book.symbol_id ≡ s = ap (λ b. b.symbol_id) f.same ∙ f.kept ∙ v.named s good in
      let others : (j : ℕ)
          → (j == ev.order_id) ≡ false
          → contains fed_book j ≡ contains (book_at n s) j =
        λ j far. contains-SameOrders fed_book c j f.same ∙ f.others j far in
      let mine' =
        mine
        ∙ ap (λ x. if x then some s else none)
            (sym (contains-SameOrders fed_book c ev.order_id f.same)) in
      record {
        agreed =
            changed-IsAgreed n s ev.order_id fed_book v good own name others symbols mine' theirs;
        here = rw (book_at-put_book n s fed_book v.count good) f.same;
        others = λ t apart. book_at-put_book_other n s t fed_book apart;
        max = refl;
        own = λ id was t e. elim (Bool-cases (id == ev.order_id)) [
          | inr far ↦ was t (sym (theirs id far) ∙ e)
          | inl same ↦
              let is_id : id ≡ ev.order_id = ground arith in
              let now = sym mine ∙ rw is_id at e in
              elim (Bool-cases (contains c ev.order_id)) [
                | inr gone ↦ cc (rw gone at now)
                | inl live ↦ cc (rw live at now)
              ]
        ];
      }

  -- The event is applied, without an error.
  abbrev Applied : Type 0
  Applied = ((apply_event n ev).1 ≡ none) × Followed n s c (apply_event n ev).0

  erased-Followed :
      contains c ev.order_id ≡ false
      → IsOwn n s ev.order_id
      → Followed n s c (with_symbols (erase ev.order_id n.order_to_symbol))
  erased-Followed gone own =
      followed (erase ev.order_id n.order_to_symbol) own
        (rw (lookup-erase ev.order_id ev.order_id n.order_to_symbol, ==_refl ev.order_id, gone)
          refl)
        (λ j far. lookup-erase ev.order_id j n.order_to_symbol ∙ ground arith)

  by_state :
      (symbols : Map ℕ)
      → apply_event n ev ≡ (with_symbols symbols, none)
      → Followed n s c (with_symbols symbols)
      → Applied
  by_state symbols e w = subst (λ r. (r.1 ≡ none) × Followed n s c r.0) (sym e) (refl, w)

  -- What the book's operation gives is the event's book.
  by_book :
      (symbols : Map ℕ) (r : OrderBook × Bool)
      → apply_to_book (book_at n s) ev ≡ r
      → apply_event n ev ≡ (record (put_book n s r.0) { order_to_symbol = symbols }, none)
      → apply_event n ev ≡ (with_symbols symbols, none)
  by_book symbols r same e =
      e
      ∙ ap
          (λ (x : OrderBook × Bool).
            (record (put_book n s x.0) { order_to_symbol = symbols }, none))
          (sym same)

  add-Applied :
      ev.type ≡ MdType.add → contains c ev.order_id ≡ true → IsOwn n s ev.order_id → Applied
  unfolding apply_event feed_add apply_to_book
  add-Applied e live own =
      let here : ev.symbol_id ≡ s = f.symbol ∙ v.named s good in
      let added = rw (e, apply_to_book) at f.done in
      let state =
        followed (insert ev.order_id s n.order_to_symbol) own
          (rw (lookup-insert ev.order_id ev.order_id s n.order_to_symbol, ==_refl ev.order_id, live)
            refl)
          (λ j far. lookup-insert ev.order_id j s n.order_to_symbol ∙ ground arith) in
      by_state (insert ev.order_id s n.order_to_symbol)
        (by_book (insert ev.order_id s n.order_to_symbol)
          (Book.feed_add (book_at n s) ev.order_id ev.account_id ev.side ev.price ev.qty)
          (rw (e, apply_to_book) refl) (rw (e, apply_event, here, feed_add, good, added) refl))
        state

  -- An order of the book is under the symbol.
  known : contains (book_at n s) ev.order_id ≡ true → order_symbol n ev.order_id ≡ s
  unfolding order_symbol
  known live = rw (v.listed ev.order_id s good live, order_symbol) refl

  known-IsOwn : contains (book_at n s) ev.order_id ≡ true → IsOwn n s ev.order_id
  known-IsOwn live t e = cc (v.listed ev.order_id s good live)

  cancel-Applied : ev.type ≡ MdType.cancel → contains c ev.order_id ≡ false → Applied
  unfolding apply_event cancel_order remove_index apply_to_book
  cancel-Applied e gone =
      let r = Book.cancel_order (book_at n s) ev.seq ev.order_id in
      let done : has_event r.1 ≡ true = rw (e, apply_to_book) at f.done in
      let live : contains (book_at n s) ev.order_id ≡ true =
        cancelled_contains (book_at n s) ev.seq ev.order_id done in
      let there : (s == 0) ≡ false = ground arith in
      by_state (erase ev.order_id n.order_to_symbol)
        (by_book (erase ev.order_id n.order_to_symbol) (r.0, has_event r.1)
          (rw (e, apply_to_book) refl)
          (rw (e, apply_event, cancel_order, known live, there) (taken r done)))
        (erased-Followed gone (known-IsOwn live))
    where
      taken :
          (r : OrderBook × Option MdEvent)
          → has_event r.1 ≡ true
          → ◌≡◌ {A = BookManager × Option String}
              (
                (cancelled n s ev.order_id r).0,
                unless (is_some (cancelled n s ev.order_id r).1) "md cancel unknown order",
              )
              (
                record (put_book n s r.0) { order_to_symbol = erase ev.order_id n.order_to_symbol },
                none,
              )
      taken (b, none) done = cc
      taken (b, some got) done = refl

  execute-Applied : ev.type ≡ MdType.execute → Applied
  unfolding apply_event feed_execute remove_index apply_to_book
  execute-Applied e =
      let r = Book.feed_execute (book_at n s) ev.order_id ev.qty in
      let book : apply_to_book (book_at n s) ev ≡ r = rw (e, apply_to_book) refl in
      let done : r.1 ≡ true = sym (ap (λ x. x.1) book) ∙ f.done in
      let live : contains (book_at n s) ev.order_id ≡ true =
        executed_contains (book_at n s) ev.order_id ev.qty done in
      let there : (s == 0) ≡ false = ground arith in
      let own = known-IsOwn live in
      let after : contains r.0 ev.order_id ≡ contains c ev.order_id =
        sym (ap (λ x. contains x.0 ev.order_id) book)
        ∙ contains-SameOrders fed_book c ev.order_id f.same in
      elim (Bool-cases (contains c ev.order_id)) [
        | inr gone ↦
            let left : contains r.0 ev.order_id ≡ false = after ∙ gone in
            by_state (erase ev.order_id n.order_to_symbol)
              (by_book (erase ev.order_id n.order_to_symbol) r book
                (rw (e, apply_event, feed_execute, known live, there, left, done) refl))
              (erased-Followed gone own)
        | inl stays ↦
            let left : contains r.0 ev.order_id ≡ true = after ∙ stays in
            by_state n.order_to_symbol
              (by_book n.order_to_symbol r book
                (rw (e, apply_event, feed_execute, known live, there, left, done) refl))
              (followed n.order_to_symbol own (rw (v.listed ev.order_id s good live, stays) refl)
                (λ j far. refl))
      ]

  -- A subscriber that has the book before the event applies it without an error, and has the book behind it.
  pub apply_event-Followed : (ev.type ≡ MdType.add → IsOwn n s ev.order_id) → Applied
  apply_event-Followed own = by_type ev.type refl f.leaves
    where
      by_type : (t : MdType) → ev.type ≡ t → Leaves t (contains c ev.order_id) → Applied
      by_type MdType.add e live = add-Applied e live (own e)
      by_type MdType.cancel e gone = cancel-Applied e gone
      by_type MdType.execute e _ = execute-Applied e
      by_type MdType.replace e never = absurd never
      by_type MdType.reject e never = absurd never
      by_type (MdType.other k) e never = absurd never

-- The events, up to the first that gives an error.
unfoldable pub apply_events : BookManager → List MdEvent → BookManager × Option String
apply_events n [] = (n, none)
apply_events n (ev ∷ evs) =
    let (n', error) = apply_event n ev in
    let rest = apply_events n' evs in elim error [ none ↦ rest | some e ↦ (n', some e) ]

Followed-trans :
    (n n' n'' : BookManager) (s : ℕ) (b c : OrderBook)
    → Followed n s b n'
    → Followed n' s c n''
    → Followed n s c n''
Followed-trans n n' n'' s b c f g = record {
  agreed = g.agreed;
  here = g.here;
  others = λ t apart. g.others t apart ∙ f.others t apart;
  max = g.max ∙ f.max;
  own = λ id own. g.own id (f.own id own);
}

pub apply_events-Followed :
    (n : BookManager) (s id : ℕ) (evs : List MdEvent) (c : OrderBook)
    → IsAgreed n
    → bad_symbol n s ≡ false
    → Feeds (book_at n s) evs c
    → AddsOnly id evs
    → IsOwn n s id
    → ((apply_events n evs).1 ≡ none) × Followed n s c (apply_events n evs).0
unfolding apply_events
apply_events-Followed n s id [] c v good same adds own = (
  refl,
  record { agreed = v; here = same; others = λ t apart. refl; max = refl; own = λ j was. was },
)
apply_events-Followed n s id (ev ∷ evs) c v good (m, fed, rest) (adds, more) own =
    let (done, f) =
      apply_event-Followed n s ev m v good fed (λ e. subst (λ j. IsOwn n s j) (sym (adds e)) own) in
    let n' = (apply_event n ev).0 in
    let good' : bad_symbol n' s ≡ false = rw f.max good in
    let (ended, g) =
      apply_events-Followed n' s id evs c f.agreed good'
        (Feeds-SameOrders m (book_at n' s) evs c f.here rest) more (f.own id own) in
    rw (done, apply_events) (ended, Followed-trans n n' _ s m c f g)
