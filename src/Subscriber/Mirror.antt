-- ===== src/Subscriber/Mirror.antt =====
-- A subscriber's books are those of the exchange, but for the totals of the levels.
use exchange_and_feed_handle.Base.{
  ℕ, ◌≡◌, sym, ◌∙◌, false, inl, inr, none, List, arith, ◌==◌, Bool-cases,
}
use exchange_and_feed_handle.Types.{MdEvent}
use exchange_and_feed_handle.OrderBook.Totals.{SameOrders}
use exchange_and_feed_handle.OrderBook.Feeds.{Feeds-SameOrders, IsPositive, contains-SameOrders}
use exchange_and_feed_handle.BookManager.{BookManager, book_at, bad_symbol}
use exchange_and_feed_handle.BookManager.Agreement.{IsAgreed, IsOwn}
use exchange_and_feed_handle.BookManager.Agreement.Behind.{Moves}
use exchange_and_feed_handle.Subscriber.Follow.{apply_events, apply_events-Followed}

-- Both maps agree with their books, and each book of `n` is the one of `m` but for the totals, where every
-- live order has something left.
pub record Mirrors (m n : BookManager) : Type 0 where
  pub source : IsAgreed m
  pub copy : IsAgreed n
  pub max : n.max_symbol ≡ m.max_symbol
  pub same : (s : ℕ) → bad_symbol m s ≡ false → SameOrders (book_at n s) (book_at m s)
  pub positive : (s : ℕ) → bad_symbol m s ≡ false → IsPositive (book_at m s)

Mirrors-IsOwn : (m n : BookManager) (s id : ℕ) → Mirrors m n → IsOwn m s id → IsOwn n s id
Mirrors-IsOwn m n s id v own t e =
    let (good, live) = v.copy.found id t e in
    let good' : bad_symbol m t ≡ false = rw v.max at good in
    own t (
      v.source.listed id t good'
        (sym (contains-SameOrders (book_at n t) (book_at m t) id (v.same t good')) ∙ live))

-- A subscriber with the books before a command applies its events without an error, and has the books
-- behind it.
pub Moves-Mirrors :
    (m n : BookManager) (s id : ℕ) (evs : List MdEvent) (m' : BookManager)
    → Mirrors m n
    → bad_symbol m s ≡ false
    → IsOwn m s id
    → Moves m s id evs m'
    → ((apply_events n evs).1 ≡ none) × Mirrors m' (apply_events n evs).0
Moves-Mirrors m n s id evs m' v good own w =
    let good_n : bad_symbol n s ≡ false = rw v.max good in
    let feeds =
      Feeds-SameOrders (book_at m s) (book_at n s) evs (book_at m' s) (v.same s good) w.feeds in
    let (done, f) =
      apply_events-Followed n s id evs (book_at m' s) v.copy good_n feeds w.adds
        (Mirrors-IsOwn m n s id v own) in
    (
      done,
      record {
        source = w.agreed;
        copy = f.agreed;
        max = f.max ∙ v.max ∙ sym w.max;
        same = λ t known. elim (Bool-cases (s == t)) [
          | inl here ↦ let is_s : s ≡ t = ground arith in rw is_s at f.here
          | inr apart ↦ rw (f.others t apart, w.others t apart) (v.same t (rw w.max at known))
        ];
        positive = λ t known. elim (Bool-cases (s == t)) [
          | inl here ↦ let is_s : s ≡ t = ground arith in rw is_s at w.positive
          | inr apart ↦ rw (w.others t apart) (v.positive t (rw w.max at known))
        ];
      },
    )
