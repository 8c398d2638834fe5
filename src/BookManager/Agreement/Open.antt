-- ===== src/BookManager/Agreement/Open.antt =====
-- The map of the manager that the constructor makes.
use exchange_and_feed_handle.Base.{
  ℕ, zero, suc, ◌+◌, ◌%◌, ◌^◌, ◌<◌, ◌≡◌, sym, ap, ◌∙◌, false, not, ◌||◌, inl, inr, List, [], ◌∷◌,
  arith, length, get_or, ltb, Bool-cases,
}
use mathlib.Core.Path.{subst}
use exchange_and_feed_handle.Base.Int.{pos, ◌-ℤ◌, leb_ℤ, to_u64}
use exchange_and_feed_handle.Base.Map.{lookup, contains as has_key}
use exchange_and_feed_handle.Base.Run.{ok, >>=-returns}
use exchange_and_feed_handle.OrderBook.State.{OrderBook, PriceLadderConfig, open_book, contains}
use exchange_and_feed_handle.OrderBook.Feeds.{IsPositive}
use exchange_and_feed_handle.BookManager.{
  BookManager, symbol_ladder, open_books, open_manager, no_book, bad_symbol, book_at,
}
use exchange_and_feed_handle.BookManager.Agreement.{IsAgreed}

-- The book of the symbol `s`, without an order.
abbrev IsNew : ℕ → OrderBook → Type 0
IsNew s b = (b.symbol_id ≡ s) × (b.index ≡ [])

open_book-IsNew :
    (s : ℕ) (ladder : PriceLadderConfig) (b : OrderBook) → open_book s ladder ≡ ok b → IsNew s b
unfolding open_book
open_book-IsNew s ladder b e =
    let low = ladder.min_price in
    let high = ladder.max_price in
    elim (Bool-cases (leb_ℤ low (pos 0) || not (leb_ℤ low high))) [
      | inl bad ↦ cc (rw (bad, open_book) at e)
      | inr good ↦ elim (Bool-cases (ltb 0xffff_ffff ((to_u64 (high -ℤ low) + 1) % 2 ^ 64))) [
        | inl wide ↦ cc (rw (good, wide, open_book) at e)
        | inr fits ↦
            let run = rw (good, fits, open_book) at e in
            (by_ok (λ x. x.symbol_id) run, by_ok (λ x. x.index) run)
      ]
    ]
  where
    by_ok : {A : Type 0} {c : OrderBook} (f : OrderBook → A) → ok c ≡ ok b → f b ≡ f c
    by_ok {A} {c} f run = let same : b ≡ c = cc in ap f same

open_books-IsNew :
    (ladder : PriceLadderConfig) (n s : ℕ) (bs : List OrderBook)
    → open_books ladder s n ≡ ok bs
    → (length bs ≡ n) × ((i : ℕ) → i < n → IsNew (s + i) (get_or bs i no_book))
unfolding open_books
open_books-IsNew ladder zero s bs e =
    let same : [] ≡ bs = cc in (ap length (sym same), λ i lt. absurd (omega arith))
open_books-IsNew ladder (suc n) s bs e =
    let (b, e', first) = >>=-returns (open_book s (symbol_ladder ladder s)) _ bs e in
    let (rest, e'', others) = >>=-returns (open_books ladder (s + 1) n) _ bs e' in
    let (count, fresh) = open_books-IsNew ladder n (s + 1) rest others in
    let head = open_book-IsNew s (symbol_ladder ladder s) b first in
    let same : b ∷ rest ≡ bs = cc in
    subst (λ l. (length l ≡ suc n) × ((i : ℕ) → i < suc n → IsNew (s + i) (get_or l i no_book)))
      same (ap (λ x. suc x) count, each b rest head fresh)
  where
    each :
        (b : OrderBook) (rest : List OrderBook)
        → IsNew s b
        → ((i : ℕ) → i < n → IsNew (s + 1 + i) (get_or rest i no_book))
        → (i : ℕ) → i < suc n
        → IsNew (s + i) (get_or (b ∷ rest) i no_book)
    each b rest head fresh zero lt = (head.0 ∙ omega arith, head.1)
    each b rest head fresh (suc i) lt =
        let (name, none_there) = fresh i (omega arith) in (name ∙ omega arith, none_there)

-- The map of a new manager agrees with its books, and no book has an order.
pub open_manager-IsAgreed :
    (max_symbol : ℕ) (ladder : PriceLadderConfig) (m : BookManager)
    → open_manager max_symbol ladder ≡ ok m
    → IsAgreed m × ((s : ℕ) → bad_symbol m s ≡ false → IsPositive (book_at m s))
unfolding open_manager lookup contains has_key
open_manager-IsAgreed max_symbol ladder m e =
    let (bs, e', opened) = >>=-returns (open_books ladder 0 (suc max_symbol)) _ m e in
    let (count, fresh) = open_books-IsNew ladder (suc max_symbol) 0 bs opened in
    let start : BookManager = record {
      max_symbol = max_symbol;
      ladder = ladder;
      books = bs;
      order_to_symbol = [];
    } in
    let empty : (s : ℕ) → bad_symbol start s ≡ false → IsNew s (book_at start s) = λ s good.
      let (name, none_there) = fresh s (ground arith) in (name ∙ omega arith, none_there) in
    let same : start ≡ m = cc in
    subst (λ w. IsAgreed w × ((s : ℕ) → bad_symbol w s ≡ false → IsPositive (book_at w s))) same
      (
        record {
          count = count;
          named = λ s good. (empty s good).0;
          found = λ id s f. cc;
          listed = λ id s good live. cc (rw (contains, (empty s good).1) at live);
        },
        λ s good id k f. cc (rw (empty s good).1 at f),
      )
