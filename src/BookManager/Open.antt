-- ===== src/BookManager/Open.antt =====
-- The manager that the constructor makes.
use exchange_and_feed_handle.Base.{
  ℕ, zero, suc, ◌+◌, ◌≤◌, ◌<◌, ◌^◌, ◌≡◌, refl, ap, List, [], ◌∷◌, arith, length, get_or,
}
use mathlib.Core.Path.{subst}
use exchange_and_feed_handle.Base.Int.{pos_part}
use exchange_and_feed_handle.Base.Map.{lookup}
use exchange_and_feed_handle.Base.Run.{ok, >>=-returns}
use exchange_and_feed_handle.OrderBook.State.{OrderBook, PriceLadderConfig, open_book}
use exchange_and_feed_handle.OrderBook.Invariant.AddOrder.{IsSettled}
use exchange_and_feed_handle.OrderBook.Invariant.Open.{open_book-IsSettled}
use exchange_and_feed_handle.BookManager.{
  BookManager, symbol_ladder, open_books, open_manager, no_book,
}
use exchange_and_feed_handle.BookManager.Invariant.{IsManager}

abbrev AllOpen : List OrderBook → Type 0
AllOpen bs =
    (i : ℕ)
    → i < length bs
    → IsSettled (get_or bs i no_book) × (length (get_or bs i no_book).nodes ≡ 0)

open_books-settled :
    (ladder : PriceLadderConfig) (n s : ℕ) (bs : List OrderBook)
    → ((t : ℕ) → t < s + n → pos_part (symbol_ladder ladder t).max_price < 2 ^ 63)
    → open_books ladder s n ≡ ok bs
    → (length bs ≡ n) × AllOpen bs
unfolding open_books
open_books-settled ladder zero s bs h e =
    let same : [] ≡ bs = cc in
    subst (λ l. (length l ≡ 0) × AllOpen l) same (refl, λ i lt. absurd (omega arith))
open_books-settled ladder (suc n) s bs h e =
    let (b, e', first) = >>=-returns (open_book s (symbol_ladder ladder s)) _ bs e in
    let (rest, e'', others) = >>=-returns (open_books ladder (s + 1) n) _ bs e' in
    let (count, settled) =
      open_books-settled ladder n (s + 1) rest (λ t lt. h t (omega arith)) others in
    let head = open_book-IsSettled s (symbol_ladder ladder s) b (h s (omega arith)) first in
    let same : b ∷ rest ≡ bs = cc in
    subst (λ l. (length l ≡ suc n) × AllOpen l) same
      (ap (λ x. suc x) count, each b rest head settled)
  where
    each :
        (b : OrderBook) (rest : List OrderBook)
        → IsSettled b × (length b.nodes ≡ 0)
        → AllOpen rest
        → AllOpen (b ∷ rest)
    each b rest head settled zero lt = head
    each b rest head settled (suc i) lt = settled i (omega arith)

-- If no symbol's greatest price leaves 64 bits, the manager that the constructor makes has a settled book
-- without a node for each symbol.
pub open_manager-IsManager :
    (max_symbol : ℕ) (ladder : PriceLadderConfig) (m : BookManager)
    → ((s : ℕ) → s ≤ max_symbol → pos_part (symbol_ladder ladder s).max_price < 2 ^ 63)
    → open_manager max_symbol ladder ≡ ok m
    → IsManager max_symbol 0 m
unfolding open_manager lookup
open_manager-IsManager max_symbol ladder m h e =
    let (bs, e', opened) = >>=-returns (open_books ladder 0 (suc max_symbol)) _ m e in
    let (count, settled) =
      open_books-settled ladder (suc max_symbol) 0 bs (λ t lt. h t (omega arith)) opened in
    let same : record { max_symbol = max_symbol; ladder = ladder; books = bs; order_to_symbol = [] }
        ≡ m =
      cc in
    subst (λ w. IsManager max_symbol 0 w) same
      (record {
        top = refl;
        count = count;
        books = λ s le. (settled s (omega (arith, count))).0;
        pools = λ s le. omega (arith, (settled s (omega (arith, count))).1);
        symbols = λ id s f. cc;
      })
