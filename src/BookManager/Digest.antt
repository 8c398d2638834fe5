-- ===== src/BookManager/Digest.antt =====
-- `BookManager::checksum` of src/order_book.cpp.
use exchange_and_feed_handle.Base.{ℕ, zero, suc, ◌+◌, ◌≤◌, ◌≡◌, refl, arith}
use exchange_and_feed_handle.Base.Run.{Run, ok, ◌>>=◌}
use exchange_and_feed_handle.Checksum.{hash_combine}
use exchange_and_feed_handle.OrderBook.State.{OrderBook}
use exchange_and_feed_handle.OrderBook.Invariant.Operations.{IsSound}
use exchange_and_feed_handle.OrderBook.Digest as Book
use exchange_and_feed_handle.OrderBook.Digest.Reference.{checksum-eq}
use exchange_and_feed_handle.BookManager.{BookManager, book_at}
use exchange_and_feed_handle.BookManager.Invariant.{IsManager}

-- The books of `n` symbols from `s` on.
unfoldable pub hash_books : BookManager → ℕ → ℕ → ℕ → Run ℕ
hash_books m zero s h = ok h
hash_books m (suc n) s h =
    Book.checksum (book_at m s) >>= λ c. hash_books m n (s + 1) (hash_combine h c)

unfoldable pub checksum : BookManager → Run ℕ
checksum m = hash_books m m.max_symbol 1 0x424f_4f4b_4d47_5231

book-returns : (b : OrderBook) → IsSound b → (c : ℕ) × (Book.checksum b ≡ ok c)
book-returns b v = (_, checksum-eq b v.queues v.book)

hash_books-returns :
    {max k : ℕ} (m : BookManager) (n s h : ℕ)
    → IsManager max k m
    → s + n ≤ m.max_symbol + 1
    → (c : ℕ) × (hash_books m n s h ≡ ok c)
unfolding hash_books
hash_books-returns m zero s h v le = (h, refl)
hash_books-returns m (suc n) s h v le =
    let (first, found) = book-returns (book_at m s) (v.books s (omega arith)).sound in
    let (c, e) = hash_books-returns m n (s + 1) (hash_combine h first) v (omega arith) in
    (c, rw found e)

-- A manager whose books are settled has a checksum.
pub checksum-returns :
    {max k : ℕ} (m : BookManager) → IsManager max k m → (c : ℕ) × (checksum m ≡ ok c)
unfolding checksum
checksum-returns m v = hash_books-returns m m.max_symbol 1 0x424f_4f4b_4d47_5231 v (omega arith)
