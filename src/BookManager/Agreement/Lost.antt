-- ===== src/BookManager/Agreement/Lost.antt =====
-- A replace at a price out of the band.
use exchange_and_feed_handle.Base.{
  ℕ, ◌≡◌, refl, true, false, inl, inr, none, some, arith, ◌==◌, Bool-cases, Option-cases,
}
use exchange_and_feed_handle.Base.Map.{
  lookup, erase, contains-erase, contains-insert, contains as has_key,
}
use exchange_and_feed_handle.Base.Run.{ok}
use exchange_and_feed_handle.Types.{ClientCommand, RejectReason}
use exchange_and_feed_handle.OrderBook as Book
use exchange_and_feed_handle.OrderBook.{empty_output}
use exchange_and_feed_handle.OrderBook.State.{contains, price_in_band}
use exchange_and_feed_handle.BookManager.{
  BookManager, book_at, put_book, order_symbol, remove_index, contains_order, cancel_order,
  replace_order, remove_gone, refresh_index_after_add,
}
use exchange_and_feed_handle.BookManager.Agreement.{IsAgreed, book_at-put_book}

lost-contains_order :
    (m : BookManager) (s id old : ℕ)
    → (id == old) ≡ false
    → contains_order (refresh_index_after_add (remove_index m old) s id) old ≡ false
unfolding contains_order refresh_index_after_add remove_index
lost-contains_order m s id old far = elim (Bool-cases (contains (book_at m s) id)) [
  | inl live ↦
      rw
        (
          refresh_index_after_add,
          remove_index,
          live,
          contains_order,
          contains-insert id old s (erase old m.order_to_symbol),
          far,
          contains-erase old old m.order_to_symbol,
        )
        (ground arith)
  | inr gone ↦
      rw
        (
          refresh_index_after_add,
          remove_index,
          gone,
          contains_order,
          contains-erase old old m.order_to_symbol,
        )
        (ground arith)
]

lost-book_at :
    (m : BookManager) (s t id old : ℕ)
    → book_at (refresh_index_after_add (remove_index m old) s id) t ≡ book_at m t
unfolding refresh_index_after_add remove_index
lost-book_at m s t id old = elim (Bool-cases (contains (book_at m s) id)) [
  | inl live ↦ rw (refresh_index_after_add, remove_index, live) refl
  | inr gone ↦ rw (refresh_index_after_add, remove_index, gone) refl
]

cancel_unknown :
    (m : BookManager) (seq id : ℕ) → contains_order m id ≡ false → cancel_order m seq id ≡ (m, none)
unfolding contains_order cancel_order order_symbol has_key
cancel_unknown m seq id e = elim (Option-cases (lookup id m.order_to_symbol)) [
  | inl p ↦ rw (cancel_order, order_symbol, p) refl
  | inr (s, p) ↦ cc (rw (contains_order, has_key, p) at e)
]

-- In a manager whose map agrees with its books, a replace of a live order at a price out of the band,
-- under a new id, answers `InvalidPrice`. The order is still in its book, but the manager no longer
-- knows it, so a cancel of it finds nothing.
pub replace_order_out_of_band :
    (m : BookManager) (seq : ℕ) (cmd : ClientCommand) (s : ℕ)
    → IsAgreed m
    → lookup cmd.cancel_order_id m.order_to_symbol ≡ some s
    → price_in_band (book_at m s) cmd.price ≡ false
    → (cmd.order_id == cmd.cancel_order_id) ≡ false
    → (m' : BookManager) × (replace_order m seq cmd
        ≡ ok (m', record empty_output { reject = RejectReason.invalid_price }))
      × (contains (book_at m' s) cmd.cancel_order_id ≡ true)
      × (contains_order m' cmd.cancel_order_id ≡ false)
      × (cancel_order m' seq cmd.cancel_order_id ≡ (m', none))
unfolding replace_order order_symbol remove_gone Book.replace_order
replace_order_out_of_band m seq cmd s v under outside far =
    let old = cmd.cancel_order_id in
    let (good, live) = v.found old s under in
    let there : (s == 0) ≡ false = ground arith in
    let put = put_book m s (book_at m s) in
    let after = refresh_index_after_add (remove_index put old) s cmd.order_id in
    let same = book_at-put_book m s (book_at m s) v.count good in
    let unknown = lost-contains_order put s cmd.order_id old far in
    (
      after,
      rw (replace_order, order_symbol, under, there, Book.replace_order, outside) refl,
      rw (lost-book_at put s s cmd.order_id old, same) live,
      unknown,
      cancel_unknown after seq old unknown,
    )
