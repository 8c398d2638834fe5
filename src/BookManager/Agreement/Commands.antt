-- ===== src/BookManager/Agreement/Commands.antt =====
-- `add_order`, `cancel_order` and `replace_order` of the manager: the map agrees with the books, and the events
-- lead to the books behind them.
use exchange_and_feed_handle.Base.{
  ℕ, ◌<◌, ◌≡◌, refl, sym, ap, ◌∙◌, true, false, inl, inr, Option, none, some, [], ◌∷◌, arith, ◌==◌,
  Bool-cases, ==_refl, length,
}
use mathlib.Core.Path.{subst}
use exchange_and_feed_handle.Base.Map.{lookup, erase, lookup-erase}
use exchange_and_feed_handle.Base.Run.{ok, >>=-returns}
use exchange_and_feed_handle.Types.{ClientCommand, MdEvent, RejectReason}
use exchange_and_feed_handle.OrderBook as Book
use exchange_and_feed_handle.OrderBook.State.{OrderBook, MatchOutput, contains, null}
use exchange_and_feed_handle.OrderBook.{empty_output}
use exchange_and_feed_handle.OrderBook.Invariant.Operations.{IsSound}
use exchange_and_feed_handle.OrderBook.Feeds.{IsPositive}
use exchange_and_feed_handle.OrderBook.Feeds.Commands.{add_order-Leads}
use exchange_and_feed_handle.OrderBook.Feeds.Replace.{
  CancelLeads, cancel_order-Leads, replace_order-Leads,
}
use exchange_and_feed_handle.BookManager.{
  BookManager, book, book_at, put_book, bad_symbol, order_symbol, remove_index, cancelled,
  add_order, cancel_order, replace_order, remove_gone, refresh_index_after_add,
}
use exchange_and_feed_handle.BookManager.Agreement.{
  IsAgreed, IsOwn, changed-IsAgreed, book_at-put_book, book_at-put_book_other,
}
use exchange_and_feed_handle.BookManager.Agreement.Behind.{Moves, IsStart, behind-Moves}

-- In a manager whose map agrees with its books, an order for a symbol whose book is sound, has room,
-- and has something left of every live order; the order's id is not live under another symbol.
-- Whatever the answer, the map agrees with the books behind it, the events lead a subscriber's book
-- from the book before to the book behind and add no order but this one, every live order of the book
-- has something left, and the other books are as they were.
pub add_order-Moves :
    (m : BookManager) (seq : ℕ) (cmd : ClientCommand) (m' : BookManager) (out : MatchOutput)
    → IsAgreed m
    → IsSound (book_at m cmd.symbol_id)
    → IsPositive (book_at m cmd.symbol_id)
    → length (book_at m cmd.symbol_id).nodes < null
    → bad_symbol m cmd.symbol_id ≡ false
    → IsOwn m cmd.symbol_id cmd.order_id
    → add_order m seq cmd ≡ ok (m', out)
    → Moves m cmd.symbol_id cmd.order_id out.md_events m'
unfolding add_order book
add_order-Moves m seq cmd m' out v sound pos room good own e =
    let s = cmd.symbol_id in
    let ((b, sent), run, found) = >>=-returns _ _ _ (rw (add_order, book, good) at e) in
    let lead =
      add_order-Leads (book_at m s) seq cmd.order_id cmd.account_id cmd.side cmd.price cmd.qty
        cmd.tif b sent sound pos room found in
    let moves =
      behind-Moves m s cmd.order_id b sent.md_events v good lead.feeds lead.adds own
        m.order_to_symbol (λ j. inl refl) lead.positive in
    let after : BookManager =
      refresh_index_after_add (remove_gone (put_book m s b) s sent.md_events) s cmd.order_id in
    let same : ◌≡◌ {A = BookManager × MatchOutput} (after, sent) (m', out) = cc in
    subst (λ (r : BookManager × MatchOutput). Moves m s cmd.order_id r.1.md_events r.0) same moves

-- A cancel of an order of the map gives an event, which leads to the book behind it.
pub cancel_order-Moves :
    (m : BookManager) (seq id s : ℕ)
    → IsAgreed m
    → IsSound (book_at m s)
    → IsPositive (book_at m s)
    → lookup id m.order_to_symbol ≡ some s
    → (m' : BookManager) × (ev : MdEvent) × (cancel_order m seq id ≡ (m', some ev))
      × Moves m s id (ev ∷ []) m'
unfolding cancel_order order_symbol remove_index
cancel_order-Moves m seq id s v sound pos under =
    let (good, live) = v.found id s under in
    let there : (s == 0) ≡ false = ground arith in
    let leads = cancel_order-Leads (book_at m s) seq id sound pos in
    behind good (Book.cancel_order (book_at m s) seq id) leads
      (rw (cancel_order, order_symbol, under, there) refl) live
  where
    behind :
        bad_symbol m s ≡ false
        → (r : OrderBook × Option MdEvent) → CancelLeads (book_at m s) id r
        → cancel_order m seq id ≡ cancelled m s id r
        → contains (book_at m s) id ≡ true
        → (m' : BookManager) × (ev : MdEvent) × (cancel_order m seq id ≡ (m', some ev))
          × Moves m s id (ev ∷ []) m'
    behind good (b, none) (same, absent) e live = cc
    behind good (b, some ev) (fed, positive, type, named) e live = (
      remove_index (put_book m s b) id,
      ev,
      e,
      record {
        agreed =
            changed-IsAgreed m s id b v good (λ t f. cc (sym under ∙ f)) (fed.kept ∙ v.named s good)
              (λ j far. fed.others j (rw named far)) (erase id m.order_to_symbol)
              (rw (gone, lookup-erase id id m.order_to_symbol, ==_refl id) refl)
              (λ j far. lookup-erase id j m.order_to_symbol ∙ ground arith);
        feeds = rw (book_at-put_book m s b v.count good) (b, fed, refl);
        adds = ((λ f. cc (sym type ∙ f)), tt);
        positive = rw (book_at-put_book m s b v.count good) positive;
        others = λ t apart. book_at-put_book_other m s t b apart;
        max = refl;
      },
    )
      where
        gone : contains b id ≡ false
        gone = rw (type, named) at fed.leaves

-- In a manager whose map agrees with its books, a replace of a live order of the symbol `s`, whose
-- book is sound, has room, and has something left of every live order; the new order's id is not live
-- under another symbol, and the replace is accepted. The map agrees with the books behind it, the
-- events lead a subscriber's book from the book before to the book behind and add no order but the new
-- one, every live order of the book has something left, and the other books are as they were.
pub replace_order-Moves :
    (m : BookManager) (seq : ℕ) (cmd : ClientCommand) (s : ℕ) (m' : BookManager) (out : MatchOutput)
    → IsAgreed m
    → IsSound (book_at m s)
    → IsPositive (book_at m s)
    → length (book_at m s).nodes < null
    → lookup cmd.cancel_order_id m.order_to_symbol ≡ some s
    → IsOwn m s cmd.order_id
    → replace_order m seq cmd ≡ ok (m', out)
    → out.reject ≡ RejectReason.none
    → Moves m s cmd.order_id out.md_events m'
unfolding replace_order order_symbol remove_index
replace_order-Moves m seq cmd s m' out v sound pos room under own e accepted =
    let old = cmd.cancel_order_id in
    let (good, live) = v.found old s under in
    let there : (s == 0) ≡ false = ground arith in
    let ((b, sent), run, found) =
      >>=-returns _ _ _ (rw (replace_order, order_symbol, under, there) at e) in
    let (lead, gone) =
      replace_order-Leads (book_at m s) seq old cmd.order_id cmd.account_id cmd.side cmd.price
        cmd.qty cmd.tif b sent sound pos room found in
    let after : BookManager =
      refresh_index_after_add (remove_gone (remove_index (put_book m s b) old) s sent.md_events) s
        cmd.order_id in
    let same : ◌≡◌ {A = BookManager × MatchOutput} (after, sent) (m', out) = cc in
    let taken : sent.reject ≡ RejectReason.none = ap (λ r. r.1.reject) same ∙ accepted in
    let start : IsStart m s cmd.order_id b (erase old m.order_to_symbol) = λ j.
      elim (Bool-cases (old == j)) [
        | inr far ↦ inl (lookup-erase old j m.order_to_symbol ∙ ground arith)
        | inl mine ↦
            let is_old : old ≡ j = ground arith in
            inr (
              lookup-erase old j m.order_to_symbol ∙ ground arith,
              rw is_old at live,
              λ still. sym is_old ∙ gone taken (rw (sym is_old) at still),
            )
      ] in
    let moves =
      behind-Moves m s cmd.order_id b sent.md_events v good lead.feeds lead.adds own
        (erase old m.order_to_symbol) start lead.positive in
    subst (λ (r : BookManager × MatchOutput). Moves m s cmd.order_id r.1.md_events r.0) same moves
