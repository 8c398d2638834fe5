-- ===== src/Exchange/Mirror/Frames.antt =====
-- The frames of a session's feed.
use exchange_and_feed_handle.Base.{
  ℕ, ◌+◌, ◌%◌, ◌<◌, ◌≤◌, ◌^◌, ◌≡◌, refl, sym, ap, ◌∙◌, true, none, List, [], ◌∷◌, ◌++◌, arith, All,
  length, map,
}
use mathlib.Core.Path.{subst}
use exchange_and_feed_handle.Base.Int.{pos_part}
use exchange_and_feed_handle.Base.Run.{ok, >>=-returns}
use exchange_and_feed_handle.Types.{ClientCommand, MdEvent}
use exchange_and_feed_handle.MarketData.{IsMdEvent, encode_md_event}
use exchange_and_feed_handle.MarketData.Feed.{NumberedFrom}
use exchange_and_feed_handle.OrderBook.State.{null}
use exchange_and_feed_handle.BookManager.{symbol_ladder, open_manager, BookManager}
use exchange_and_feed_handle.Subscriber.{SubscriberBook, open_subscriber}
use exchange_and_feed_handle.Subscriber.Follow.{apply_events}
use exchange_and_feed_handle.Subscriber.Frames.{apply_frames, apply_frames-map}
use exchange_and_feed_handle.Subscriber.Mirror.{Mirrors}
use exchange_and_feed_handle.Exchange.{Exchange, ExchangeConfig, process_command, open_exchange}
use exchange_and_feed_handle.Exchange.Sequence.{apply_sequenced-GoesOn}
use exchange_and_feed_handle.Exchange.Mirror.Session.{run_feed, IsOrderly, open_exchange-run_feed}

NumberedFrom-append :
    (k : ℕ) (evs fs : List MdEvent)
    → k < 2 ^ 64
    → NumberedFrom k evs
    → NumberedFrom ((k + length evs) % 2 ^ 64) fs
    → NumberedFrom k (evs ++ fs)
NumberedFrom-append k [] fs h numbers more = subst (λ j. NumberedFrom j fs) (omega arith) more
NumberedFrom-append k (ev ∷ evs) fs h (one, numbers) more = (
  one,
  NumberedFrom-append ((k + 1) % 2 ^ 64) evs fs (omega arith) numbers
      (subst (λ j. NumberedFrom j fs) (omega arith) more),
)

-- The events of a session are numbered on from the exchange's next number.
run_feed-NumberedFrom :
    (cmds : List (ClientCommand × ℕ)) (ex ex' : Exchange) (evs : List MdEvent)
    → ex.next_md_seq < 2 ^ 64
    → run_feed ex cmds ≡ ok (ex', evs)
    → NumberedFrom ex.next_md_seq evs
unfolding run_feed process_command
run_feed-NumberedFrom [] ex ex' evs h e =
    let same : [] ≡ evs = cc in subst (λ l. NumberedFrom ex.next_md_seq l) same tt
run_feed-NumberedFrom ((cmd, now_ns) ∷ cmds) ex ex' evs h e =
    let ((ex1, res), run, first) = >>=-returns (process_command ex cmd now_ns) _ _ e in
    let ((ex2, more), done, others) = >>=-returns (run_feed ex1 cmds) _ _ run in
    let (numbers, next) = apply_sequenced-GoesOn _ ex1 _ true res h first in
    let rest = run_feed-NumberedFrom cmds ex1 ex2 more (omega (arith, next)) others in
    let same : res.md_events ++ more ≡ evs = cc in
    subst (λ l. NumberedFrom ex.next_md_seq l) same
      (NumberedFrom-append ex.next_md_seq res.md_events more h numbers
        (subst (λ j. NumberedFrom j more) next rest))

-- A new exchange and a new subscriber have the same greatest symbol and the same ladder, no symbol's
-- greatest price leaves 64 bits, and there are at most `null` commands, all for the exchange's
-- symbols. No new order has a live order's id, but for a replace under the old order's id, and no
-- replace is rejected. If the exchange's run of the commands gives the events `evs`, and their fields
-- fit their widths: the subscriber takes the frames of `evs` one after another, none of them gives an
-- error, and then its books are the exchange's but for the totals of the levels; on both sides the map
-- of the live orders agrees with the books.
pub open_exchange-apply_frames :
    (cfg : ExchangeConfig) (ex ex' : Exchange) (sub : SubscriberBook)
    (cmds : List (ClientCommand × ℕ)) (evs : List MdEvent)
    → ((s : ℕ) → s ≤ cfg.max_symbol → pos_part (symbol_ladder cfg.ladder s).max_price < 2 ^ 63)
    → open_exchange cfg ≡ ok ex
    → open_subscriber cfg.max_symbol cfg.ladder ≡ ok sub
    → length cmds ≤ null
    → All (λ (c : ClientCommand × ℕ). (0 < c.0.symbol_id) × (c.0.symbol_id ≤ cfg.max_symbol)) cmds
    → IsOrderly ex cmds
    → run_feed ex cmds ≡ ok (ex', evs)
    → All IsMdEvent evs
    → ((apply_frames sub (map encode_md_event evs)).1 ≡ none)
      × Mirrors ex'.books (apply_frames sub (map encode_md_event evs)).0.books
unfolding open_exchange open_subscriber
open_exchange-apply_frames cfg ex ex' sub cmds evs h e e' few good orderly ran fit =
    let (exn, sent, run, ended, w) =
      open_exchange-run_feed cfg ex sub cmds h e e' few good orderly in
    let (m, made, _) = >>=-returns (open_manager cfg.max_symbol cfg.ladder) _ ex e in
    let (n, made', _) = >>=-returns (open_manager cfg.max_symbol cfg.ladder) _ sub e' in
    let first : ex.next_md_seq ≡ 1 = cc in
    let expects : sub ≡ record { books = sub.books; decoder = record { expected = 1 } } =
      fresh n made' in
    let numbers : NumberedFrom 1 evs =
      rw first at (run_feed-NumberedFrom cmds ex ex' evs (omega (arith, first)) ran) in
    let (error, books) = apply_frames-map sub.books 1 evs fit numbers in
    let same : ◌≡◌ {A = Exchange × List MdEvent} (exn, sent) (ex', evs) = ok_same (sym run ∙ ran) in
    let (ended', w') =
      subst
        (λ (r : Exchange × List MdEvent).
          ((apply_events sub.books r.1).1 ≡ none)
          × Mirrors r.0.books (apply_events sub.books r.1).0)
        same (ended, w) in
    let whole = ap (λ s. apply_frames s (map encode_md_event evs)) expects in
    (
      ap (λ r. r.1) whole ∙ error ∙ ended',
      subst (λ b. Mirrors ex'.books b) (sym (ap (λ r. r.0.books) whole ∙ books)) w',
    )
  where
    ok_same : {a b : Exchange × List MdEvent} → ok a ≡ ok b → a ≡ b
    ok_same {a} {b} p = cc

    fresh :
        (n : BookManager)
        → ok (record { books = n; decoder = record { expected = 1 } }) ≡ ok sub
        → sub ≡ record { books = sub.books; decoder = record { expected = 1 } }
    fresh n p =
        let same : record { books = n; decoder = record { expected = 1 } } ≡ sub = cc in
        subst (λ s. s ≡ record { books = s.books; decoder = record { expected = 1 } }) same refl
