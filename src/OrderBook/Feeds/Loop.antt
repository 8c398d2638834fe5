-- ===== src/OrderBook/Feeds/Loop.antt =====
-- The events of the matching loop lead to the book behind it.
use exchange_and_feed_handle.Base.{
  ℕ, zero, suc, ◌<◌, min, ◌≡◌, sym, ap, ◌∙◌, true, ◌&&◌, inl, inr, List, [], ◌∷◌, ◌++◌,
  append_assoc, append-nil, arith, ltb, Bool-cases,
}
use mathlib.Core.Path.{subst}
use exchange_and_feed_handle.Base.Int.{ℤ}
use exchange_and_feed_handle.Base.Run.{ok}
use exchange_and_feed_handle.Types.{Side, MdEvent}
use exchange_and_feed_handle.OrderBook.State.{OrderBook, MatchOutput, node}
use exchange_and_feed_handle.OrderBook.Nodes.{execute_head, execute_event}
use exchange_and_feed_handle.OrderBook.{match_loop, opposite, crosses}
use exchange_and_feed_handle.OrderBook.Queues.{Queues}
use exchange_and_feed_handle.OrderBook.Invariant.{IsBook}
use exchange_and_feed_handle.OrderBook.Invariant.Match.{execute_head-IsBook}
use exchange_and_feed_handle.OrderBook.Invariant.Loop.{match_round-IsFront}
use exchange_and_feed_handle.OrderBook.Totals.{plain}
use exchange_and_feed_handle.OrderBook.Feeds.{AddsOnly, Feeds, IsPositive}
use exchange_and_feed_handle.OrderBook.Feeds.Head.{execute_head-Fed, execute_head-IsPositive}

-- What a run of the loop adds to the output: events that lead to the book behind it.
pub record Follows (b : OrderBook) (out : MatchOutput) (c : OrderBook) (res : MatchOutput)
    : Type 0 where
  pub events : List MdEvent
  pub added : res.md_events ≡ out.md_events ++ events
  pub feeds : Feeds b events c
  pub positive : IsPositive c
  pub accepted : res.reject ≡ out.reject
  pub adds : (id : ℕ) → AddsOnly id events

pub match_loop-Follows :
    (fuel : ℕ) (b : OrderBook) (q : Queues) (seq order_id : ℕ) (side : Side) (price : ℤ)
    (out : MatchOutput) (c : OrderBook) (res : MatchOutput)
    → IsBook b q
    → IsPositive b
    → match_loop fuel seq order_id side price (b, out) ≡ ok (c, res)
    → Follows b out c res
unfolding match_loop execute_head
match_loop-Follows zero b q seq order_id side price out c res v pos e = cc
match_loop-Follows (suc fuel) b q seq order_id side price out c res v pos e =
    elim (Bool-cases (ltb 0 out.remaining_qty && crosses b side price)) [
      | inr done ↦
          let stop = rw (done, match_loop) at e in
          let same_book : b ≡ c = cc in
          let same_out : out ≡ res = cc in
          record {
            events = [];
            added = ap (λ o. o.md_events) (sym same_out) ∙ sym (append-nil out.md_events);
            feeds = ap (λ x. plain x) same_book;
            positive = subst (λ x. IsPositive x) same_book pos;
            accepted = ap (λ o. o.reject) (sym same_out);
            adds = λ id. tt;
          }
      | inl more ↦
          let cross : crosses b side price ≡ true = ground arith in
          let wants : 0 < out.remaining_qty = ground arith in
          let (i, k, front, good, round) =
            match_round-IsFront b q seq order_id side price out v cross in
          let m = front.queued in
          let (q', v', _) = execute_head-IsBook b q v seq (opposite side) i k m out order_id in
          let fed = execute_head-Fed b q v pos seq (opposite side) i k m out order_id wants in
          let pos' =
            execute_head-IsPositive b q v pos seq (opposite side) i k m out order_id wants in
          let c' = (execute_head b seq (opposite side) i k out order_id).0 in
          let out' = (execute_head b seq (opposite side) i k out order_id).1 in
          let ev = execute_event b seq (node b k) (min (node b k).qty out.remaining_qty) in
          let rest =
            match_loop-Follows fuel c' q' seq order_id side price out' c res v' pos'
              (rw (more, round, match_loop) at e) in
          record {
            events = ev ∷ rest.events;
            added = rest.added ∙ append_assoc out.md_events (ev ∷ []) rest.events;
            feeds = (c', fed, rest.feeds);
            positive = rest.positive;
            accepted = rest.accepted;
            adds = λ id. ((λ e. cc), rest.adds id);
          }
    ]
