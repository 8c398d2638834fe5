-- ===== src/OrderBook/Feeds/Commands.antt =====
-- The events of a new order lead to the book behind it.
use exchange_and_feed_handle.Base.{
  ℕ, suc, ◌<◌, ◌≡◌, refl, sym, ap, ◌∙◌, true, false, ◌&&◌, inl, inr, [], ◌++◌, arith, ◌==◌, ltb,
  length, Bool-cases,
}
use mathlib.Core.Path.{subst}
use exchange_and_feed_handle.Base.Int.{ℤ}
use exchange_and_feed_handle.Base.Map.{size}
use exchange_and_feed_handle.Base.Run.{Run, ok, ◌>>=◌}
use exchange_and_feed_handle.Types.{Side, TimeInForce, is_gtc}
use exchange_and_feed_handle.OrderBook.State.{OrderBook, MatchOutput, null, price_in_band, contains}
use exchange_and_feed_handle.OrderBook.Nodes.Frame.{price_in_band-same}
use exchange_and_feed_handle.OrderBook.{add_order, match_loop, rest_remainder, empty_output}
use exchange_and_feed_handle.OrderBook.Invariant.Operations.{IsSound, IsBand-same}
use exchange_and_feed_handle.OrderBook.Invariant.Loop.{match_loop-returns}
use exchange_and_feed_handle.OrderBook.Invariant.RestOrder.{lookup_of_contains}
use exchange_and_feed_handle.OrderBook.Invariant.AddOrder.{contains_of_absent}
use exchange_and_feed_handle.OrderBook.Feeds.{
  AddsOnly, AddsOnly-append, Feeds, Feeds-append, IsPositive,
}
use exchange_and_feed_handle.OrderBook.Feeds.Loop.{Follows, match_loop-Follows}
use exchange_and_feed_handle.OrderBook.Feeds.Rest.{rest_order-Fed, rest_order-IsPositive}

-- The events of `out` lead from `b` to `c`, and add no order but `id`.
pub record Leads (b : OrderBook) (id : ℕ) (c : OrderBook) (out : MatchOutput) : Type 0 where
  pub feeds : Feeds b out.md_events c
  pub adds : AddsOnly id out.md_events
  pub positive : IsPositive c

pub Leads-refl :
    (b : OrderBook) (id : ℕ) (out : MatchOutput)
    → IsPositive b
    → out.md_events ≡ []
    → Leads b id b out
Leads-refl b id out pos e = record { feeds = rw e refl; adds = rw e tt; positive = pos }

-- The rest of an order after the matching.
rest_remainder-Leads :
    (b d : OrderBook) (seq id account : ℕ) (side : Side) (price : ℤ) (tif : TimeInForce)
    (start res : MatchOutput)
    → IsSound d
    → start.md_events ≡ []
    → Follows b start d res
    → price_in_band d price ≡ true
    → contains d id ≡ false
    → length d.nodes < null
    → Leads b id
        (rest_remainder seq id account side price tif (d, res)).0
        (rest_remainder seq id account side price tif (d, res)).1
unfolding rest_remainder
rest_remainder-Leads b d seq id account side price tif start res s none_sent f inside fresh room =
    let sent : res.md_events ≡ f.events = f.added ∙ ap (λ l. l ++ f.events) none_sent in
    elim (Bool-cases (ltb 0 res.remaining_qty && is_gtc tif)) [
      | inr kept ↦
          rw (kept, rest_remainder)
            (record { feeds = rw sent f.feeds; adds = rw sent (f.adds id); positive = f.positive })
      | inl rests ↦
          let left : (res.remaining_qty == 0) ≡ false = ground arith in
          let fed =
            rest_order-Fed d id account side price res.remaining_qty s f.positive left inside fresh
              room seq in
          rw (rests, rest_remainder)
            (record {
              feeds = rw sent (Feeds-append b f.events _ d _ f.feeds (_, fed, refl));
              adds = rw sent (AddsOnly-append id f.events _ (f.adds id) ((λ e. refl), tt));
              positive =
                  rest_order-IsPositive d id account side price res.remaining_qty s f.positive left
                    inside fresh room;
            })
    ]

-- On a sound book with room, where every live order has something left: the events of `add_order`,
-- whatever the order is, lead to the book behind it.
pub add_order-Leads :
    (b : OrderBook) (seq id account : ℕ) (side : Side) (price : ℤ) (qty : ℕ) (tif : TimeInForce)
    (c : OrderBook) (out : MatchOutput)
    → IsSound b
    → IsPositive b
    → length b.nodes < null
    → add_order b seq id account side price qty tif ≡ ok (c, out)
    → Leads b id c out
unfolding add_order
add_order-Leads b seq id account side price qty tif c out s pos room e =
    elim (Bool-cases (qty == 0)) [
      | inl nil ↦ rejected (rw (nil, add_order) at e) refl
      | inr asked ↦ elim (Bool-cases (price_in_band b price)) [
        | inr outside ↦ rejected (rw (asked, outside, add_order) at e) refl
        | inl inside ↦ elim (Bool-cases (contains b id)) [
          | inl dup ↦ rejected (rw (asked, inside, dup, add_order) at e) refl
          | inr fresh ↦ matched asked inside fresh (rw (asked, inside, fresh, add_order) at e)
        ]
      ]
    ]
  where
    rejected :
        {o : MatchOutput}
        → ◌≡◌ {A = Run (OrderBook × MatchOutput)} (ok (b, o)) (ok (c, out))
        → o.md_events ≡ []
        → Leads b id c out
    rejected {o} same none_sent =
        let book : b ≡ c = cc in
        let sent : o ≡ out = cc in
        subst (λ x. Leads b id x out) book
          (Leads-refl b id out pos (ap (λ x. x.md_events) (sym sent) ∙ none_sent))

    start : MatchOutput
    start = record empty_output { remaining_qty = qty }

    matched :
        (qty == 0) ≡ false
        → price_in_band b price ≡ true
        → contains b id ≡ false
        → (match_loop (suc (size b.index)) seq id side price (b, start) >>= λ m.
            ok (rest_remainder seq id account side price tif m))
          ≡ ok (c, out)
        → Leads b id c out
    matched asked inside fresh run =
        let none_there = lookup_of_contains b id fresh in
        let (d, res, q, ran, v, _, m, _) =
          match_loop-returns (suc (size b.index)) b s.queues seq id side price start s.book
            (inl (omega arith)) in
        let f =
          match_loop-Follows (suc (size b.index)) b s.queues seq id side price start d res s.book
            pos ran in
        let sound : IsSound d = record { band = IsBand-same m.band s.band; queues = q; book = v } in
        let run' = rw ran at run in
        let same : rest_remainder seq id account side price tif (d, res) ≡ (c, out) = cc in
        let lead =
          rest_remainder-Leads b d seq id account side price tif start res sound refl f
            (price_in_band-same price m.band ∙ inside)
            (contains_of_absent d id (m.ids id none_there)) (omega (arith, m.pool)) in
        rw same at lead
