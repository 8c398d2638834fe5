-- ===== src/OrderBook/Invariant/AddOrder.antt =====
-- `add_order` returns, keeps the invariant and an uncrossed book, and accounts for its quantity.
use exchange_and_feed_handle.Base.{
  ℕ, suc, ◌+◌, ◌-◌, ◌≤◌, ◌<◌, ◌≡◌, refl, ◌∙◌, true, false, ◌&&◌, inl, inr, Option, none, some,
  arith, ◌==◌, ltb, if◌then◌else◌, length, Bool-cases, All,
}
use exchange_and_feed_handle.Base.Int.{ℤ}
use exchange_and_feed_handle.Base.Map.{lookup, size, contains as has_key}
use exchange_and_feed_handle.Base.Run.{ok}
use exchange_and_feed_handle.Types.{Side, TimeInForce, Trade, is_buy, is_gtc}
use exchange_and_feed_handle.OrderBook.State.{
  OrderBook, Node, MatchOutput, RestingOrderView, null, node, find, price_to_index, price_in_band,
  contains,
}
use exchange_and_feed_handle.OrderBook.Nodes.{new_node}
use exchange_and_feed_handle.OrderBook.Nodes.Frame.{price_in_band-same}
use exchange_and_feed_handle.OrderBook.{
  add_order, rest_order, rest_remainder, crosses, empty_output,
}
use exchange_and_feed_handle.OrderBook.Queues.{
  Queues, pushed, Shrinks, IsUncrossed, Shrinks-IsUncrossed,
}
use exchange_and_feed_handle.OrderBook.Invariant.{IsBook}
use exchange_and_feed_handle.OrderBook.Invariant.Unlink.{contents}
use exchange_and_feed_handle.OrderBook.Invariant.Band.{IsBand}
use exchange_and_feed_handle.OrderBook.Invariant.RestOrder.{
  rest_order-Joins, rest_order-band, length-rest_order, lookup_of_contains,
}
use exchange_and_feed_handle.OrderBook.Invariant.Match.{IsMatch, within, traded}
use exchange_and_feed_handle.OrderBook.Invariant.Loop.{match_loop-returns}
use exchange_and_feed_handle.OrderBook.Invariant.Operations.{IsSound, IsBand-same}
use exchange_and_feed_handle.OrderBook.Invariant.Crossing.{pushed-IsUncrossed}

-- A sound book in which no bid is at the level of an ask or above.
pub record IsSettled (b : OrderBook) : Type 0 where
  pub sound : IsSound b
  pub uncrossed : IsUncrossed sound.queues

-- The quantity that the order `id` has in the book.
abbrev pub view_qty : Option RestingOrderView → ℕ
view_qty none = 0
view_qty (some view) = view.qty

abbrev pub resting : OrderBook → ℕ → ℕ
resting b id = view_qty (find b id)

resting_absent : (b : OrderBook) (id : ℕ) → lookup id b.index ≡ none → resting b id ≡ 0
unfolding find
resting_absent b id e = rw (e, find) refl

pub contains_of_absent : (b : OrderBook) (id : ℕ) → lookup id b.index ≡ none → contains b id ≡ false
unfolding contains has_key
contains_of_absent b id e = rw (e, contains, has_key) refl

resting-node :
    (b : OrderBook) (id k : ℕ) (n : Node)
    → lookup id b.index ≡ some k
    → contents (node b k) ≡ contents n
    → n.active ≡ true
    → resting b id ≡ n.qty
unfolding find
resting-node b id k n e same live =
    let active : (node b k).active ≡ true = ground arith in rw (e, active, find) (ground arith)

-- What an accepted order leaves: the book, and an account of its quantity.
pub record IsFilled (b : OrderBook) (id : ℕ) (side : Side) (price : ℤ) (qty : ℕ) (tif : TimeInForce)
    (c : OrderBook) (out : MatchOutput) : Type 0 where
  pub settled : IsSettled c
  pub pool : length c.nodes ≤ length b.nodes + 1
  pub account : out.remaining_qty + traded out.trades + resting c id ≡ qty
  pub rests : resting c id ≡ (if is_gtc tif then qty - traded out.trades else 0)
  pub limits : All (λ (t : Trade). within side price t.price ≡ true) out.trades

-- The book `c` and the output `res` of the matching loop, for an accepted order on the book `b`.
module _ (b : OrderBook) (s : IsSettled b) (id account : ℕ) (side : Side) (price : ℤ) (qty : ℕ)
    (room : length b.nodes < null) (inside : price_in_band b price ≡ true)
    (fresh : lookup id b.index ≡ none) where
  abbrev start : MatchOutput
  start = record empty_output { remaining_qty = qty }

  module _ (c : OrderBook) (res : MatchOutput) (q : Queues) (v : IsBook c q)
      (fewer : Shrinks s.sound.queues q) (m : IsMatch side price b start c res)
      (done : (ltb 0 res.remaining_qty && crosses c side price) ≡ false) where
    matched-IsUncrossed : IsUncrossed q
    matched-IsUncrossed = Shrinks-IsUncrossed s.sound.queues q fewer s.uncrossed

    matched-IsBand : IsBand c
    matched-IsBand = IsBand-same m.band s.sound.band

    rest_remainder-IsFilled :
        (seq : ℕ) (tif : TimeInForce)
        → IsFilled b id side price qty tif
            (rest_remainder seq id account side price tif (c, res)).0
            (rest_remainder seq id account side price tif (c, res)).1
    unfolding rest_remainder
    rest_remainder-IsFilled seq tif = elim (Bool-cases (ltb 0 res.remaining_qty && is_gtc tif)) [
      | inr kept ↦
          rw (kept, rest_remainder)
            (record {
              settled = record {
                sound = record { band = matched-IsBand; queues = q; book = v };
                uncrossed = matched-IsUncrossed;
              };
              pool = omega (arith, m.pool);
              account = omega (arith, m.conserved, resting_absent c id (m.ids id fresh));
              rests = elim (Bool-cases (is_gtc tif)) [
                | inl gtc ↦
                    let none_left : res.remaining_qty ≡ 0 = ground arith in
                    rw gtc (omega (arith, m.conserved, resting_absent c id (m.ids id fresh)))
                | inr ioc ↦ rw ioc (resting_absent c id (m.ids id fresh))
              ];
              limits = m.limits tt;
            })
      | inl rests ↦
          rw (rests, rest_remainder)
            (let no_cross : crosses c side price ≡ false = ground arith in
              let inside' : price_in_band c price ≡ true =
                price_in_band-same price m.band ∙ inside in
              let fresh' = contains_of_absent c id (m.ids id fresh) in
              let room' : length c.nodes < null = omega (arith, m.pool) in
              let (k, (w, found, same, _)) =
                rest_order-Joins c q v matched-IsBand id account side price res.remaining_qty
                  inside' fresh' room' in
              let rested = rest_order c id account side price res.remaining_qty in
              let amount : resting rested id ≡ res.remaining_qty =
                resting-node rested id k (new_node c id account side price res.remaining_qty) found
                  same refl in
              record {
                settled = record {
                  sound = record {
                    band =
                        IsBand-same (rest_order-band c id account side price res.remaining_qty)
                          matched-IsBand;
                    queues = pushed q (is_buy side) (price_to_index c price) k;
                    book = w;
                  };
                  uncrossed =
                      pushed-IsUncrossed c q side price k v matched-IsBand inside' no_cross
                        matched-IsUncrossed;
                };
                pool =
                    omega
                      (arith, m.pool, length-rest_order c id account side price res.remaining_qty);
                account = omega (arith, m.conserved, amount);
                rests =
                    let gtc : is_gtc tif ≡ true = ground arith in
                    rw gtc (omega (arith, m.conserved, amount));
                limits = m.limits tt;
              })
    ]

-- On a settled book with fewer nodes than `null`, an order of a positive quantity at a price in the
-- band, under an id that is not live, is matched: `add_order` returns, and the book is settled again,
-- with at most one node more. The quantities traded, resting in the book under the order's id and left
-- over make up the quantity asked for; what is not traded rests if the order is GTC, and nothing rests
-- if it is not. Every trade is at a price that the order accepts.
pub add_order-IsFilled :
    (b : OrderBook) (seq id account : ℕ) (side : Side) (price : ℤ) (qty : ℕ) (tif : TimeInForce)
    → IsSettled b
    → length b.nodes < null
    → 0 < qty
    → price_in_band b price ≡ true
    → contains b id ≡ false
    → (c : OrderBook) × (out : MatchOutput) × (add_order b seq id account side price qty tif
        ≡ ok (c, out))
      × IsFilled b id side price qty tif c out
unfolding add_order
add_order-IsFilled b seq id account side price qty tif s room some_qty inside fresh =
    let none_there = lookup_of_contains b id fresh in
    let (c, res, q, ran, v, fewer, m, done) =
      match_loop-returns (suc (size b.index)) b s.sound.queues seq id side price
        (record empty_output { remaining_qty = qty }) s.sound.book (inl (omega arith)) in
    let asked : (qty == 0) ≡ false = ground arith in
    (
      _,
      _,
      rw (asked, inside, fresh, add_order, ran) refl,
      rest_remainder-IsFilled b s id account side price qty room inside none_there c res q v fewer m
          done seq tif,
    )
