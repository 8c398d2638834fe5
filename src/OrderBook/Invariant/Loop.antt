-- ===== src/OrderBook/Invariant/Loop.antt =====
-- The matching loop ends, keeps the invariant, and trades at prices that the order accepts.
use exchange_and_feed_handle.Base.{
  ℕ, zero, suc, ◌<◌, ◌≡◌, refl, sym, Bool, true, false, ◌&&◌, ◌⊎◌, inl, inr, some, List, [], ◌∷◌,
  arith, ltb, get_or, Bool-cases, Option-cases,
}
use exchange_and_feed_handle.Base.Int.{ℤ, pos, ◌+ℤ◌}
use exchange_and_feed_handle.Base.Map.{size, size-erase_lt}
use exchange_and_feed_handle.Base.Run.{ok}
use exchange_and_feed_handle.Types.{Side, is_buy}
use exchange_and_feed_handle.OrderBook.State.{
  OrderBook, Half, MatchOutput, null, empty_level, level_for, index_to_price,
}
use exchange_and_feed_handle.OrderBook.Nodes.{execute_head}
use exchange_and_feed_handle.OrderBook.Nodes.Chain.{at, mem, first}
use exchange_and_feed_handle.OrderBook.{match_round, match_loop, opposite, crosses}
use exchange_and_feed_handle.OrderBook.Queues.{Queues, nonempty, Shrinks}
use exchange_and_feed_handle.OrderBook.Invariant.{IsLadder, IsBest, IsBook}
use exchange_and_feed_handle.OrderBook.Invariant.Match.{
  within, IsMatch, IsMatch-refl, IsMatch-trans, execute_head-IsBook, execute_head_progress,
  execute_head-IsMatch,
}

mem-first : (l : List ℕ) (n : ℕ) → nonempty l ≡ true → mem (first l n) l ≡ true
mem-first [] n h = cc
mem-first (k ∷ l) n h = ground arith

-- The node `k` is the front of the queue of the best level, `i`, of the side `buy`: it has the best price
-- of the side, and of the orders with that price it came first.
pub record IsFront (q : Queues) (buy : Bool) (i k : ℕ) : Type 0 where
  pub best : IsBest buy (λ j. nonempty (q buy j)) (some i)
  pub front : first (q buy i) null ≡ k
  pub queued : mem k (q buy i) ≡ true

-- The head of the best level is the front.
best_head :
    (n : ℕ) (buy : Bool) (h : Half) (q : Queues) (i : ℕ)
    → IsLadder n buy h (q buy)
    → h.best_idx ≡ some i
    → IsFront q buy i (get_or h.levels i empty_level).head
best_head n buy h q i v e =
    let best = rw e at v.best in
    let used = best_used buy best in
    let inside : i < n = elim (Bool-cases (ltb i n)) [
      | inl lt ↦ ground arith
      | inr ge ↦ cc (rw (v.outside i (ground arith)) at used)
    ] in
    let head = (v.ends i inside).head in
    record { best = best; front = sym head; queued = rw head (mem-first (q buy i) null used) }
  where
    best_used : (s : Bool) → IsBest s (λ j. nonempty (q buy j)) (some i) → nonempty (q buy i) ≡ true
    best_used true p = p.0
    best_used false p = p.0

-- When an order crosses a book whose parts describe the queues `q`, a round of the matching loop
-- executes against it the front of the other side, the first order of the best level that has one, at
-- a price that the order accepts.
pub match_round-IsFront :
    (b : OrderBook) (q : Queues) (seq order_id : ℕ) (side : Side) (price : ℤ) (out : MatchOutput)
    → IsBook b q
    → crosses b side price ≡ true
    → (i : ℕ) × (k : ℕ) × IsFront q (is_buy (opposite side)) i k
      × (within side price (b.min_price +ℤ pos i) ≡ true)
      × (match_round seq order_id side (b, out)
          ≡ execute_head b seq (opposite side) i k out order_id)
unfolding match_round crosses index_to_price level_for
match_round-IsFront b q seq order_id side price out v c = elim (Bool-cases (is_buy side)) [
  | inl buy ↦ elim (Option-cases b.asks.best_idx) [
    | inl none_left ↦ cc (rw (buy, none_left, crosses) at c)
    | inr (i, e) ↦ (
      i,
      (get_or b.asks.levels i empty_level).head,
      rw buy (best_head b.level_count false b.asks q i v.asks e),
      rw buy (rw (buy, e, crosses) at c),
      ground arith,
    )
  ]
  | inr sell ↦ elim (Option-cases b.bids.best_idx) [
    | inl none_left ↦ cc (rw (sell, none_left, crosses) at c)
    | inr (i, e) ↦ (
      i,
      (get_or b.bids.levels i empty_level).head,
      rw sell (best_head b.level_count true b.bids q i v.bids e),
      rw sell (rw (sell, e, crosses) at c),
      ground arith,
    )
  ]
]

fuel_left :
    (s s' r' fuel : ℕ)
    → s < suc fuel
    → 0 < s
    → (s' < s) ⊎ (r' ≡ 0)
    → (s' < fuel) ⊎ ((r' ≡ 0) × (0 < fuel))
fuel_left s s' r' fuel h p (inl less) = inl (omega arith)
fuel_left s s' r' fuel h p (inr none_left) = inr (none_left, omega arith)

-- The loop ends if the fuel is more than the number of live orders.
pub match_loop-returns :
    (fuel : ℕ) (b : OrderBook) (q : Queues) (seq order_id : ℕ) (side : Side) (price : ℤ)
    (out : MatchOutput)
    → IsBook b q
    → (size b.index < fuel) ⊎ ((out.remaining_qty ≡ 0) × (0 < fuel))
    → (c : OrderBook) × (res : MatchOutput) × (q' : Queues) × (match_loop fuel seq order_id side
          price
          (b, out)
        ≡ ok (c, res))
      × IsBook c q'
      × Shrinks q q'
      × IsMatch side price b out c res
      × ((ltb 0 res.remaining_qty && crosses c side price) ≡ false)
unfolding match_loop
match_loop-returns zero b q seq order_id side price out v h = absurd (ground arith)
match_loop-returns (suc fuel) b q seq order_id side price out v h =
    elim (Bool-cases (ltb 0 out.remaining_qty && crosses b side price)) [
      | inr done ↦ (
        b,
        out,
        q,
        rw (done, match_loop) refl,
        v,
        (λ t j p. p),
        IsMatch-refl side price b out,
        done,
      )
      | inl more ↦
          let cross : crosses b side price ≡ true = ground arith in
          let (i, k, front, good, e) =
            match_round-IsFront b q seq order_id side price out v cross in
          let m = front.queued in
          let (q', v', fewer) = execute_head-IsBook b q v seq (opposite side) i k m out order_id in
          let step =
            execute_head-IsMatch b q v seq (opposite side) i k m out order_id side price good in
          let progress = execute_head_progress b q v seq (opposite side) i k m out order_id in
          let room : size b.index < suc fuel = elim h [
            | inl p ↦ p
            | inr (p, _) ↦ absurd (ground arith)
          ] in
          let live = v.indexed.indexed (is_buy (opposite side)) i k m in
          let some_live : 0 < size b.index =
            omega (arith, size-erase_lt (at b.nodes k).order_id k b.index live) in
          let (c', out') = execute_head b seq (opposite side) i k out order_id in
          let (c, res, q'', ran, w, fewer', rest, done) =
            match_loop-returns fuel c' q' seq order_id side price out' v' (
              fuel_left (size b.index) (size c'.index) out'.remaining_qty fuel room some_live
                progress) in
          (
            c,
            res,
            q'',
            rw (more, e, match_loop) ran,
            w,
            (λ t j p. fewer' t j (fewer t j p)),
            IsMatch-trans {d = c} {r = res} step rest,
            done,
          )
    ]
