-- ===== src/OrderBook/Invariant/Match.antt =====
-- One round of the matching loop: it keeps the invariant, conserves quantity, and trades at the best price.
use exchange_and_feed_handle.Base.{
  ℕ, ◌+◌, ◌-◌, ◌%◌, ◌^◌, ◌<◌, min, ◌≡◌, refl, ap, ◌∙◌, Bool, true, ◌⊎◌, inl, inr, none, List, [],
  ◌∷◌, ◌++◌, arith, ◌==◌, if◌then◌else◌, length, length-set, All, All-append, Bool-cases,
}
use exchange_and_feed_handle.Base.Int.{ℤ, pos, ◌+ℤ◌, leb_ℤ}
use exchange_and_feed_handle.Base.Map.{lookup, erase, size, lookup-erase, size-erase_lt}
use exchange_and_feed_handle.Types.{Side, MdType, Trade, is_buy}
use exchange_and_feed_handle.OrderBook.State.{
  OrderBook, MatchOutput, node, put_level, put_node, empty_node, level_for,
}
use exchange_and_feed_handle.OrderBook.Nodes.{execute_head, remove_node, unlink, trade_of}
use exchange_and_feed_handle.OrderBook.Nodes.Chain.{mem}
use exchange_and_feed_handle.OrderBook.Nodes.Frame.{
  SameBand, SameBand-trans, SameBand-put_level, SameBand-remove_node,
}
use exchange_and_feed_handle.OrderBook.Queues.{Queues, without, Shrinks, nonempty-without}
use exchange_and_feed_handle.OrderBook.Invariant.{IsBook}
use exchange_and_feed_handle.OrderBook.Invariant.Unlink.{length-unlink}
use exchange_and_feed_handle.OrderBook.Invariant.Remove.{remove_node-IsBook, remove_node-eq}
use exchange_and_feed_handle.OrderBook.Invariant.Reduce.{reduced_book, reduced_book-IsBook}

-- The quantity of some trades.
abbrev pub traded : List Trade → ℕ
traded [] = 0
traded (t ∷ ts) = t.qty + traded ts

traded-append : (ts us : List Trade) → traded (ts ++ us) ≡ traded ts + traded us
traded-append [] us = omega arith
traded-append (t ∷ ts) us = omega (arith, traded-append ts us)

-- A price that an order on `side` with the limit `price` accepts.
abbrev pub within : Side → ℤ → ℤ → Bool
within side price p = if is_buy side then leb_ℤ p price else leb_ℤ price p

-- What matching does to a book and the output.
pub record IsMatch (side : Side) (price : ℤ) (b : OrderBook) (out : MatchOutput) (c : OrderBook)
    (res : MatchOutput) : Type 0 where
  pub band : SameBand b c
  pub pool : length c.nodes ≡ length b.nodes
  pub ids : (id : ℕ) → lookup id b.index ≡ none → lookup id c.index ≡ none
  pub conserved : res.remaining_qty + traded res.trades ≡ out.remaining_qty + traded out.trades
  pub limits :
      All (λ (t : Trade). within side price t.price ≡ true) out.trades
      → All (λ (t : Trade). within side price t.price ≡ true) res.trades

pub IsMatch-refl :
    (side : Side) (price : ℤ) (b : OrderBook) (out : MatchOutput) → IsMatch side price b out b out
IsMatch-refl side price b out = record {
  band = record { symbol = refl; low = refl; high = refl; levels = refl };
  pool = refl;
  ids = λ id p. p;
  conserved = refl;
  limits = λ a. a;
}

pub IsMatch-trans :
    {side : Side} {price : ℤ} {b c d : OrderBook} {o p r : MatchOutput}
    → IsMatch side price b o c p
    → IsMatch side price c p d r
    → IsMatch side price b o d r
IsMatch-trans m n = record {
  band = SameBand-trans m.band n.band;
  pool = n.pool ∙ m.pool;
  ids = λ id p. n.ids id (m.ids id p);
  conserved = n.conserved ∙ m.conserved;
  limits = λ a. n.limits (m.limits a);
}

-- The parts of a book after a partial execution.
reduced_parts :
    (b : OrderBook) (side : Side) (i k qty total : ℕ)
    → ((reduced_book b side i k qty total).index ≡ b.index)
      × ((reduced_book b side i k qty total).free ≡ b.free)
unfolding put_level
reduced_parts b side i k qty total = elim (Bool-cases (is_buy side)) [
  | inl buy ↦ rw buy (refl, refl)
  | inr sell ↦ rw sell (refl, refl)
]

reduced_pool :
    (b : OrderBook) (side : Side) (i k qty total : ℕ)
    → length (reduced_book b side i k qty total).nodes ≡ length b.nodes
unfolding put_level
reduced_pool b side i k qty total = elim (Bool-cases (is_buy side)) [
  | inl buy ↦ rw buy (length-set b.nodes k _)
  | inr sell ↦ rw sell (length-set b.nodes k _)
]

pub reduced_band :
    (b : OrderBook) (side : Side) (i k qty total : ℕ)
    → SameBand b (reduced_book b side i k qty total)
reduced_band b side i k qty total =
    SameBand-trans (record { symbol = refl; low = refl; high = refl; levels = refl })
      (SameBand-put_level (put_node b k (record (node b k) { qty = qty })) side i _)

-- The index and the pool after `remove_node`.
pub remove_node-parts :
    (b : OrderBook) (seq k removed : ℕ) (type : MdType)
    → ((remove_node b seq k removed type).0.index ≡ erase (node b k).order_id b.index)
      × (length (remove_node b seq k removed type).0.nodes ≡ length b.nodes)
remove_node-parts b seq k removed type =
    rw (remove_node-eq b seq k removed type)
      (refl, length-set (unlink b (node b k)).nodes k empty_node ∙ length-unlink b (node b k))

-- The node `k`, of the queue of `side` and level `i`, is executed against what is left of an order.
module _ (b : OrderBook) (q : Queues) (v : IsBook b q) (seq : ℕ) (side : Side) (i k : ℕ)
    (m : mem k (q (is_buy side) i) ≡ true) (out : MatchOutput) (aggressor : ℕ) where
  abbrev exec_qty : ℕ
  exec_qty = min (node b k).qty out.remaining_qty

  abbrev total : ℕ
  total = ((level_for b side i).total_qty + 2 ^ 32 - exec_qty) % 2 ^ 32

  abbrev reduced : OrderBook
  reduced = reduced_book b side i k ((node b k).qty - exec_qty) total

  reduced-IsBook : IsBook reduced q
  reduced-IsBook = reduced_book-IsBook b q side i k ((node b k).qty - exec_qty) total v

  abbrev res : OrderBook × MatchOutput
  res = execute_head b seq side i k out aggressor

  pub execute_head-IsBook : (q' : Queues) × IsBook res.0 q' × Shrinks q q'
  unfolding execute_head
  execute_head-IsBook = elim (Bool-cases ((node b k).qty - exec_qty == 0)) [
    | inl gone ↦ (
      λ t j. without k (q t j),
      rw gone
          (remove_node-IsBook reduced q (is_buy side) i k seq 0 MdType.execute reduced-IsBook m),
      λ t j e. nonempty-without k (q t j) e,
    )
    | inr left ↦ (q, rw left reduced-IsBook, λ t j e. e)
  ]

  -- Either the resting order has left the book, or nothing is left of the incoming one.
  pub execute_head_progress : (size res.0.index < size b.index) ⊎ (res.1.remaining_qty ≡ 0)
  unfolding execute_head
  execute_head_progress = elim (Bool-cases ((node b k).qty - exec_qty == 0)) [
    | inl gone ↦
        let live = reduced-IsBook.indexed.indexed (is_buy side) i k m in
        let less = size-erase_lt (node reduced k).order_id k reduced.index live in
        let same = (reduced_parts b side i k ((node b k).qty - exec_qty) total).0 in
        inl (
          rw (gone, (remove_node-parts reduced seq k 0 MdType.execute).0)
            (omega (arith, less, ap (λ x. size x) same)))
    | inr left ↦ inr (ground arith)
  ]

  pub execute_head-IsMatch :
      (taker : Side) (price : ℤ)
      → within taker price (b.min_price +ℤ pos i) ≡ true
      → IsMatch taker price b out res.0 res.1
  unfolding execute_head
  execute_head-IsMatch taker price good = record {
    band = elim (Bool-cases ((node b k).qty - exec_qty == 0)) [
      | inl gone ↦
          rw gone (SameBand-trans kept_band (SameBand-remove_node reduced seq k 0 MdType.execute))
      | inr left ↦ rw left kept_band
    ];
    pool = elim (Bool-cases ((node b k).qty - exec_qty == 0)) [
      | inl gone ↦ rw gone ((remove_node-parts reduced seq k 0 MdType.execute).1 ∙ kept_pool)
      | inr left ↦ rw left kept_pool
    ];
    ids = λ id p. elim (Bool-cases ((node b k).qty - exec_qty == 0)) [
      | inl gone ↦
          rw
            (
              gone,
              (remove_node-parts reduced seq k 0 MdType.execute).0,
              lookup-erase (node reduced k).order_id id reduced.index,
              kept_index,
              p,
            )
            (ground arith)
      | inr left ↦ rw (left, kept_index) p
    ];
    conserved =
        omega (arith, traded-append out.trades (trade_of b seq (node b k) aggressor exec_qty ∷ []));
    limits = λ a.
        All-append (λ (t : Trade). within taker price t.price ≡ true) out.trades
          (trade_of b seq (node b k) aggressor exec_qty ∷ []) a (rw priced good, tt);
  }
    where
      kept_band : SameBand b reduced
      kept_band = reduced_band b side i k ((node b k).qty - exec_qty) total

      kept_pool : length reduced.nodes ≡ length b.nodes
      kept_pool = reduced_pool b side i k ((node b k).qty - exec_qty) total

      kept_index : reduced.index ≡ b.index
      kept_index = (reduced_parts b side i k ((node b k).qty - exec_qty) total).0

      priced : (node b k).price ≡ b.min_price +ℤ pos i
      priced = (v.linked.home (is_buy side) i k m).price
