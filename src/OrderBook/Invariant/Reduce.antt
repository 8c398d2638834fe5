-- ===== src/OrderBook/Invariant/Reduce.antt =====
-- A partial execution keeps the invariant: it changes a quantity and a level's total only.
use exchange_and_feed_handle.Base.{
  ℕ, ◌≤◌, ◌≡◌, ap, ◌∙◌, Bool, true, false, inl, inr, List, [], ◌∷◌, arith, ◌==◌, ltb, length, set,
  get_or, get_or-set, length-set, Bool-cases, ◌&&◌,
}
use exchange_and_feed_handle.Base.Int.{ℤ}
use exchange_and_feed_handle.Base.Map.{Map}
use exchange_and_feed_handle.Types.{Side, is_buy}
use exchange_and_feed_handle.OrderBook.State.{
  OrderBook, Half, Level, Node, node, put_node, empty_level, empty_node, put_level, level_for, null,
}
use exchange_and_feed_handle.OrderBook.Nodes.Chain.{at, SameLinks, Seg-same}
use exchange_and_feed_handle.OrderBook.Queues.{Queues}
use exchange_and_feed_handle.OrderBook.Invariant.{
  IsLinked, IsIndexed, IsFree, IsEnds, IsLadder, IsBook,
}
use exchange_and_feed_handle.OrderBook.Invariant.Unlink.{InPool-length}

-- A node but for its quantity.
abbrev bare : Node → Node
bare n = record n { qty = 0 }

abbrev with_qty : List Node → ℕ → ℕ → List Node
with_qty ns k x = set ns k (record (at ns k) { qty = x })

bare-with_qty : (ns : List Node) (k x j : ℕ) → bare (at (with_qty ns k x) j) ≡ bare (at ns j)
bare-with_qty ns k x j = ground (arith, get_or-set ns k j (record (at ns k) { qty = x }) empty_node)

module _ (ns : List Node) (k x : ℕ) where
  links : (l : List ℕ) → SameLinks l ns (with_qty ns k x)
  links [] = tt
  links (j ∷ l) = (
    ap (λ n. n.prev) (bare-with_qty ns k x j),
    ap (λ n. n.next) (bare-with_qty ns k x j),
    links l,
  )

  len : length (with_qty ns k x) ≡ length ns
  len = length-set ns k _

  with_qty-IsLinked : {low : ℤ} (q : Queues) → IsLinked low ns q → IsLinked low (with_qty ns k x) q
  with_qty-IsLinked q v = record {
    chain = λ s i. Seg-same ns (with_qty ns k x) null (q s i) null (links (q s i)) (v.chain s i);
    distinct = v.distinct;
    pool = λ s i. InPool-length ns (with_qty ns k x) (q s i) len (v.pool s i);
    home = λ s i j m.
        let e = bare-with_qty ns k x j in
        let h = v.home s i j m in
        record {
          side = ap (λ n. is_buy n.side) e ∙ h.side;
          level = ap (λ n. n.level_idx) e ∙ h.level;
          live = ap (λ n. n.active) e ∙ h.live;
          price = ap (λ n. n.price) e ∙ h.price;
        };
  }

  with_qty-IsIndexed :
      (index : Map ℕ) (q : Queues) → IsIndexed ns index q → IsIndexed (with_qty ns k x) index q
  with_qty-IsIndexed index q v = record {
    indexed = λ s i j m. rw (id j) (v.indexed s i j m);
    found = λ n j p. let (e, m) = v.found n j p in (id j ∙ e, rw (side j, level j) m);
  }
    where
      id : (j : ℕ) → (at (with_qty ns k x) j).order_id ≡ (at ns j).order_id
      id j = ap (λ n. n.order_id) (bare-with_qty ns k x j)

      side : (j : ℕ) → (at (with_qty ns k x) j).side ≡ (at ns j).side
      side j = ap (λ n. n.side) (bare-with_qty ns k x j)

      level : (j : ℕ) → (at (with_qty ns k x) j).level_idx ≡ (at ns j).level_idx
      level j = ap (λ n. n.level_idx) (bare-with_qty ns k x j)

-- Another total leaves the ends of a level.
total-IsLadder :
    (n : ℕ) (buy : Bool) (h : Half) (qs : ℕ → List ℕ) (i x : ℕ)
    → IsLadder n buy h qs
    → IsLadder n buy
        (record h {
          levels = set h.levels i (record (get_or h.levels i empty_level) { total_qty = x });
        })
        qs
total-IsLadder n buy h qs i x v = record {
  size = length-set h.levels i _ ∙ v.size;
  ends = λ j lt. ends j (v.ends j lt);
  words = v.words;
  enough_bits = v.enough_bits;
  bits_bound = v.bits_bound;
  occupied = v.occupied;
  outside = v.outside;
  best = v.best;
}
  where
    level : Level
    level = record (get_or h.levels i empty_level) { total_qty = x }

    ends :
        (j : ℕ)
        → IsEnds (get_or h.levels j empty_level) (qs j)
        → IsEnds (get_or (set h.levels i level) j empty_level) (qs j)
    ends j e = elim (Bool-cases ((i == j) && ltb i (length h.levels))) [
      | inl here ↦
          let ij : i ≡ j = ground arith in
          let e' : IsEnds (get_or h.levels i empty_level) (qs j) = rw ij e in
          rw (get_or-set h.levels i j level empty_level, here)
            (record { head = e'.head; tail = e'.tail; count = e'.count })
      | inr there ↦ rw (get_or-set h.levels i j level empty_level, there) e
    ]

-- A book with another quantity at a node and another total at a level.
abbrev pub reduced_book : OrderBook → Side → ℕ → ℕ → ℕ → ℕ → OrderBook
reduced_book b side i k qty total =
    put_level (put_node b k (record (node b k) { qty = qty })) side i
      (record (level_for b side i) { total_qty = total })

pub reduced_book-IsBook :
    (b : OrderBook) (q : Queues) (side : Side) (i k qty total : ℕ)
    → IsBook b q
    → IsBook (reduced_book b side i k qty total) q
unfolding put_level level_for
reduced_book-IsBook b q side i k qty total v =
    let linked = with_qty-IsLinked b.nodes k qty q v.linked in
    let indexed = with_qty-IsIndexed b.nodes k qty b.index q v.indexed in
    let free : IsFree (with_qty b.nodes k qty) b.free q = record {
      distinct = v.free.distinct;
      pool = InPool-length b.nodes (with_qty b.nodes k qty) b.free (len b.nodes k qty) v.free.pool;
      apart = v.free.apart;
    } in
    let bound : length (with_qty b.nodes k qty) ≤ null = rw (len b.nodes k qty) v.pool_bound in
    elim (Bool-cases (is_buy side)) [
      | inl buy ↦ rw buy (record {
        linked = linked;
        indexed = indexed;
        free = free;
        bids = total-IsLadder b.level_count true b.bids (q true) i total v.bids;
        asks = v.asks;
        pool_bound = bound;
      })
      | inr sell ↦ rw sell (record {
        linked = linked;
        indexed = indexed;
        free = free;
        bids = v.bids;
        asks = total-IsLadder b.level_count false b.asks (q false) i total v.asks;
        pool_bound = bound;
      })
    ]
