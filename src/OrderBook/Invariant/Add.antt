-- ===== src/OrderBook/Invariant/Add.antt =====
-- An order that comes to rest joins the back of the queue of its price.
use exchange_and_feed_handle.Base.{
  ℕ, ◌+◌, ◌^◌, ◌≤◌, ◌<◌, ◌≡◌, refl, ap, ◌∙◌, true, false, inl, inr, none, List, [], ◌∷◌, ◌++◌,
  arith, ◌==◌, if◌then◌else◌, length, set, get_or, length-set, length-append, Bool-cases,
}
use exchange_and_feed_handle.Base.Int.{pos, ◌+ℤ◌}
use exchange_and_feed_handle.Base.Map.{lookup, insert}
use exchange_and_feed_handle.Types.{Side, is_buy}
use exchange_and_feed_handle.OrderBook.State.{
  OrderBook, Half, Level, Node, node, null, empty_level, half, put_half, put_level, level_for,
  set_occupied, put_node,
}
use exchange_and_feed_handle.OrderBook.Nodes.{
  append_to_level, level_after_append, count_level, set_next,
}
use exchange_and_feed_handle.OrderBook.Nodes.Chain.{at, at-set_self, mem, last, InPool}
use exchange_and_feed_handle.OrderBook.Nodes.Frame.{SameBand, SameBand-put_half}
use exchange_and_feed_handle.OrderBook.Nodes.Links.{write_next}
use exchange_and_feed_handle.OrderBook.Queues.{
  Queues, nonempty, pushed, length-Distinct, Distinct-snoc, mem-snoc,
}
use exchange_and_feed_handle.OrderBook.Invariant.{
  IsHome, IsLinked, IsIndexed, IsFree, IsEnds, IsLadder, IsBook,
}
use exchange_and_feed_handle.OrderBook.Invariant.Unlink.{
  InPool-mem, contents, contents-write_next, length-write_next,
}
use exchange_and_feed_handle.OrderBook.Invariant.Ends.{real_last}
use exchange_and_feed_handle.OrderBook.Invariant.Grow.{
  grown_half, grown_half-IsLadder, level_after_append-IsEnds,
}
use exchange_and_feed_handle.OrderBook.Invariant.Push.{
  joined-IsLinked, joined-IsIndexed, joined-IsFree, length-joined,
}
use exchange_and_feed_handle.OrderBook.Invariant.Rest.{IsReady}

-- The level and the side, for a pool `ms` in which the node is linked.
fill :
    (b : OrderBook) (ms : List Node) (s : Side) (i : ℕ) (level : Level)
    → (if (get_or (half b s).levels i empty_level).count == 0
        then set_occupied (count_level (put_level (record b { nodes = ms }) s i level) s) s i
        else put_level (record b { nodes = ms }) s i level)
      ≡ record (put_half b s (grown_half (is_buy s) (half b s) i level)) { nodes = ms }
unfolding put_level set_occupied
fill b ms s i level = ground arith

link :
    (b : OrderBook) (k t : ℕ) (n : Node)
    → (if t == null then put_node b k n else set_next (put_node b k n) t k)
      ≡ record b { nodes = write_next (set b.nodes k n) t k }
link b k t n = elim (Bool-cases (t == null)) [ inl nil ↦ rw nil | inr real ↦ rw real ]

-- The book after `append_to_level`, part by part.
abbrev pub appended : OrderBook → ℕ → Node → Level → OrderBook
appended b k n level =
    record (put_half b n.side
      (grown_half (is_buy n.side) (half b n.side) n.level_idx (level_after_append level k n.qty))) {
        nodes =
            write_next (set b.nodes k (record n { prev = level.tail; next = null })) level.tail k;
      }

pub append_to_level-eq :
    (b : OrderBook) (k : ℕ)
    → append_to_level b k
      ≡ appended b k
          (node b k)
          (get_or (half b (node b k).side).levels (node b k).level_idx empty_level)
unfolding append_to_level level_for
append_to_level-eq b k =
    let n = node b k in
    let level = get_or (half b n.side).levels n.level_idx empty_level in
    let n' : Node = record n { prev = level.tail; next = null } in
    let level' = level_after_append level k n.qty in
    ap
      (λ u.
        if level.count == 0
        then set_occupied (count_level (put_level u n.side n.level_idx level') n.side) n.side
            n.level_idx
        else put_level u n.side n.level_idx level')
      (link b k level.tail n')
    ∙ fill b (write_next (set b.nodes k n') level.tail k) n.side n.level_idx level'

pub append_to_level-band : (b : OrderBook) (k : ℕ) → SameBand b (append_to_level b k)
append_to_level-band b k =
    let same = SameBand-put_half b (node b k).side _ in
    rw (append_to_level-eq b k)
      (record { symbol = same.symbol; low = same.low; high = same.high; levels = same.levels })

pub length-append_to_level :
    (b : OrderBook) (k : ℕ) → length (append_to_level b k).nodes ≡ length b.nodes
length-append_to_level b k =
    let n = node b k in
    let tail = (get_or (half b n.side).levels n.level_idx empty_level).tail in
    rw (append_to_level-eq b k) (
      length-write_next (set b.nodes k (record n { prev = tail; next = null })) tail k
      ∙ length-set b.nodes k (record n { prev = tail; next = null }))

last_real :
    (ns : List Node) (l : List ℕ) → InPool ns l → nonempty l ≡ true → (last null l == null) ≡ false
last_real ns [] p h = cc
last_real ns (x ∷ xs) p h = real_last ns x xs p

-- The book with the node `k` filled in joins it to its queue.
module _ (b : OrderBook) (q : Queues) (v : IsBook b q) (ps : List Node) (free : List ℕ) (k : ℕ)
    (w : IsReady b q (at ps k) ps free k) (inside : (at ps k).level_idx < b.level_count)
    (price : (at ps k).price ≡ b.min_price +ℤ pos (at ps k).level_idx)
    (live : (at ps k).active ≡ true) (fresh : lookup (at ps k).order_id b.index ≡ none) where
  abbrev n : Node
  n = at ps k

  abbrev ready : OrderBook
  ready = record b { nodes = ps; free = free; index = insert n.order_id k b.index }

  abbrev level : Level
  level = get_or (half b n.side).levels n.level_idx empty_level

  home : IsHome b.min_price (is_buy n.side) n.level_idx (at ps k)
  home = record { side = refl; level = refl; live = live; price = price }

  ladder : IsLadder b.level_count (is_buy n.side) (half b n.side) (q (is_buy n.side))
  ladder = elim (Bool-cases (is_buy n.side)) [ inl buy ↦ rw buy v.bids | inr sell ↦ rw sell v.asks ]

  here : IsEnds level (q (is_buy n.side) n.level_idx)
  here = ladder.ends n.level_idx inside

  few : length (q (is_buy n.side) n.level_idx) + 1 < 2 ^ 32
  few =
      let l = q (is_buy n.side) n.level_idx in
      let d =
        Distinct-snoc k l (w.new (is_buy n.side) n.level_idx)
          (w.linked.distinct (is_buy n.side) n.level_idx) in
      omega (
        arith,
        length-Distinct (length ps) (l ++ (k ∷ [])) d below,
        length-append l (k ∷ []),
        w.bound,
      )
    where
      below : (x : ℕ) → mem x (q (is_buy n.side) n.level_idx ++ (k ∷ [])) ≡ true → x < length ps
      below x m = elim (Bool-cases (x == k)) [
        | inl same ↦ let xk : x ≡ k = ground arith in rw xk w.inside
        | inr apart ↦
            (InPool-mem ps x (q (is_buy n.side) n.level_idx)
              (w.linked.pool (is_buy n.side) n.level_idx)
              (rw (mem-snoc x k (q (is_buy n.side) n.level_idx), apart) at m)).0
      ]

  abbrev grown : Half
  grown = grown_half (is_buy n.side) (half b n.side) n.level_idx (level_after_append level k n.qty)

  grown-IsLadder :
      IsLadder b.level_count
        (is_buy n.side)
        grown
        (λ j. if n.level_idx == j then q (is_buy n.side) j ++ (k ∷ []) else q (is_buy n.side) j)
  grown-IsLadder =
      grown_half-IsLadder b.level_count (is_buy n.side) (half b n.side) (q (is_buy n.side)) ladder
        n.level_idx k inside (level_after_append level k n.qty)
        (level_after_append-IsEnds level (q (is_buy n.side) n.level_idx) k n.qty here
          (last_real ps (q (is_buy n.side) n.level_idx) (w.linked.pool (is_buy n.side) n.level_idx))
          few)

  linked :
      IsLinked b.min_price
        (write_next (set ps k (record n { prev = level.tail; next = null })) level.tail k)
        (pushed q (is_buy n.side) n.level_idx k)
  linked = rw here.tail (
      joined-IsLinked b.min_price ps q w.linked (is_buy n.side) n.level_idx k w.inside w.real w.new
        home)

  indexed :
      IsIndexed
        (write_next (set ps k (record n { prev = level.tail; next = null })) level.tail k)
        (insert n.order_id k b.index)
        (pushed q (is_buy n.side) n.level_idx k)
  indexed = rw here.tail (
      joined-IsIndexed b.min_price ps q w.linked (is_buy n.side) n.level_idx k w.inside w.real w.new
        home b.index w.indexed fresh)

  unused :
      IsFree
        (write_next (set ps k (record n { prev = level.tail; next = null })) level.tail k)
        free
        (pushed q (is_buy n.side) n.level_idx k)
  unused = rw here.tail (
      joined-IsFree b.min_price ps q w.linked (is_buy n.side) n.level_idx k w.inside w.real w.new
        home free w.distinct w.free_pool w.apart w.used)

  pool_bound :
      length (write_next (set ps k (record n { prev = level.tail; next = null })) level.tail k)
      ≤ null
  pool_bound =
      let len =
        length-joined b.min_price ps q w.linked (is_buy n.side) n.level_idx k w.inside w.real w.new
          home in
      rw (here.tail, len) w.bound

  pub append_to_level-IsBook :
      IsBook (append_to_level ready k) (pushed q (is_buy n.side) n.level_idx k)
  append_to_level-IsBook = rw (append_to_level-eq ready k) (elim (Bool-cases (is_buy n.side)) [
    | inl buy ↦ rw buy (record {
      linked = rw buy at linked;
      indexed = rw buy at indexed;
      free = rw buy at unused;
      bids = rw buy at grown-IsLadder;
      asks = v.asks;
      pool_bound = rw buy at pool_bound;
    })
    | inr sell ↦ rw sell (record {
      linked = rw sell at linked;
      indexed = rw sell at indexed;
      free = rw sell at unused;
      bids = v.bids;
      asks = rw sell at grown-IsLadder;
      pool_bound = rw sell at pool_bound;
    })
  ])

  pub append_to_level-node : contents (node (append_to_level ready k) k) ≡ contents n
  append_to_level-node = rw (append_to_level-eq ready k) (
      contents-write_next (set ps k (record n { prev = level.tail; next = null })) level.tail k k
      ∙ ap contents (at-set_self ps k (record n { prev = level.tail; next = null }) w.inside))

  pub append_to_level-index : (append_to_level ready k).index ≡ insert n.order_id k b.index
  append_to_level-index =
      rw (append_to_level-eq ready k)
        (elim (Bool-cases (is_buy n.side)) [ inl buy ↦ rw buy refl | inr sell ↦ rw sell refl ])
