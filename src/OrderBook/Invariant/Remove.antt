-- ===== src/OrderBook/Invariant/Remove.antt =====
-- `remove_node` keeps the invariant, and takes its node out of the queues.
use exchange_and_feed_handle.Base.{
  ℕ, ◌≡◌, sym, ap, ◌∙◌, Bool, true, false, inl, inr, List, ◌∷◌, arith, ◌==◌, if◌then◌else◌, length,
  set, length-set, Bool-cases,
}
use mathlib.Core.Path.{subst, fun_ext}
use exchange_and_feed_handle.Base.Map.{erase}
use exchange_and_feed_handle.Types.{Side, MdType, is_buy}
use exchange_and_feed_handle.OrderBook.State.{
  OrderBook, Half, Level, Node, node, null, empty_level, empty_node, half, put_half, put_level,
  level_for,
}
use exchange_and_feed_handle.OrderBook.Nodes.{
  unlink, remove_node, level_after_remove, free_node, clear_occupied, recompute_best_after_clear,
  uncount_level,
}
use exchange_and_feed_handle.OrderBook.Nodes.Chain.{at, mem}
use exchange_and_feed_handle.OrderBook.Queues.{Queues, without, without_absent}
use exchange_and_feed_handle.OrderBook.Invariant.{IsHome, IsEnds, IsLadder, IsBook}
use exchange_and_feed_handle.OrderBook.Invariant.Unlink.{
  contents-unlink, length-unlink, one_home, unlink-IsLinked,
}
use exchange_and_feed_handle.OrderBook.Invariant.Index.{erase-IsIndexed, free-IsFree}
use exchange_and_feed_handle.OrderBook.Invariant.Ends.{level_after_remove-IsEnds}
use exchange_and_feed_handle.OrderBook.Invariant.Ladder.{
  removed_half, removed_half-IsLadder, in_range,
}

-- `unlink` writes nodes only.
unlink-eq : (b : OrderBook) (n : Node) → unlink b n ≡ record b { nodes = (unlink b n).nodes }
unlink-eq b n = elim (Bool-cases (n.prev == null)) [
  | inl p ↦ elim (Bool-cases (n.next == null)) [ inl r ↦ rw (p, r) | inr r ↦ rw (p, r) ]
  | inr p ↦ elim (Bool-cases (n.next == null)) [ inl r ↦ rw (p, r) | inr r ↦ rw (p, r) ]
]

abbrev level_after : OrderBook → ℕ → ℕ → Level
level_after b k removed =
    level_after_remove (level_for b (node b k).side (node b k).level_idx) (node b k) removed

-- The book after `remove_node`, part by part.
abbrev pub removed_book : OrderBook → ℕ → ℕ → OrderBook
removed_book b k removed =
    record (put_half b (node b k).side (
      removed_half b.level_count (is_buy (node b k).side) (half b (node b k).side)
        (node b k).level_idx (level_after b k removed))) {
          nodes = set (unlink b (node b k)).nodes k empty_node;
          free = k ∷ b.free;
          index = erase (node b k).order_id b.index;
        }

-- The same for a pool `ms` that `unlink` gives.
shape :
    (b : OrderBook) (k removed : ℕ) (ms : List Node) (s : Side) (i : ℕ) (level : Level)
    → free_node
        (if level.count == 0
          then clear_occupied
              (uncount_level (put_level (record b { nodes = ms }) s i empty_level) s)
              s
              i
          else put_level (record b { nodes = ms }) s i level)
        k
      ≡ record (put_half b s (removed_half b.level_count (is_buy s) (half b s) i level)) {
        nodes = set ms k empty_node;
        free = k ∷ b.free;
        index = erase (at ms k).order_id b.index;
      }
unfolding free_node clear_occupied recompute_best_after_clear put_level
shape b k removed ms s i level = ground arith

pub remove_node-eq :
    (b : OrderBook) (seq k removed : ℕ) (type : MdType)
    → (remove_node b seq k removed type).0 ≡ removed_book b k removed
unfolding remove_node
remove_node-eq b seq k removed type =
    let n = node b k in
    let level = level_after b k removed in
    let id : (at (unlink b n).nodes k).order_id ≡ n.order_id =
      ap (λ x. x.order_id) (contents-unlink b n k) in
    ap
      (λ u.
        free_node
          (if level.count == 0
            then clear_occupied (uncount_level (put_level u n.side n.level_idx empty_level) n.side)
                n.side n.level_idx
            else put_level u n.side n.level_idx level)
          k)
      (unlink-eq b n)
    ∙ rw id at (shape b k removed (unlink b n).nodes n.side n.level_idx level)

-- The halves of a book by side.
half-IsLadder :
    (b : OrderBook) (q : Queues) (s : Side)
    → IsBook b q
    → IsLadder b.level_count (is_buy s) (half b s) (q (is_buy s))
half-IsLadder b q s v = elim (Bool-cases (is_buy s)) [
  | inl buy ↦ rw buy v.bids
  | inr sell ↦ rw sell v.asks
]

-- A side without the node keeps its shape.
other_half :
    (n : ℕ) (buy : Bool) (h : Half) (qs : ℕ → List ℕ) (k : ℕ)
    → ((j : ℕ) → mem k (qs j) ≡ false)
    → IsLadder n buy h qs
    → IsLadder n buy h (λ j. without k (qs j))
other_half n buy h qs k out v =
    subst (λ r. IsLadder n buy h r) (fun_ext (λ j. sym (without_absent k (qs j) (out j)))) v

-- For a book whose parts describe the queues `q`: after `remove_node` of a queued node they describe
-- the queues without that node.
pub remove_node-IsBook :
    (b : OrderBook) (q : Queues) (s : Bool) (i k : ℕ) (seq removed : ℕ) (type : MdType)
    → IsBook b q
    → mem k (q s i) ≡ true
    → IsBook (remove_node b seq k removed type).0 (λ t j. without k (q t j))
unfolding level_for
remove_node-IsBook b q s i k seq removed type v m = rw (remove_node-eq b seq k removed type) go
  where
    n : Node
    n = node b k

    home : IsHome b.min_price s i n
    home = v.linked.home s i k m

    apart : (t : Bool) (j : ℕ) → ((t ≡ s) × (j ≡ i) → ⊥) → mem k (q t j) ≡ false
    apart t j ne = elim (Bool-cases (mem k (q t j))) [
      | inl there ↦ absurd (ne (one_home b q v.linked s t i j k m there))
      | inr out ↦ out
    ]

    level : Level
    level = level_after b k removed

    here : mem k (q (is_buy n.side) n.level_idx) ≡ true
    here = rw (home.side, home.level) m

    one : (j : ℕ) → (n.level_idx == j) ≡ false → mem k (q (is_buy n.side) j) ≡ false
    one j ne = rw home.side (apart s j (λ e. ground (arith, home.level)))

    ladder : IsLadder b.level_count (is_buy n.side) (half b n.side) (q (is_buy n.side))
    ladder = half-IsLadder b q n.side v

    ends : IsEnds level (without k (q (is_buy n.side) n.level_idx))
    ends =
        level_after_remove-IsEnds b.nodes k removed (level_for b n.side n.level_idx)
          (q (is_buy n.side) n.level_idx) here (v.linked.distinct (is_buy n.side) n.level_idx)
          (v.linked.pool (is_buy n.side) n.level_idx) (v.linked.chain (is_buy n.side) n.level_idx)
          (ladder.ends n.level_idx (
            in_range b.level_count (is_buy n.side) (half b n.side) (q (is_buy n.side)) ladder
              n.level_idx k here one))

    changed :
        IsLadder b.level_count
          (is_buy n.side)
          (removed_half b.level_count (is_buy n.side) (half b n.side) n.level_idx level)
          (λ j. without k (q (is_buy n.side) j))
    changed =
        removed_half-IsLadder b.level_count (is_buy n.side) (half b n.side) (q (is_buy n.side))
          ladder n.level_idx k here one level ends

    len : length (set (unlink b n).nodes k empty_node) ≡ length b.nodes
    len = length-set (unlink b n).nodes k empty_node ∙ length-unlink b n

    go : IsBook (removed_book b k removed) (λ t j. without k (q t j))
    go = elim (Bool-cases (is_buy n.side)) [
      | inl buy ↦ rw buy (record {
        linked = unlink-IsLinked b q v.linked s i k m;
        indexed = erase-IsIndexed b q k s i m v.indexed;
        free = free-IsFree b q k s i m (v.linked.pool s i) v.free;
        bids = rw buy at changed;
        asks =
            other_half b.level_count false b.asks (q false) k
              (λ j. apart false j (λ e. cc home.side)) v.asks;
        pool_bound = rw len v.pool_bound;
      })
      | inr sell ↦ rw sell (record {
        linked = unlink-IsLinked b q v.linked s i k m;
        indexed = erase-IsIndexed b q k s i m v.indexed;
        free = free-IsFree b q k s i m (v.linked.pool s i) v.free;
        bids =
            other_half b.level_count true b.bids (q true) k (λ j. apart true j (λ e. cc home.side))
              v.bids;
        asks = rw sell at changed;
        pool_bound = rw len v.pool_bound;
      })
    ]
