-- ===== src/OrderBook/Totals.antt =====
-- A book without the totals of its levels. No operation reads a total but to change it, so two books that
-- agree without totals go on agreeing.
pub mod Operations
use exchange_and_feed_handle.Base.{
  ℕ, zero, suc, ◌+◌, ◌-◌, ◌%◌, ◌^◌, ◌≡◌, refl, sym, ap, ◌∙◌, Bool, true, false, ◌||◌, ◌&&◌, inl,
  inr, Option, none, some, List, [], ◌∷◌, ◌++◌, arith, ◌==◌, ltb, if◌then◌else◌, length, get_or,
  set, Bool-cases,
}
use exchange_and_feed_handle.Base.Map.{erase}
use exchange_and_feed_handle.Types.{Side, MdType, is_buy}
use exchange_and_feed_handle.OrderBook.State.{
  OrderBook, Half, Level, Node, node, null, empty_level, empty_node, half, put_half, put_level,
  put_node, level_for,
}
use exchange_and_feed_handle.OrderBook.Nodes.{
  unlink, remove_node, level_after_remove, append_to_level, level_after_append,
}
use exchange_and_feed_handle.OrderBook.Nodes.Chain.{at}
use exchange_and_feed_handle.OrderBook.Nodes.Links.{write_next, write_prev, nodes-unlink}
use exchange_and_feed_handle.OrderBook.Invariant.Ladder.{removed_half}
use exchange_and_feed_handle.OrderBook.Invariant.Remove.{removed_book, remove_node-eq}
use exchange_and_feed_handle.OrderBook.Invariant.Grow.{grown_half}
use exchange_and_feed_handle.OrderBook.Invariant.Add.{appended, append_to_level-eq}

abbrev pub plain_level : Level → Level
plain_level level = record level { total_qty = 0 }

abbrev pub plain_levels : List Level → List Level
plain_levels [] = []
plain_levels (level ∷ ls) = plain_level level ∷ plain_levels ls

abbrev pub plain_half : Half → Half
plain_half h = record h { levels = plain_levels h.levels }

abbrev pub plain : OrderBook → OrderBook
plain b = record b { bids = plain_half b.bids; asks = plain_half b.asks }

-- Two books are the same but for their totals.
abbrev pub SameOrders : OrderBook → OrderBook → Type 0
SameOrders b c = plain b ≡ plain c

plain_levels-set :
    (ls : List Level) (i : ℕ) (l : Level)
    → plain_levels (set ls i l) ≡ set (plain_levels ls) i (plain_level l)
plain_levels-set [] i l = refl
plain_levels-set (x ∷ ls) zero l = refl
plain_levels-set (x ∷ ls) (suc i) l = ap (λ r. plain_level x ∷ r) (plain_levels-set ls i l)

get_or-plain_levels :
    (ls : List Level) (i : ℕ)
    → get_or (plain_levels ls) i empty_level ≡ plain_level (get_or ls i empty_level)
get_or-plain_levels [] i = refl
get_or-plain_levels (x ∷ ls) zero = refl
get_or-plain_levels (x ∷ ls) (suc i) = get_or-plain_levels ls i

set-plain_levels :
    (ls : List Level) (i : ℕ)
    → set (plain_levels ls) i (plain_level (get_or ls i empty_level)) ≡ plain_levels ls
set-plain_levels [] i = refl
set-plain_levels (x ∷ ls) zero = refl
set-plain_levels (x ∷ ls) (suc i) = ap (λ r. plain_level x ∷ r) (set-plain_levels ls i)

plain-removed_half :
    (n : ℕ) (buy : Bool) (h : Half) (i : ℕ) (l : Level)
    → plain_half (removed_half n buy h i l) ≡ removed_half n buy (plain_half h) i (plain_level l)
plain-removed_half n buy h i l = elim (Bool-cases (l.count == 0)) [
  | inl e ↦ rw (e, plain_levels-set h.levels i empty_level) refl
  | inr e ↦ rw (e, plain_levels-set h.levels i l) refl
]

plain-grown_half :
    (buy : Bool) (h : Half) (i : ℕ) (l : Level)
    → plain_half (grown_half buy h i l) ≡ grown_half buy (plain_half h) i (plain_level l)
plain-grown_half buy h i l = elim (Bool-cases ((get_or h.levels i empty_level).count == 0)) [
  | inl e ↦ rw (get_or-plain_levels h.levels i, e, plain_levels-set h.levels i l) refl
  | inr e ↦ rw (get_or-plain_levels h.levels i, e, plain_levels-set h.levels i l) refl
]

half-plain : (b : OrderBook) (s : Side) → half (plain b) s ≡ plain_half (half b s)
half-plain b s = elim (Bool-cases (is_buy s)) [ inl e ↦ rw e | inr e ↦ rw e ]

plain-put_half :
    (b : OrderBook) (s : Side) (h : Half)
    → plain (put_half b s h) ≡ put_half (plain b) s (plain_half h)
plain-put_half b s h = elim (Bool-cases (is_buy s)) [ inl e ↦ rw e | inr e ↦ rw e ]

unlink-plain : (b : OrderBook) (n : Node) → (unlink (plain b) n).nodes ≡ (unlink b n).nodes
unlink-plain b n = nodes-unlink (plain b) n ∙ sym (nodes-unlink b n)

-- The book without totals after `remove_node`, from the book without totals.
abbrev pub plainly_removed : OrderBook → ℕ → OrderBook
plainly_removed x k =
    let n = node x k in
    let level = get_or (half x n.side).levels n.level_idx empty_level in
    record (put_half x n.side (
      removed_half x.level_count (is_buy n.side) (half x n.side) n.level_idx
        (plain_level (level_after_remove level n 0)))) {
          nodes = set (unlink x n).nodes k empty_node;
          free = k ∷ x.free;
          index = erase n.order_id x.index;
        }

-- The same with the side, the level and the pool given.
rebuilt :
    (b : OrderBook) (k : ℕ) (h : Half) (level : Level) (ms : List Node)
    → h ≡ half (plain b) (node b k).side
    → level ≡ get_or h.levels (node b k).level_idx empty_level
    → ms ≡ (unlink (plain b) (node b k)).nodes
    → record (put_half (plain b) (node b k).side (
        removed_half b.level_count
          (is_buy (node b k).side)
          h
          (node b k).level_idx
          (plain_level (level_after_remove level (node b k) 0)))) {
            nodes = set ms k empty_node;
            free = k ∷ b.free;
            index = erase (node b k).order_id b.index;
          }
      ≡ plainly_removed (plain b) k
rebuilt b k h level ms e f g = rw (g, f, e) refl

pub plain-remove_node :
    (b : OrderBook) (seq k removed : ℕ) (type : MdType)
    → plain (remove_node b seq k removed type).0 ≡ plainly_removed (plain b) k
unfolding level_for
plain-remove_node b seq k removed type =
    let n = node b k in
    let level = get_or (half b n.side).levels n.level_idx empty_level in
    let after = level_after_remove level n removed in
    let here = half-plain b n.side in
    let same = get_or-plain_levels (half b n.side).levels n.level_idx in
    ap (λ x. plain x) (remove_node-eq b seq k removed type)
    ∙ ap
        (λ (x : OrderBook). record x {
          nodes = set (unlink b n).nodes k empty_node;
          free = k ∷ b.free;
          index = erase n.order_id b.index;
        })
        (plain-put_half b n.side _
          ∙ ap (λ h. put_half (plain b) n.side h)
              (plain-removed_half b.level_count (is_buy n.side) (half b n.side) n.level_idx after))
    ∙ rebuilt b k (plain_half (half b n.side)) (plain_level level) (unlink b n).nodes (sym here)
        (sym same) (sym (unlink-plain b n))

-- The same for `append_to_level`.
abbrev pub plainly_appended : OrderBook → ℕ → OrderBook
plainly_appended x k =
    let n = node x k in
    let level = get_or (half x n.side).levels n.level_idx empty_level in
    record (put_half x n.side (
      grown_half (is_buy n.side) (half x n.side) n.level_idx
        (plain_level (level_after_append level k 0)))) {
          nodes =
              write_next (set x.nodes k (record n { prev = level.tail; next = null })) level.tail k;
        }

reappended :
    (b : OrderBook) (k : ℕ) (h : Half) (level : Level)
    → h ≡ half (plain b) (node b k).side
    → level ≡ get_or h.levels (node b k).level_idx empty_level
    → record (put_half (plain b) (node b k).side (
        grown_half
          (is_buy (node b k).side)
          h
          (node b k).level_idx
          (plain_level (level_after_append level k 0)))) {
            nodes =
                write_next
                  (set b.nodes k (record (node b k) { prev = level.tail; next = null }))
                  level.tail
                  k;
          }
      ≡ plainly_appended (plain b) k
reappended b k h level e f = rw (f, e) refl

pub plain-append_to_level :
    (b : OrderBook) (k : ℕ) → plain (append_to_level b k) ≡ plainly_appended (plain b) k
plain-append_to_level b k =
    let n = node b k in
    let level = get_or (half b n.side).levels n.level_idx empty_level in
    let here = half-plain b n.side in
    let same = get_or-plain_levels (half b n.side).levels n.level_idx in
    ap (λ x. plain x) (append_to_level-eq b k)
    ∙ ap
        (λ (x : OrderBook). record x {
          nodes =
              write_next (set b.nodes k (record n { prev = level.tail; next = null })) level.tail k;
        })
        (plain-put_half b n.side _
          ∙ ap (λ h. put_half (plain b) n.side h)
              (plain-grown_half (is_buy n.side) (half b n.side) n.level_idx
                (level_after_append level k n.qty)))
    ∙ reappended b k (plain_half (half b n.side)) (plain_level level) (sym here) (sym same)

-- A write of a level that changes its total only.
pub plain-put_total :
    (b : OrderBook) (s : Side) (i total : ℕ)
    → plain (put_level b s i (record (level_for b s i) { total_qty = total })) ≡ plain b
unfolding put_level level_for
plain-put_total b s i total = elim (Bool-cases (is_buy s)) [
  | inl buy ↦
      rw
        (
          buy,
          plain_levels-set b.bids.levels i
              (record (get_or b.bids.levels i empty_level) { total_qty = total }),
          set-plain_levels b.bids.levels i,
        )
        refl
  | inr sell ↦
      rw
        (
          sell,
          plain_levels-set b.asks.levels i
              (record (get_or b.asks.levels i empty_level) { total_qty = total }),
          set-plain_levels b.asks.levels i,
        )
        refl
]
