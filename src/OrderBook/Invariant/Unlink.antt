-- ===== src/OrderBook/Invariant/Unlink.antt =====
-- The nodes after `remove_node`: the queues without the node.
use exchange_and_feed_handle.Base.{
  ℕ, ◌<◌, ◌≡◌, refl, sym, ap, ◌∙◌, Bool, true, false, inl, inr, List, [], ◌∷◌, arith, ◌==◌, length,
  set, get_or-set, length-set, Bool-cases,
}
use exchange_and_feed_handle.Base.Int.{ℤ}
use exchange_and_feed_handle.Types.{is_buy}
use exchange_and_feed_handle.OrderBook.State.{OrderBook, Node, node, null, empty_node}
use exchange_and_feed_handle.OrderBook.Nodes.{unlink}
use exchange_and_feed_handle.OrderBook.Nodes.Chain.{
  at, mem, first, last, Seg, InPool, Seg-set, Seg-split, at-set_ne,
}
use exchange_and_feed_handle.OrderBook.Nodes.Links.{
  write_next, write_prev, nodes-unlink, unlink-Seg, write_next-other, write_prev-other, mem-append,
}
use exchange_and_feed_handle.OrderBook.Queues.{
  Queues, without, mem-without, without_absent, split_at, Distinct-without,
}
use exchange_and_feed_handle.OrderBook.Invariant.{IsHome, IsLinked}

-- A node but for its pointers.
abbrev pub contents : Node → Node
contents n = record n { prev = 0; next = 0 }

pub contents-write_next :
    (ns : List Node) (p n j : ℕ) → contents (at (write_next ns p n) j) ≡ contents (at ns j)
contents-write_next ns p n j = elim (Bool-cases (p == null)) [
  | inl nil ↦ rw nil
  | inr real ↦
      rw real (ground (arith, get_or-set ns p j (record (at ns p) { next = n }) empty_node))
]

contents-write_prev :
    (ns : List Node) (n p j : ℕ) → contents (at (write_prev ns n p) j) ≡ contents (at ns j)
contents-write_prev ns n p j = elim (Bool-cases (n == null)) [
  | inl nil ↦ rw nil
  | inr real ↦
      rw real (ground (arith, get_or-set ns n j (record (at ns n) { prev = p }) empty_node))
]

pub contents-unlink :
    (b : OrderBook) (n : Node) (j : ℕ)
    → contents (at (unlink b n).nodes j) ≡ contents (at b.nodes j)
contents-unlink b n j = rw (nodes-unlink b n) (
    contents-write_prev (write_next b.nodes n.prev n.next) n.next n.prev j
    ∙ contents-write_next b.nodes n.prev n.next j)

pub length-write_next : (ns : List Node) (p n : ℕ) → length (write_next ns p n) ≡ length ns
length-write_next ns p n = elim (Bool-cases (p == null)) [
  | inl nil ↦ rw nil refl
  | inr real ↦ rw real (length-set ns p _)
]

length-write_prev : (ns : List Node) (n p : ℕ) → length (write_prev ns n p) ≡ length ns
length-write_prev ns n p = elim (Bool-cases (n == null)) [
  | inl nil ↦ rw nil refl
  | inr real ↦ rw real (length-set ns n _)
]

pub length-unlink : (b : OrderBook) (n : Node) → length (unlink b n).nodes ≡ length b.nodes
length-unlink b n = rw (nodes-unlink b n) (
    length-write_prev (write_next b.nodes n.prev n.next) n.next n.prev
    ∙ length-write_next b.nodes n.prev n.next)

pub InPool-length :
    (ns ms : List Node) (q : List ℕ) → length ms ≡ length ns → InPool ns q → InPool ms q
InPool-length ns ms [] e p = tt
InPool-length ns ms (j ∷ q) e (lt, ne, p) = (rw e lt, ne, InPool-length ns ms q e p)

pub InPool-without : (ns : List Node) (k : ℕ) (q : List ℕ) → InPool ns q → InPool ns (without k q)
InPool-without ns k [] p = tt
InPool-without ns k (j ∷ q) (lt, ne, p) = elim (Bool-cases (j == k)) [
  | inl same ↦ rw same (InPool-without ns k q p)
  | inr apart ↦ rw apart (lt, ne, InPool-without ns k q p)
]

pub InPool-mem :
    (ns : List Node) (k : ℕ) (q : List ℕ)
    → InPool ns q
    → mem k q ≡ true
    → (k < length ns) × (k < null)
InPool-mem ns k [] p m = cc
InPool-mem ns k (j ∷ q) (lt, ne, p) m = elim (Bool-cases (k == j)) [
  | inl same ↦ let e : k ≡ j = ground arith in rw e (lt, ne)
  | inr apart ↦ InPool-mem ns k q p (ground arith)
]

-- A home depends on the contents only.
pub IsHome-contents :
    {low : ℤ} {s : Bool} {i : ℕ} (m n : Node)
    → contents m ≡ contents n
    → IsHome low s i n
    → IsHome low s i m
IsHome-contents m n e h = record {
  side = ap (λ x. is_buy x.side) e ∙ h.side;
  level = ap (λ x. x.level_idx) e ∙ h.level;
  live = ap (λ x. x.active) e ∙ h.live;
  price = ap (λ x. x.price) e ∙ h.price;
}

module _ (b : OrderBook) (q : Queues) (v : IsLinked b.min_price b.nodes q) where
  -- Two queues that share a node are the same.
  pub one_home :
      (s t : Bool) (i j k : ℕ) → mem k (q s i) ≡ true → mem k (q t j) ≡ true → (t ≡ s) × (j ≡ i)
  one_home s t i j k m n =
      let h = v.home s i k m in
      let h' = v.home t j k n in (sym h'.side ∙ h.side, sym h'.level ∙ h.level)

  other_queue :
      (s t : Bool) (i j k : ℕ)
      → mem k (q s i) ≡ true
      → mem k (q t j) ≡ false
      → (x : ℕ) → mem x (q s i) ≡ true
      → mem x (q t j) ≡ false
  other_queue s t i j k m out x mx = elim (Bool-cases (mem x (q t j))) [
    | inl both ↦ let (et, ej) = one_home s t i j x mx both in cc (rw (et, ej) at out)
    | inr apart ↦ apart
  ]

  unlink-chain :
      (s t : Bool) (i j k : ℕ)
      → mem k (q s i) ≡ true
      → Seg (unlink b (node b k)).nodes null (without k (q t j)) null
  unlink-chain s t i j k m = elim (Bool-cases (mem k (q t j))) [
    | inl here ↦
        let (xs, ys, e, w) = split_at k (q t j) here (v.distinct t j) in
        rw w (
          unlink-Seg b k xs ys (rw e at (v.distinct t j)) (rw e at (v.pool t j))
            (rw e at (v.chain t j)))
    | inr there ↦
        let (xs, ys, e, w) = split_at k (q s i) m (v.distinct s i) in
        let (front, (ep, en, back)) =
          Seg-split b.nodes null xs (k ∷ ys) null (rw e at (v.chain s i)) in
        let apart = other_queue s t i j k m there in
        let in_xs = λ (x : ℕ) (mx : mem x xs ≡ true).
          apart x (rw e (ground (arith, mem-append x xs (k ∷ ys)))) in
        let in_ys = λ (y : ℕ) (my : mem y ys ≡ true).
          apart y (rw e (ground (arith, mem-append y xs (k ∷ ys)))) in
        let ms = write_next b.nodes (last null xs) (first ys null) in
        rw (without_absent k (q t j) there, nodes-unlink b (node b k), ep, en)
          (write_prev-other ms ys (q t j) null null (last null xs) in_ys
            (write_next-other b.nodes xs (q t j) null null (first ys null) in_xs (v.chain t j)))
  ]

  -- The pool after `remove_node` has unlinked and freed the node `k`.
  pub unlink-IsLinked :
      (s : Bool) (i k : ℕ)
      → mem k (q s i) ≡ true
      → IsLinked b.min_price
          (set (unlink b (node b k)).nodes k empty_node)
          (λ t j. without k (q t j))
  unlink-IsLinked s i k m = record {
    chain = λ t j.
        Seg-set ms k empty_node null (without k (q t j)) null (gone t j) (unlink-chain s t i j k m);
    distinct = λ t j. Distinct-without k (q t j) (v.distinct t j);
    pool = λ t j.
        InPool-length b.nodes (set ms k empty_node) (without k (q t j)) len
          (InPool-without b.nodes k (q t j) (v.pool t j));
    home = λ t j x mx.
        let (ne, mq) = kept t j x mx in
        IsHome-contents (at (set ms k empty_node) x) (at b.nodes x)
          (ap contents (at-set_ne ms k x empty_node ne) ∙ contents-unlink b (node b k) x)
          (v.home t j x mq);
  }
    where
      ms : List Node
      ms = (unlink b (node b k)).nodes

      len : length (set ms k empty_node) ≡ length b.nodes
      len = length-set ms k empty_node ∙ length-unlink b (node b k)

      gone : (t : Bool) (j : ℕ) → mem k (without k (q t j)) ≡ false
      gone t j = ground (arith, mem-without k k (q t j))

      kept :
          (t : Bool) (j x : ℕ)
          → mem x (without k (q t j)) ≡ true
          → ((x == k) ≡ false) × (mem x (q t j) ≡ true)
      kept t j x mx = ground (arith, mem-without k x (q t j))
