-- ===== src/OrderBook/Invariant/Rest.antt =====
-- `alloc_node` and `append_to_level` keep the invariant, and add a node at the back of a queue.
use exchange_and_feed_handle.Base.{
  ℕ, zero, suc, ◌+◌, ◌≤◌, ◌<◌, ◌≡◌, refl, ap, ◌∙◌, Bool, true, false, inl, inr, List, [], ◌∷◌, ◌++◌,
  arith, ◌==◌, length, set, length-set, length-append, Bool-cases,
}
use exchange_and_feed_handle.Base.Int.{ℤ}
use exchange_and_feed_handle.Base.Map.{Map}
use exchange_and_feed_handle.Types.{is_buy}
use exchange_and_feed_handle.OrderBook.State.{OrderBook, Node, null, empty_node}
use exchange_and_feed_handle.OrderBook.Nodes.Chain.{
  at, mem, Distinct, InPool, SameLinks, Seg-same, at-set_ne, at-set_self,
}
use exchange_and_feed_handle.OrderBook.Queues.{Queues}
use exchange_and_feed_handle.OrderBook.Invariant.{IsLinked, IsIndexed, IsFree, IsBook}
use exchange_and_feed_handle.OrderBook.Invariant.Unlink.{InPool-mem}

-- Another pool that agrees on the nodes of the queues.
module _ (ns ps : List Node) (q : Queues)
    (same : (s : Bool) (i x : ℕ) → mem x (q s i) ≡ true → at ps x ≡ at ns x)
    (longer : length ns ≤ length ps) where
  pub InPool-longer : (l : List ℕ) → InPool ns l → InPool ps l
  InPool-longer [] p = tt
  InPool-longer (x ∷ l) (lt, ne, p) = (omega (arith, longer), ne, InPool-longer l p)

  links : (l : List ℕ) → ((x : ℕ) → mem x l ≡ true → at ps x ≡ at ns x) → SameLinks l ns ps
  links [] h = tt
  links (x ∷ l) h =
      let e = h x (ground arith) in
      (ap (λ n. n.prev) e, ap (λ n. n.next) e, links l (λ y m. h y (ground (arith, m))))

  pub same-IsLinked : {low : ℤ} → IsLinked low ns q → IsLinked low ps q
  same-IsLinked v = record {
    chain = λ s i. Seg-same ns ps null (q s i) null (links (q s i) (same s i)) (v.chain s i);
    distinct = v.distinct;
    pool = λ s i. InPool-longer (q s i) (v.pool s i);
    home = λ s i x m. rw (same s i x m) (v.home s i x m);
  }

  pub same-IsIndexed : (index : Map ℕ) → IsIndexed ns index q → IsIndexed ps index q
  same-IsIndexed index v = record {
    indexed = λ s i x m. rw (same s i x m) (v.indexed s i x m);
    found = λ id x p.
        let (e, m) = v.found id x p in
        rw (same (is_buy (at ns x).side) (at ns x).level_idx x m) (e, m);
  }

-- The state between `alloc_node` and `append_to_level`: the node `k` is filled in and in no queue.
pub record IsReady (b : OrderBook) (q : Queues) (n : Node) (ps : List Node) (free : List ℕ) (k : ℕ)
    : Type 0 where
  pub inside : k < length ps
  pub real : k < null
  pub new : (t : Bool) (j : ℕ) → mem k (q t j) ≡ false
  pub filled : at ps k ≡ n
  pub linked : IsLinked b.min_price ps q
  pub indexed : IsIndexed ps b.index q
  pub distinct : Distinct free
  pub free_pool : InPool ps free
  pub apart : (t : Bool) (j x : ℕ) → mem x free ≡ true → mem x (q t j) ≡ false
  pub used : mem k free ≡ false
  pub bound : length ps ≤ null

module _ (b : OrderBook) (q : Queues) (v : IsBook b q) (n : Node) where
  -- The free list gives the node.
  pub reuse : (k : ℕ) (rest : List ℕ) → b.free ≡ k ∷ rest → IsReady b q n (set b.nodes k n) rest k
  reuse k rest e =
      let w : IsFree b.nodes (k ∷ rest) q = rw e at v.free in
      let new = λ (t : Bool) (j : ℕ). w.apart t j k (ground arith) in
      let longer : length b.nodes ≤ length (set b.nodes k n) =
        omega (arith, length-set b.nodes k n) in
      let same = λ (s : Bool) (i x : ℕ) (m : mem x (q s i) ≡ true).
        at-set_ne b.nodes k x n (differs s i x (new s i) m) in
      record {
        inside = omega (arith, length-set b.nodes k n, w.pool.0);
        real = w.pool.1;
        new = new;
        filled = at-set_self b.nodes k n w.pool.0;
        linked = same-IsLinked b.nodes (set b.nodes k n) q same longer v.linked;
        indexed = same-IsIndexed b.nodes (set b.nodes k n) q same longer b.index v.indexed;
        distinct = w.distinct.1;
        free_pool = InPool-longer b.nodes (set b.nodes k n) q same longer rest w.pool.2;
        apart = λ t j x m. w.apart t j x (ground (arith, m));
        used = w.distinct.0;
        bound = omega (arith, length-set b.nodes k n, v.pool_bound);
      }
    where
      differs :
          (s : Bool) (i x : ℕ) → mem k (q s i) ≡ false → mem x (q s i) ≡ true → (x == k) ≡ false
      differs s i x out m = elim (Bool-cases (x == k)) [
        | inl equal ↦ let xk : x ≡ k = ground arith in cc (rw xk at m)
        | inr other ↦ other
      ]

  get_or-append : (ns ms : List Node) (x : ℕ) → x < length ns → at (ns ++ ms) x ≡ at ns x
  get_or-append [] ms x lt = absurd (omega arith)
  get_or-append (m ∷ ns) ms zero lt = refl
  get_or-append (m ∷ ns) ms (suc x) lt = get_or-append ns ms x (omega arith)

  -- The pool grows by the node.
  pub extend :
      length b.nodes < null
      → b.free ≡ []
      → IsReady b q n (set (b.nodes ++ (empty_node ∷ [])) (length b.nodes) n) [] (length b.nodes)
  extend room e =
      let ps = set (b.nodes ++ (empty_node ∷ [])) (length b.nodes) n in
      let len : length ps ≡ length b.nodes + 1 = omega (
        arith,
        length-set (b.nodes ++ (empty_node ∷ [])) (length b.nodes) n,
        length-append b.nodes (empty_node ∷ []),
      ) in
      let longer : length b.nodes ≤ length ps = omega (arith, len) in
      let same = λ (s : Bool) (i x : ℕ) (m : mem x (q s i) ≡ true).
        at-set_ne (b.nodes ++ (empty_node ∷ [])) (length b.nodes) x n (below s i x m)
        ∙ get_or-append b.nodes (empty_node ∷ []) x
            (InPool-mem b.nodes x (q s i) (v.linked.pool s i) m).0 in
      record {
        inside = omega (arith, len);
        real = room;
        new = fresh;
        filled =
            at-set_self (b.nodes ++ (empty_node ∷ [])) (length b.nodes) n
              (omega (arith, length-append b.nodes (empty_node ∷ [])));
        linked = same-IsLinked b.nodes ps q same longer v.linked;
        indexed = same-IsIndexed b.nodes ps q same longer b.index v.indexed;
        distinct = tt;
        free_pool = tt;
        apart = λ t j x m. cc m;
        used = refl;
        bound = omega (arith, len, room);
      }
    where
      below : (s : Bool) (i x : ℕ) → mem x (q s i) ≡ true → (x == length b.nodes) ≡ false
      below s i x m = ground (arith, InPool-mem b.nodes x (q s i) (v.linked.pool s i) m)

      fresh : (t : Bool) (j : ℕ) → mem (length b.nodes) (q t j) ≡ false
      fresh t j = elim (Bool-cases (mem (length b.nodes) (q t j))) [
        | inl there ↦ absurd (
            omega
              (arith, (InPool-mem b.nodes (length b.nodes) (q t j) (v.linked.pool t j) there).0))
        | inr out ↦ out
      ]
