-- ===== src/OrderBook/Invariant/Index.antt =====
-- The id index and the free list after `remove_node`.
use exchange_and_feed_handle.Base.{
  ℕ, ◌<◌, ◌≡◌, refl, sym, ap, ◌∙◌, Bool, true, false, inl, inr, some, List, ◌∷◌, arith, ◌==◌,
  length, set, length-set, Bool-cases, ==_refl,
}
use exchange_and_feed_handle.Base.Map.{lookup, erase, lookup-erase}
use exchange_and_feed_handle.Types.{is_buy}
use exchange_and_feed_handle.OrderBook.State.{OrderBook, Node, node, empty_node}
use exchange_and_feed_handle.OrderBook.Nodes.{unlink}
use exchange_and_feed_handle.OrderBook.Nodes.Chain.{at, mem, InPool, at-set_ne}
use exchange_and_feed_handle.OrderBook.Queues.{Queues, without, mem-without}
use exchange_and_feed_handle.OrderBook.Invariant.{IsIndexed, IsFree}
use exchange_and_feed_handle.OrderBook.Invariant.Unlink.{
  contents, contents-unlink, length-unlink, InPool-length, InPool-mem,
}

module _ (b : OrderBook) (q : Queues) (k : ℕ) where
  abbrev left_over : List Node
  left_over = set (unlink b (node b k)).nodes k empty_node

  contents-left_over :
      (j : ℕ) → (j == k) ≡ false → contents (at left_over j) ≡ contents (at b.nodes j)
  contents-left_over j ne =
      ap contents (at-set_ne (unlink b (node b k)).nodes k j empty_node ne)
      ∙ contents-unlink b (node b k) j

  pub erase-IsIndexed :
      (s : Bool) (i : ℕ)
      → mem k (q s i) ≡ true
      → IsIndexed b.nodes b.index q
      → IsIndexed left_over (erase (node b k).order_id b.index) (λ t j. without k (q t j))
  erase-IsIndexed s i m v = record {
    indexed = λ t j x mx.
        let (ne, mq) = kept t j x mx in
        let e = ap (λ n. n.order_id) (contents-left_over x ne) in
        let other = apart t j x ne mq in
        rw (e, lookup-erase (node b k).order_id (at b.nodes x).order_id b.index, other)
          (v.indexed t j x mq);
    found = λ id x p. found id x p;
  }
    where
      kept :
          (t : Bool) (j x : ℕ)
          → mem x (without k (q t j)) ≡ true
          → ((x == k) ≡ false) × (mem x (q t j) ≡ true)
      kept t j x mx = ground (arith, mem-without k x (q t j))

      apart :
          (t : Bool) (j x : ℕ)
          → (x == k) ≡ false
          → mem x (q t j) ≡ true
          → ((node b k).order_id == (at b.nodes x).order_id) ≡ false
      apart t j x ne mx = elim (Bool-cases ((node b k).order_id == (at b.nodes x).order_id)) [
        | inl same ↦
            let e : (node b k).order_id ≡ (at b.nodes x).order_id = ground arith in
            let here = v.indexed s i k m in
            let there = v.indexed t j x mx in
            let both : some k ≡ some x = sym here ∙ (rw (← e) at there) in
            let kx : k ≡ x = cc in cc (rw (kx, ==_refl x) at ne)
        | inr other ↦ other
      ]

      not_removed :
          (id x : ℕ)
          → ((node b k).order_id == id) ≡ false
          → (at b.nodes x).order_id ≡ id
          → (x == k) ≡ false
      not_removed id x other e = elim (Bool-cases (x == k)) [
        | inl same ↦ let xk : x ≡ k = ground arith in cc (rw (rw xk at e, ==_refl id) at other)
        | inr apart ↦ apart
      ]

      found :
          (id x : ℕ)
          → lookup id (erase (node b k).order_id b.index) ≡ some x
          → ((at left_over x).order_id ≡ id)
            × (mem x (without k (q (is_buy (at left_over x).side) (at left_over x).level_idx))
                ≡ true)
      found id x p = elim (Bool-cases ((node b k).order_id == id)) [
        | inl same ↦ cc (rw (lookup-erase (node b k).order_id id b.index, same) at p)
        | inr other ↦
            let p' = rw (lookup-erase (node b k).order_id id b.index, other) at p in
            let (e, mx) = v.found id x p' in
            let ne : (x == k) ≡ false = not_removed id x other e in
            let c = contents-left_over x ne in
            let side : (at left_over x).side ≡ (at b.nodes x).side = ap (λ n. n.side) c in
            let level : (at left_over x).level_idx ≡ (at b.nodes x).level_idx =
              ap (λ n. n.level_idx) c in
            (
              ap (λ n. n.order_id) c ∙ e,
              rw
                  (
                    side,
                    level,
                    mem-without k x (q (is_buy (at b.nodes x).side) (at b.nodes x).level_idx),
                    ne,
                    mx,
                  )
                  refl,
            )
      ]

  pub free-IsFree :
      (s : Bool) (i : ℕ)
      → mem k (q s i) ≡ true
      → InPool b.nodes (q s i)
      → IsFree b.nodes b.free q
      → IsFree left_over (k ∷ b.free) (λ t j. without k (q t j))
  free-IsFree s i m p v =
      let (lt, real) = InPool-mem b.nodes k (q s i) p m in
      let len = length-set (unlink b (node b k)).nodes k empty_node ∙ length-unlink b (node b k) in
      let lt' : k < length left_over = rw len lt in
      record {
        distinct = (new, v.distinct);
        pool = (lt', real, InPool-length b.nodes left_over b.free len v.pool);
        apart = λ t j x mx. out t j x mx;
      }
    where
      new : mem k b.free ≡ false
      new = elim (Bool-cases (mem k b.free)) [
        | inl old ↦ cc (v.apart s i k old)
        | inr fresh ↦ fresh
      ]

      out : (t : Bool) (j x : ℕ) → mem x (k ∷ b.free) ≡ true → mem x (without k (q t j)) ≡ false
      out t j x mx = ground (arith, mem-without k x (q t j), v.apart t j x)
