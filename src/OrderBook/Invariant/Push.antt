-- ===== src/OrderBook/Invariant/Push.antt =====
-- The nodes after `append_to_level`: a queue with one node more.
use exchange_and_feed_handle.Base.{
  ℕ, ◌<◌, ◌≡◌, refl, sym, ap, ◌∙◌, Bool, true, false, ◌&&◌, inl, inr, List, [], ◌∷◌, ◌++◌, arith,
  ◌==◌, length, set, get_or-set, length-set, Bool-cases, ==_refl, some, none,
}
use exchange_and_feed_handle.Base.Int.{ℤ}
use exchange_and_feed_handle.Base.Map.{Map, lookup, insert, lookup-insert}
use exchange_and_feed_handle.Types.{is_buy}
use exchange_and_feed_handle.OrderBook.State.{Node, null, empty_node}
use exchange_and_feed_handle.OrderBook.Nodes.Chain.{
  at, mem, last, Distinct, Seg, InPool, Seg-set, Seg-append, at-set_ne, at-set_self, mem-last,
  ne_of_mem,
}
use exchange_and_feed_handle.OrderBook.Nodes.Links.{
  write_next, write_next-Seg, write_next-other, InPool-set,
}
use exchange_and_feed_handle.OrderBook.Queues.{
  Queues, pushed, same_side, same_side_eq, same_side_refl, mem-snoc, Distinct-snoc,
}
use exchange_and_feed_handle.OrderBook.Invariant.{IsHome, IsLinked, IsIndexed, IsFree}
use exchange_and_feed_handle.OrderBook.Invariant.Unlink.{
  contents, contents-write_next, length-write_next, InPool-length, IsHome-contents,
}

InPool-snoc :
    (ns : List Node) (k : ℕ) (q : List ℕ)
    → k < length ns
    → k < null
    → InPool ns q
    → InPool ns (q ++ (k ∷ []))
InPool-snoc ns k [] lt ne p = (lt, ne, tt)
InPool-snoc ns k (j ∷ q) lt ne (a, b, p) = (a, b, InPool-snoc ns k q lt ne p)

-- A write behind the end of a queue spares a node that is not in it.
at-write_next :
    (ns : List Node) (q : List ℕ) (k n : ℕ)
    → mem k q ≡ false
    → at (write_next ns (last null q) n) k ≡ at ns k
at-write_next ns [] k n out = refl
at-write_next ns (x ∷ xs) k n out = elim (Bool-cases (last x xs == null)) [
  | inl nil ↦ rw nil refl
  | inr real ↦
      let ne : (k == last x xs) ≡ false = ne_of_mem k (last x xs) (x ∷ xs) out (mem-last x xs) in
      rw real (at-set_ne ns (last x xs) k _ ne)
]

-- The pool `ps` has the node `k`, which is in no queue; it joins the back of the queue of side `s` and
-- level `i`.
module _ (low : ℤ) (ps : List Node) (q : Queues) (v : IsLinked low ps q) (s : Bool) (i k : ℕ)
    (inside : k < length ps) (real : k < null) (new : (t : Bool) (j : ℕ) → mem k (q t j) ≡ false)
    (home : IsHome low s i (at ps k)) where
  abbrev ms : List Node
  ms = set ps k (record (at ps k) { prev = last null (q s i); next = null })

  abbrev pub joined : List Node
  joined = write_next ms (last null (q s i)) k

  contents-joined : (j : ℕ) → contents (at joined j) ≡ contents (at ps j)
  contents-joined j =
      contents-write_next ms (last null (q s i)) k j
      ∙ ground (
        arith,
        get_or-set ps k j (record (at ps k) { prev = last null (q s i); next = null }) empty_node,
      )

  pub length-joined : length joined ≡ length ps
  length-joined = length-write_next ms (last null (q s i)) k ∙ length-set ps k _

  joined_chain : Seg joined null (q s i ++ (k ∷ [])) null
  joined_chain =
      let e = at-write_next ms (q s i) k k (new s i) ∙ at-set_self ps k _ inside in
      Seg-append joined null (q s i) (k ∷ []) null
        (write_next-Seg ms (q s i) null k (v.distinct s i) (InPool-set ps k _ (q s i) (v.pool s i))
          (Seg-set ps k _ null (q s i) null (new s i) (v.chain s i)))
        (ap (λ n. n.prev) e, ap (λ n. n.next) e, tt)

  other_chain :
      (t : Bool) (j : ℕ) → (same_side s t && (i == j)) ≡ false → Seg joined null (q t j) null
  other_chain t j ne =
      write_next-other ms (q s i) (q t j) null null k apart
        (Seg-set ps k _ null (q t j) null (new t j) (v.chain t j))
    where
      apart : (x : ℕ) → mem x (q s i) ≡ true → mem x (q t j) ≡ false
      apart x m = elim (Bool-cases (mem x (q t j))) [
        | inl both ↦
            let h = v.home s i x m in
            let h' = v.home t j x both in
            let et : t ≡ s = sym h'.side ∙ h.side in
            let ej : j ≡ i = sym h'.level ∙ h.level in
            cc (rw (et, ej, same_side_refl s, ==_refl i) at ne)
        | inr out ↦ out
      ]

  pub joined-IsLinked : IsLinked low joined (pushed q s i k)
  joined-IsLinked = record {
    chain = λ t j. elim (Bool-cases (same_side s t && (i == j))) [
      | inl here ↦ let (et, ej) = place t j here in rw (here, et, ← ej) joined_chain
      | inr there ↦ rw there (other_chain t j there)
    ];
    distinct = λ t j. elim (Bool-cases (same_side s t && (i == j))) [
      | inl here ↦ rw here (Distinct-snoc k (q t j) (new t j) (v.distinct t j))
      | inr there ↦ rw there (v.distinct t j)
    ];
    pool = λ t j. elim (Bool-cases (same_side s t && (i == j))) [
      | inl here ↦ rw here (
          InPool-length ps joined (q t j ++ (k ∷ [])) length-joined
            (InPool-snoc ps k (q t j) inside real (v.pool t j)))
      | inr there ↦ rw there (InPool-length ps joined (q t j) length-joined (v.pool t j))
    ];
    home = λ t j x m. IsHome-contents (at joined x) (at ps x) (contents-joined x) (home_of t j x m);
  }
    where
      place : (t : Bool) (j : ℕ) → (same_side s t && (i == j)) ≡ true → (t ≡ s) × (i ≡ j)
      place t j here = (same_side_eq s t (ground arith), ground arith)

      home_of : (t : Bool) (j x : ℕ) → mem x (pushed q s i k t j) ≡ true → IsHome low t j (at ps x)
      home_of t j x m = elim (Bool-cases (same_side s t && (i == j))) [
        | inl here ↦ elim (Bool-cases (x == k)) [
          | inl same ↦
              let (et, ij) = place t j here in
              let xk : x ≡ k = ground arith in rw (xk, et, ← ij) home
          | inr apart ↦ v.home t j x (rw (here, mem-snoc x k (q t j), apart) at m)
        ]
        | inr there ↦ v.home t j x (rw there at m)
      ]

  pub joined-IsIndexed :
      (index : Map ℕ)
      → IsIndexed ps index q
      → lookup (at ps k).order_id index ≡ none
      → IsIndexed joined (insert (at ps k).order_id k index) (pushed q s i k)
  joined-IsIndexed index w fresh = record {
    indexed = λ t j x m. rw (id x) (indexed t j x m);
    found = λ y x p. let (e, m) = found y x p in (id x ∙ e, rw (side x, level x) m);
  }
    where
      id : (x : ℕ) → (at joined x).order_id ≡ (at ps x).order_id
      id x = ap (λ n. n.order_id) (contents-joined x)

      side : (x : ℕ) → (at joined x).side ≡ (at ps x).side
      side x = ap (λ n. n.side) (contents-joined x)

      level : (x : ℕ) → (at joined x).level_idx ≡ (at ps x).level_idx
      level x = ap (λ n. n.level_idx) (contents-joined x)

      mem_pushed :
          (t : Bool) (j x : ℕ) → (x == k) ≡ false → mem x (pushed q s i k t j) ≡ mem x (q t j)
      mem_pushed t j x ne = elim (Bool-cases (same_side s t && (i == j))) [
        | inl here ↦ rw (here, mem-snoc x k (q t j), ne) refl
        | inr there ↦ rw there refl
      ]

      old :
          (t : Bool) (j x : ℕ)
          → mem x (q t j) ≡ true
          → lookup (at ps x).order_id (insert (at ps k).order_id k index) ≡ some x
      old t j x m = elim (Bool-cases ((at ps k).order_id == (at ps x).order_id)) [
        | inl same ↦
            let e : (at ps k).order_id ≡ (at ps x).order_id = ground arith in
            cc (rw e at fresh, w.indexed t j x m)
        | inr apart ↦
            rw (lookup-insert (at ps k).order_id (at ps x).order_id k index, apart)
              (w.indexed t j x m)
      ]

      indexed :
          (t : Bool) (j x : ℕ)
          → mem x (pushed q s i k t j) ≡ true
          → lookup (at ps x).order_id (insert (at ps k).order_id k index) ≡ some x
      indexed t j x m = elim (Bool-cases (x == k)) [
        | inl same ↦
            let xk : x ≡ k = ground arith in
            rw
              (
                xk,
                lookup-insert (at ps k).order_id (at ps k).order_id k index,
                ==_refl (at ps k).order_id,
              )
              refl
        | inr apart ↦ old t j x (rw (mem_pushed t j x apart) at m)
      ]

      found :
          (y x : ℕ)
          → lookup y (insert (at ps k).order_id k index) ≡ some x
          → ((at ps x).order_id ≡ y)
            × (mem x (pushed q s i k (is_buy (at ps x).side) (at ps x).level_idx) ≡ true)
      found y x p = elim (Bool-cases ((at ps k).order_id == y)) [
        | inl same ↦
            let kx : some k ≡ some x = rw (lookup-insert (at ps k).order_id y k index, same) at p in
            let e : x ≡ k = cc in
            let ey : (at ps k).order_id ≡ y = ground arith in
            (
              rw e ey,
              rw
                  (
                    e,
                    home.side,
                    home.level,
                    same_side_refl s,
                    ==_refl i,
                    mem-snoc k k (q s i),
                    ==_refl k,
                  )
                  refl,
            )
        | inr apart ↦
            let (e, m) =
              w.found y x (rw (lookup-insert (at ps k).order_id y k index, apart) at p) in
            let ne : (x == k) ≡ false = not_new (is_buy (at ps x).side) (at ps x).level_idx x m in
            (e, rw (mem_pushed (is_buy (at ps x).side) (at ps x).level_idx x ne) m)
      ]
        where
          not_new : (t : Bool) (j x : ℕ) → mem x (q t j) ≡ true → (x == k) ≡ false
          not_new t j x m = elim (Bool-cases (x == k)) [
            | inl same ↦ let xk : x ≡ k = ground arith in cc (rw xk at m, new t j)
            | inr apart ↦ apart
          ]

  pub joined-IsFree :
      (free : List ℕ)
      → Distinct free
      → InPool ps free
      → ((t : Bool) (j x : ℕ) → mem x free ≡ true → mem x (q t j) ≡ false)
      → mem k free ≡ false
      → IsFree joined free (pushed q s i k)
  joined-IsFree free d p apart used = record {
    distinct = d;
    pool = InPool-length ps joined free length-joined p;
    apart = λ t j x m. out t j x m;
  }
    where
      out : (t : Bool) (j x : ℕ) → mem x free ≡ true → mem x (pushed q s i k t j) ≡ false
      out t j x m = elim (Bool-cases (x == k)) [
        | inl same ↦ let xk : x ≡ k = ground arith in cc (rw xk at m, used)
        | inr ne ↦ elim (Bool-cases (same_side s t && (i == j))) [
          | inl here ↦ rw (here, mem-snoc x k (q t j), ne) (apart t j x m)
          | inr there ↦ rw there (apart t j x m)
        ]
      ]
