-- ===== src/OrderBook/Digest/Reference.antt =====
-- The checksum of a book is a function of its queues.
use exchange_and_feed_handle.Base.{
  ℕ, zero, suc, ◌+◌, ◌-◌, ◌≤◌, ◌<◌, ◌≡◌, refl, sym, ap, ◌∙◌, Bool, true, false, inl, inr, Option,
  none, some, List, [], ◌∷◌, arith, ◌==◌, ltb, if◌then◌else◌, length, get_or, Bool-cases,
}
use mathlib.Core.Path.{subst}
use exchange_and_feed_handle.Base.Int.{to_u64}
use exchange_and_feed_handle.Base.Run.{ok}
use exchange_and_feed_handle.Checksum.{hash_combine}
use exchange_and_feed_handle.OrderBook.Bitmap.{has_bit, find_lowest_occupied}
use exchange_and_feed_handle.OrderBook.Bitmap.Lowest.{Lowest, find_lowest_occupied-Lowest}
use exchange_and_feed_handle.OrderBook.Bitmap.Highest.{Highest, find_highest_occupied-Highest}
use exchange_and_feed_handle.OrderBook.State.{
  OrderBook, Node, Half, null, empty_level, index_to_price,
}
use exchange_and_feed_handle.OrderBook.Nodes.Chain.{at, first, Seg, InPool}
use exchange_and_feed_handle.OrderBook.Queues.{Queues, nonempty, length-Distinct}
use exchange_and_feed_handle.OrderBook.Invariant.{IsBook, IsLadder}
use exchange_and_feed_handle.OrderBook.Invariant.Unlink.{InPool-mem}
use exchange_and_feed_handle.OrderBook.Digest.{
  hash_node, hash_chain, hash_level, prev_occupied, next_occupied, hash_bids, hash_asks, checksum,
}

-- The nodes of a queue, in its order.
abbrev pub hash_queue : List Node → List ℕ → ℕ → ℕ
hash_queue ns [] h = h
hash_queue ns (k ∷ q) h = hash_queue ns q (hash_node h (at ns k))

-- A level with a queue, and nothing for an empty one.
abbrev pub hash_used : OrderBook → Half → List ℕ → ℕ → ℕ → ℕ
hash_used b side q i h =
    if nonempty q
    then hash_queue b.nodes q (
        hash_combine (hash_combine h (to_u64 (index_to_price b i)))
          (get_or side.levels i empty_level).total_qty)
    else h

-- The `n` lowest bid levels, from the highest down, and the `n` ask levels from `i` on, going up.
abbrev pub all_bids : OrderBook → Queues → ℕ → ℕ → ℕ
all_bids b q zero h = h
all_bids b q (suc i) h = all_bids b q i (hash_used b b.bids (q true i) i h)

abbrev pub all_asks : OrderBook → Queues → ℕ → ℕ → ℕ → ℕ
all_asks b q zero i h = h
all_asks b q (suc n) i h = all_asks b q n (i + 1) (hash_used b b.asks (q false i) i h)

chain_of_queue :
    (ns : List Node) (fuel p : ℕ) (q : List ℕ) (h : ℕ)
    → length ns ≤ null
    → length q < fuel
    → InPool ns q
    → Seg ns p q null
    → hash_chain fuel ns (first q null) h ≡ ok (hash_queue ns q h)
unfolding hash_chain
chain_of_queue ns zero p q h bound less pool s = absurd (omega arith)
chain_of_queue ns (suc fuel) p [] h bound less pool s = refl
chain_of_queue ns (suc fuel) p (k ∷ q) h bound less (_, inside, pool) (_, next, s) =
    let real : (k == null) ≡ false = ground arith in
    rw (real, next) (chain_of_queue ns fuel k q (hash_node h (at ns k)) bound (omega arith) pool s)

-- The answer of the search from below, and from above, is the first level of the loop.
next_of_Lowest :
    (bm : List ℕ) (k j : ℕ) (o : Option ℕ)
    → ((i : ℕ) → i < j → has_bit bm i ≡ false)
    → Lowest (j + k) bm o
    → o ≡ next_occupied bm k j
unfolding next_occupied
next_of_Lowest bm zero j none clear l = refl
next_of_Lowest bm zero j (some r) clear (lt, bit_r, low) = cc (clear r (omega arith))
next_of_Lowest bm (suc k) j o clear l = elim (Bool-cases (has_bit bm j)) [
  | inl bit_j ↦ rw bit_j (here o l bit_j)
  | inr unset ↦ rw unset (
      next_of_Lowest bm k (j + 1) o (λ i lt. below unset i lt)
        (subst (λ n. Lowest n bm o) (omega arith) l))
]
  where
    here : (o : Option ℕ) → Lowest (j + suc k) bm o → has_bit bm j ≡ true → o ≡ some j
    here none l bit_j = cc (l j (omega arith))
    here (some r) (lt, bit_r, low) bit_j =
        let up : (ltb j r) ≡ false = elim (Bool-cases (ltb j r)) [
          | inr ge ↦ ge
          | inl more ↦ cc (low j (ground arith))
        ] in
        let down : (ltb r j) ≡ false = elim (Bool-cases (ltb r j)) [
          | inr ge ↦ ge
          | inl less ↦ cc (clear r (ground arith))
        ] in
        ap (λ x. some x) (ground arith)

    below : has_bit bm j ≡ false → (i : ℕ) → i < j + 1 → has_bit bm i ≡ false
    below unset i lt = elim (Bool-cases (i == j)) [
      | inl same ↦ let e : i ≡ j = ground arith in rw e unset
      | inr apart ↦ clear i (ground arith)
    ]

prev_of_Highest :
    (bm : List ℕ) (n : ℕ) (o : Option ℕ)
    → ((i : ℕ) → n ≤ i → has_bit bm i ≡ false)
    → Highest n bm o
    → o ≡ prev_occupied bm n
unfolding prev_occupied
prev_of_Highest bm zero none clear l = refl
prev_of_Highest bm zero (some r) clear (lt, bit_r, high) = absurd (omega arith)
prev_of_Highest bm (suc j) o clear l = elim (Bool-cases (has_bit bm j)) [
  | inl bit_j ↦ rw bit_j (here o l bit_j)
  | inr unset ↦ rw unset (prev_of_Highest bm j o (λ i le. above unset i le) (lower o l unset))
]
  where
    here : (o : Option ℕ) → Highest (suc j) bm o → has_bit bm j ≡ true → o ≡ some j
    here none l bit_j = cc (l j)
    here (some r) (lt, bit_r, high) bit_j =
        let up : (ltb r j) ≡ false = elim (Bool-cases (ltb r j)) [
          | inr ge ↦ ge
          | inl less ↦ cc (high j (ground arith))
        ] in
        ap (λ x. some x) (ground arith)

    above : has_bit bm j ≡ false → (i : ℕ) → j ≤ i → has_bit bm i ≡ false
    above unset i le = elim (Bool-cases (i == j)) [
      | inl same ↦ let e : i ≡ j = ground arith in rw e unset
      | inr apart ↦ clear i (ground arith)
    ]

    lower : (o : Option ℕ) → Highest (suc j) bm o → has_bit bm j ≡ false → Highest j bm o
    lower none l unset = l
    lower (some r) (lt, bit_r, high) unset =
        let apart : (r == j) ≡ false = elim (Bool-cases (r == j)) [
          | inr a ↦ a
          | inl same ↦ let e : r ≡ j = ground arith in cc (rw e at bit_r)
        ] in
        (ground arith, bit_r, high)

module _ (b : OrderBook) (q : Queues) (v : IsBook b q) where
  queue_hash :
      (s : Bool) (i h : ℕ)
      → hash_chain (suc (length b.nodes)) b.nodes (first (q s i) null) h
        ≡ ok (hash_queue b.nodes (q s i) h)
  queue_hash s i h =
      let pool = v.linked.pool s i in
      let few =
        length-Distinct (length b.nodes) (q s i) (v.linked.distinct s i)
          (λ k m. (InPool-mem b.nodes k (q s i) pool m).0) in
      chain_of_queue b.nodes (suc (length b.nodes)) null (q s i) h v.pool_bound (omega arith) pool
        (v.linked.chain s i)

  level_hash :
      (s : Bool) (side : Half) (i h : ℕ)
      → IsLadder b.level_count s side (q s)
      → has_bit side.bitmap i ≡ true
      → hash_level b side i h ≡ ok (hash_used b side (q s i) i h)
  unfolding hash_level
  level_hash s side i h l bit_i =
      let used : nonempty (q s i) ≡ true = sym (l.occupied i) ∙ bit_i in
      let inside : i < b.level_count = elim (Bool-cases (ltb i b.level_count)) [
        | inl lt ↦ ground arith
        | inr ge ↦ cc (rw (l.outside i (ground arith)) at used)
      ] in
      rw (used, (l.ends i inside).head) (queue_hash s i _)

  bids_hash :
      (n fuel h : ℕ)
      → n < fuel
      → hash_bids fuel b (prev_occupied b.bids.bitmap n) h ≡ ok (all_bids b q n h)
  unfolding hash_bids prev_occupied
  bids_hash n zero h less = absurd (omega arith)
  bids_hash zero (suc fuel) h less = refl
  bids_hash (suc i) (suc fuel) h less = elim (Bool-cases (has_bit b.bids.bitmap i)) [
    | inr unset ↦
        let idle : nonempty (q true i) ≡ false = sym (v.bids.occupied i) ∙ unset in
        rw (unset, idle) (bids_hash i (suc fuel) h (omega arith))
    | inl bit_i ↦ elim (Bool-cases (i == 0)) [
      | inl last ↦
          let e : i ≡ 0 = ground arith in
          rw (bit_i, last, level_hash true b.bids i h v.bids bit_i) (rw e refl)
      | inr more ↦
          rw (bit_i, more, level_hash true b.bids i h v.bids bit_i)
            (bids_hash i fuel (hash_used b b.bids (q true i) i h) (omega arith))
    ]
  ]

  asks_hash :
      (n i fuel h : ℕ)
      → n < fuel
      → i + n ≡ b.level_count
      → hash_asks fuel b (next_occupied b.asks.bitmap n i) h ≡ ok (all_asks b q n i h)
  unfolding hash_asks next_occupied
  asks_hash n i zero h less e = absurd (omega arith)
  asks_hash zero i (suc fuel) h less e = refl
  asks_hash (suc n) i (suc fuel) h less e = elim (Bool-cases (has_bit b.asks.bitmap i)) [
    | inr unset ↦
        let idle : nonempty (q false i) ≡ false = sym (v.asks.occupied i) ∙ unset in
        rw (unset, idle) (asks_hash n (i + 1) (suc fuel) h (omega arith) (omega arith))
    | inl bit_i ↦
        let left : b.level_count - (i + 1) ≡ n = omega arith in
        rw (bit_i, level_hash false b.asks i h v.asks bit_i, left)
          (asks_hash n (i + 1) fuel (hash_used b b.asks (q false i) i h) (omega arith)
            (omega arith))
  ]

-- `checksum` of a book whose parts describe the queues `q` returns: it mixes in the symbol, then each
-- bid level with a queue from the best down, then each ask level with a queue from the best up, and
-- for each level its price, its quantity and its orders in the order of their arrival.
pub checksum-eq :
    (b : OrderBook) (q : Queues)
    → IsBook b q
    → checksum b
      ≡ ok (
          all_asks b q b.level_count 0
            (all_bids b q b.level_count (hash_combine 0x4558_4348_424f_4f4b b.symbol_id)))
unfolding checksum
checksum-eq b q v =
    let high_clear : (i : ℕ) → b.level_count ≤ i → has_bit b.bids.bitmap i ≡ false =
      λ i le. v.bids.occupied i ∙ ap (λ l. nonempty l) (v.bids.outside i le) in
    let highest = prev_of_Highest b.bids.bitmap b.level_count _ high_clear (
      find_highest_occupied-Highest b.level_count b.bids.bitmap v.bids.words v.bids.bits_bound
        high_clear) in
    let lowest =
      next_of_Lowest b.asks.bitmap b.level_count 0 _ (λ i lt. absurd (omega arith))
        (subst (λ n. Lowest n b.asks.bitmap (find_lowest_occupied b.level_count b.asks.bitmap))
          (omega arith)
          (find_lowest_occupied-Lowest b.level_count b.asks.bitmap v.asks.words
            v.asks.bits_bound)) in
    let bids =
      bids_hash b q v b.level_count (suc b.level_count)
        (hash_combine 0x4558_4348_424f_4f4b b.symbol_id) (omega arith) in
    rw (highest, lowest, bids)
      (asks_hash b q v b.level_count 0 (suc b.level_count) _ (omega arith) (omega arith))
