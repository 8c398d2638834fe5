-- ===== src/OrderBook/Invariant/Grow.antt =====
-- One side of the book after `append_to_level`.
use exchange_and_feed_handle.Base.{
  ℕ, ◌+◌, ◌/◌, ◌%◌, ◌^◌, ◌≤◌, ◌<◌, ◌≡◌, refl, sym, ◌∙◌, Bool, true, false, not, ◌||◌, inl, inr,
  Option, some, none, List, [], ◌∷◌, ◌++◌, arith, ◌==◌, ltb, if◌then◌else◌, length, set, get_or,
  get_or-set, length-set, length-append, Bool-cases,
}
use exchange_and_feed_handle.Base.Bits.{bit_or-lt, pow-lt}
use exchange_and_feed_handle.OrderBook.Bitmap.{set_bit, word}
use exchange_and_feed_handle.OrderBook.Bitmap.Laws.{has_bit-set_bit}
use exchange_and_feed_handle.OrderBook.Bitmap.Digits.{Words}
use exchange_and_feed_handle.OrderBook.State.{
  Half, Level, null, empty_level, raise_best, lower_best,
}
use exchange_and_feed_handle.OrderBook.Nodes.{level_after_append}
use exchange_and_feed_handle.OrderBook.Nodes.Chain.{last}
use exchange_and_feed_handle.OrderBook.Queues.{nonempty, last-snoc}
use exchange_and_feed_handle.OrderBook.Invariant.{IsEnds, IsBest, IsLadder}
use exchange_and_feed_handle.OrderBook.Invariant.Ends.{nonempty-length}
use exchange_and_feed_handle.OrderBook.Invariant.Ladder.{Words-set, Words-word}

Words-set_bit : (ws : List ℕ) (i : ℕ) → Words ws → Words (set_bit ws i)
unfolding set_bit
Words-set_bit ws i v = Words-set ws (i / 64) _ v (
    bit_or-lt 64 (word ws (i / 64)) (2 ^ (i % 64)) (Words-word ws (i / 64) v)
      (pow-lt (i % 64) 64 (omega arith)))

length-set_bit : (ws : List ℕ) (i : ℕ) → length (set_bit ws i) ≡ length ws
unfolding set_bit
length-set_bit ws i = length-set ws (i / 64) _

nonempty-snoc : (q : List ℕ) (k : ℕ) → nonempty (q ++ (k ∷ [])) ≡ true
nonempty-snoc [] k = refl
nonempty-snoc (j ∷ q) k = refl

-- The side after its level `i` has got one node more and become `level`.
abbrev pub grown_half : Bool → Half → ℕ → Level → Half
grown_half buy h i level =
    if (get_or h.levels i empty_level).count == 0
    then record {
      levels = set h.levels i level;
      bitmap = set_bit h.bitmap i;
      level_count = (h.level_count + 1) % 2 ^ 64;
      best_idx = (if buy then raise_best h.best_idx i else lower_best h.best_idx i);
    }
    else record h { levels = set h.levels i level }

pub level_after_append-IsEnds :
    (level : Level) (q : List ℕ) (k x : ℕ)
    → IsEnds level q
    → (nonempty q ≡ true → (last null q == null) ≡ false)
    → length q + 1 < 2 ^ 32
    → IsEnds (level_after_append level k x) (q ++ (k ∷ []))
level_after_append-IsEnds level [] k x v real small = record {
  head = rw v.tail refl;
  tail = refl;
  count = rw v.count refl;
}
level_after_append-IsEnds level (j ∷ q) k x v real small = record {
  head = rw (v.tail, real refl) v.head;
  tail = sym (last-snoc j k q);
  count = rw v.count (omega (arith, length-append q (k ∷ [])));
}

module _ (n : ℕ) (buy : Bool) (h : Half) (qs : ℕ → List ℕ) (v : IsLadder n buy h qs) (i k : ℕ)
    (inside : i < n) where
  abbrev pub longer : ℕ → List ℕ
  longer j = if i == j then qs j ++ (k ∷ []) else qs j

  grown-IsEnds :
      (level : Level)
      → IsEnds level (qs i ++ (k ∷ []))
      → (j : ℕ) → j < n
      → IsEnds (get_or (set h.levels i level) j empty_level) (longer j)
  grown-IsEnds level e j lt = elim (Bool-cases (i == j)) [
    | inl same ↦
        let ij : i ≡ j = ground arith in
        let w : ltb i (length h.levels) ≡ true = rw v.size (ground (arith, inside)) in
        rw (get_or-set h.levels i j level empty_level, same, w) (rw ij at e)
    | inr apart ↦ rw (get_or-set h.levels i j level empty_level, apart) (v.ends j lt)
  ]

  grown_outside : (j : ℕ) → n ≤ j → longer j ≡ []
  grown_outside j ge =
      let apart : (i == j) ≡ false = ground (arith, inside) in rw apart (v.outside j ge)

  -- Who has a queue after the node has joined.
  used : (j : ℕ) → nonempty (longer j) ≡ ((i == j) || nonempty (qs j))
  used j = elim (Bool-cases (i == j)) [
    | inl here ↦ rw here (nonempty-snoc (qs j) k)
    | inr there ↦ rw there refl
  ]

  grown-IsBest :
      (s : Bool) (o : Option ℕ)
      → IsBest s (λ j. nonempty (qs j)) o
      → IsBest s (λ j. nonempty (longer j)) (if s then raise_best o i else lower_best o i)
  grown-IsBest true none p = (rw (used i) (ground arith), λ j lt. rw (used j, p j) (ground arith))
  grown-IsBest false none p = (rw (used i) (ground arith), λ j lt. rw (used j, p j) (ground arith))
  grown-IsBest true (some r) (p, f) = elim (Bool-cases (ltb r i)) [
    | inl up ↦
        rw up (rw (used i) (ground arith), λ j lt. rw (used j, f j (ground arith)) (ground arith))
    | inr down ↦ rw down (rw (used r, p) (ground arith), λ j lt. rw (used j, f j lt) (ground arith))
  ]
  grown-IsBest false (some r) (p, f) = elim (Bool-cases (ltb i r)) [
    | inl down ↦
        rw down (rw (used i) (ground arith), λ j lt. rw (used j, f j (ground arith)) (ground arith))
    | inr up ↦ rw up (rw (used r, p) (ground arith), λ j lt. rw (used j, f j lt) (ground arith))
  ]

  -- The level had nodes before.
  known-IsBest :
      nonempty (qs i) ≡ true
      → (s : Bool) (o : Option ℕ) → IsBest s (λ j. nonempty (qs j)) o
      → IsBest s (λ j. nonempty (longer j)) o
  known-IsBest some_there s none p = λ j. cc (p i)
  known-IsBest some_there true (some r) (p, f) =
      (rw (used r, p) (ground arith), λ j lt. rw (used j, f j lt) (ground (arith, f j lt)))
  known-IsBest some_there false (some r) (p, f) =
      (rw (used r, p) (ground arith), λ j lt. rw (used j, f j lt) (ground (arith, f j lt)))

  first_node :
      (level : Level)
      → IsEnds level (qs i ++ (k ∷ []))
      → IsLadder n buy
          (record {
            levels = set h.levels i level;
            bitmap = set_bit h.bitmap i;
            level_count = (h.level_count + 1) % 2 ^ 64;
            best_idx = (if buy then raise_best h.best_idx i else lower_best h.best_idx i);
          })
          longer
  first_node level e = record {
    size = length-set h.levels i level ∙ v.size;
    ends = grown-IsEnds level e;
    words = Words-set_bit h.bitmap i v.words;
    enough_bits = rw (length-set_bit h.bitmap i) v.enough_bits;
    bits_bound = rw (length-set_bit h.bitmap i) v.bits_bound;
    occupied = λ j.
        rw
          (
            has_bit-set_bit h.bitmap i j (omega (arith, inside, v.enough_bits)),
            v.occupied j,
            used j,
          )
          refl;
    outside = grown_outside;
    best = grown-IsBest buy h.best_idx v.best;
  }

  one_more :
      (level : Level)
      → IsEnds level (qs i ++ (k ∷ []))
      → nonempty (qs i) ≡ true
      → IsLadder n buy (record h { levels = set h.levels i level }) longer
  one_more level e there = record {
    size = length-set h.levels i level ∙ v.size;
    ends = grown-IsEnds level e;
    words = v.words;
    enough_bits = v.enough_bits;
    bits_bound = v.bits_bound;
    occupied = λ j. v.occupied j ∙ sym (same j);
    outside = grown_outside;
    best = known-IsBest there buy h.best_idx v.best;
  }
    where
      same : (j : ℕ) → nonempty (longer j) ≡ nonempty (qs j)
      same j = elim (Bool-cases (i == j)) [
        | inl here ↦
            let ij : i ≡ j = ground arith in
            rw (here, nonempty-snoc (qs j) k) (sym (rw ij at there))
        | inr apart ↦ rw apart refl
      ]

  pub grown_half-IsLadder :
      (level : Level)
      → IsEnds level (qs i ++ (k ∷ []))
      → IsLadder n buy (grown_half buy h i level) longer
  grown_half-IsLadder level e =
      let count : nonempty (qs i) ≡ not ((get_or h.levels i empty_level).count == 0) =
        rw (v.ends i inside).count (nonempty-length (qs i)) in
      elim (Bool-cases ((get_or h.levels i empty_level).count == 0)) [
        | inl empty ↦ rw empty (first_node level e)
        | inr there ↦ rw there (one_more level e (rw there at count))
      ]
