-- ===== src/OrderBook/Invariant/Ladder.antt =====
-- One side of the book after `remove_node`.
use exchange_and_feed_handle.Base.{
  ℕ, zero, suc, ◌+◌, ◌-◌, ◌*◌, ◌/◌, ◌%◌, ◌^◌, ◌≤◌, ◌<◌, ◌≡◌, refl, sym, ◌∙◌, Bool, true, false, not,
  inl, inr, Option, some, none, List, [], ◌∷◌, arith, ◌==◌, ltb, if◌then◌else◌, length, set, get_or,
  get_or-set, length-set, Bool-cases,
}
use exchange_and_feed_handle.Base.Bits.{bit_and-le}
use exchange_and_feed_handle.OrderBook.Bitmap.{
  has_bit, clear_bit, word, find_lowest_occupied, find_highest_occupied,
}
use exchange_and_feed_handle.OrderBook.Bitmap.Laws.{has_bit-clear_bit}
use exchange_and_feed_handle.OrderBook.Bitmap.Digits.{Words}
use exchange_and_feed_handle.OrderBook.Bitmap.Lowest.{Lowest, find_lowest_occupied-Lowest}
use exchange_and_feed_handle.OrderBook.Bitmap.Highest.{Highest, find_highest_occupied-Highest}
use exchange_and_feed_handle.OrderBook.State.{Half, Level, empty_level}
use exchange_and_feed_handle.OrderBook.Nodes.{is_best}
use exchange_and_feed_handle.OrderBook.Nodes.Chain.{mem}
use exchange_and_feed_handle.OrderBook.Queues.{nonempty, without, without_absent, nonempty-without}
use exchange_and_feed_handle.OrderBook.Invariant.{IsEnds, IsBest, IsLadder}
use exchange_and_feed_handle.OrderBook.Invariant.Ends.{nonempty-length, nonempty_of_mem}

pub Words-set : (ws : List ℕ) (i x : ℕ) → Words ws → x < 2 ^ 64 → Words (set ws i x)
Words-set [] i x v h = tt
Words-set (w ∷ ws) zero x v h = (h, v.1)
Words-set (w ∷ ws) (suc i) x v h = (v.0, Words-set ws i x v.1 h)

pub Words-word : (ws : List ℕ) (i : ℕ) → Words ws → word ws i < 2 ^ 64
Words-word [] i v = omega arith
Words-word (w ∷ ws) zero v = v.0
Words-word (w ∷ ws) (suc i) v = Words-word ws i v.1

Words-clear_bit : (ws : List ℕ) (i : ℕ) → Words ws → Words (clear_bit ws i)
unfolding clear_bit
Words-clear_bit ws i v =
    let x : ℕ = word ws (i / 64) in
    Words-set ws (i / 64) _ v (
      omega
        (arith, Words-word ws (i / 64) v, bit_and-le x x (2 ^ 64 - 1 - 2 ^ (i % 64)) (omega arith)))

length-clear_bit : (ws : List ℕ) (i : ℕ) → length (clear_bit ws i) ≡ length ws
unfolding clear_bit
length-clear_bit ws i = length-set ws (i / 64) _

-- The side after its level `i` has become `level`.
abbrev pub removed_half : ℕ → Bool → Half → ℕ → Level → Half
removed_half n buy h i level =
    if level.count == 0
    then record {
      levels = set h.levels i empty_level;
      bitmap = clear_bit h.bitmap i;
      level_count = (h.level_count + 2 ^ 64 - 1) % 2 ^ 64;
      best_idx =
          (if is_best h.best_idx i
            then (if buy
                then find_highest_occupied n (clear_bit h.bitmap i)
                else find_lowest_occupied n (clear_bit h.bitmap i))
            else h.best_idx);
    }
    else record h { levels = set h.levels i level }

module _ (n : ℕ) (buy : Bool) (h : Half) (qs : ℕ → List ℕ) (v : IsLadder n buy h qs) (i k : ℕ)
    (m : mem k (qs i) ≡ true) (one : (j : ℕ) → (i == j) ≡ false → mem k (qs j) ≡ false) where
  pub in_range : i < n
  in_range = elim (Bool-cases (ltb i n)) [
    | inl lt ↦ ground arith
    | inr ge ↦ cc (rw (v.outside i (ground arith)) at m)
  ]

  abbrev rest : ℕ → List ℕ
  rest j = without k (qs j)

  set-IsEnds :
      (level : Level)
      → IsEnds level (rest i)
      → (j : ℕ) → j < n
      → IsEnds (get_or (set h.levels i level) j empty_level) (rest j)
  set-IsEnds level e j lt = elim (Bool-cases (i == j)) [
    | inl same ↦
        let ij : i ≡ j = ground arith in
        let w : ltb i (length h.levels) ≡ true = rw v.size (ground (arith, in_range)) in
        rw (get_or-set h.levels i j level empty_level, same, w) (rw ij at e)
    | inr apart ↦
        rw (get_or-set h.levels i j level empty_level, apart, without_absent k (qs j) (one j apart))
          (v.ends j lt)
  ]

  -- The level has other nodes: its bit and the best level stay.
  kept_level :
      (level : Level)
      → IsEnds level (rest i)
      → nonempty (rest i) ≡ true
      → IsLadder n buy (record h { levels = set h.levels i level }) rest
  kept_level level e some_left = record {
    size = length-set h.levels i level ∙ v.size;
    ends = set-IsEnds level e;
    words = v.words;
    enough_bits = v.enough_bits;
    bits_bound = v.bits_bound;
    occupied = λ j. v.occupied j ∙ sym (same j);
    outside = λ j ge. rw (v.outside j ge) refl;
    best = best buy h.best_idx v.best;
  }
    where
      same : (j : ℕ) → nonempty (rest j) ≡ nonempty (qs j)
      same j = elim (Bool-cases (i == j)) [
        | inl here ↦
            let ij : i ≡ j = ground arith in
            rw (← ij) (some_left ∙ sym (nonempty_of_mem k (qs i) m))
        | inr apart ↦ rw (without_absent k (qs j) (one j apart)) refl
      ]

      best :
          (s : Bool) (o : Option ℕ)
          → IsBest s (λ j. nonempty (qs j)) o
          → IsBest s (λ j. nonempty (rest j)) o
      best s none p = λ j. same j ∙ p j
      best true (some r) (p, f) = (same r ∙ p, λ j lt. same j ∙ f j lt)
      best false (some r) (p, f) = (same r ∙ p, λ j lt. same j ∙ f j lt)

  -- The level is empty: its bit is cleared, and the best level is looked for if it was this one.
  cleared_level :
      nonempty (rest i) ≡ false
      → IsLadder n buy
          (record {
            levels = set h.levels i empty_level;
            bitmap = clear_bit h.bitmap i;
            level_count = (h.level_count + 2 ^ 64 - 1) % 2 ^ 64;
            best_idx =
                (if is_best h.best_idx i
                  then (if buy
                      then find_highest_occupied n (clear_bit h.bitmap i)
                      else find_lowest_occupied n (clear_bit h.bitmap i))
                  else h.best_idx);
          })
          rest
  cleared_level none_left = record {
    size = length-set h.levels i empty_level ∙ v.size;
    ends = set-IsEnds empty_level (empty_ends (rest i) none_left);
    words = words';
    enough_bits = rw len v.enough_bits;
    bits_bound = bound';
    occupied = occupied';
    outside = λ j ge. rw (v.outside j ge) refl;
    best = elim (Bool-cases (is_best h.best_idx i)) [
      | inl was ↦ rw was (searched buy)
      | inr other ↦ rw other (kept buy h.best_idx v.best other)
    ];
  }
    where
      empty_ends : (q : List ℕ) → nonempty q ≡ false → IsEnds empty_level q
      empty_ends [] e = record { head = refl; tail = refl; count = refl }
      empty_ends (x ∷ q) e = cc

      bm : List ℕ
      bm = clear_bit h.bitmap i

      len : length (clear_bit h.bitmap i) ≡ length h.bitmap
      len = length-clear_bit h.bitmap i

      words' : Words (clear_bit h.bitmap i)
      words' = Words-clear_bit h.bitmap i v.words

      bound' : 64 * length (clear_bit h.bitmap i) ≤ 2 ^ 32
      bound' = rw len v.bits_bound

      inside : i / 64 < length h.bitmap
      inside = omega (arith, in_range, v.enough_bits)

      occupied' : (j : ℕ) → has_bit (clear_bit h.bitmap i) j ≡ nonempty (rest j)
      occupied' j = elim (Bool-cases (i == j)) [
        | inl here ↦
            let ij : i ≡ j = ground arith in
            rw (has_bit-clear_bit h.bitmap i j inside, here) (sym (rw ij at none_left))
        | inr apart ↦
            rw (has_bit-clear_bit h.bitmap i j inside, apart, without_absent k (qs j) (one j apart))
              (v.occupied j)
      ]

      above : (j : ℕ) → n ≤ j → has_bit (clear_bit h.bitmap i) j ≡ false
      above j ge = occupied' j ∙ rw (v.outside j ge) refl

      from_highest :
          (o : Option ℕ)
          → Highest n (clear_bit h.bitmap i) o
          → IsBest true (λ j. nonempty (rest j)) o
      from_highest none p = λ j. sym (occupied' j) ∙ p j
      from_highest (some r) (lt, p, f) = (sym (occupied' r) ∙ p, λ j q. sym (occupied' j) ∙ f j q)

      from_lowest :
          (o : Option ℕ)
          → Lowest n (clear_bit h.bitmap i) o
          → IsBest false (λ j. nonempty (rest j)) o
      from_lowest none p = λ j. elim (Bool-cases (ltb j n)) [
        | inl lt ↦ sym (occupied' j) ∙ p j (ground arith)
        | inr ge ↦ rw (v.outside j (ground arith)) refl
      ]
      from_lowest (some r) (lt, p, f) = (sym (occupied' r) ∙ p, λ j q. sym (occupied' j) ∙ f j q)

      searched :
          (s : Bool)
          → IsBest s
              (λ j. nonempty (rest j))
              (if s
                then find_highest_occupied n (clear_bit h.bitmap i)
                else find_lowest_occupied n (clear_bit h.bitmap i))
      searched true = from_highest _ (find_highest_occupied-Highest n bm words' bound' above)
      searched false = from_lowest _ (find_lowest_occupied-Lowest n bm words' bound')

      fewer : (j : ℕ) → nonempty (qs j) ≡ false → nonempty (rest j) ≡ false
      fewer j e = nonempty-without k (qs j) e

      stays : (r : ℕ) → (r == i) ≡ false → nonempty (qs r) ≡ true → nonempty (rest r) ≡ true
      stays r ne p = rw (without_absent k (qs r) (one r (ground arith))) p

      kept :
          (s : Bool) (o : Option ℕ)
          → IsBest s (λ j. nonempty (qs j)) o
          → is_best o i ≡ false
          → IsBest s (λ j. nonempty (rest j)) o
      kept s none p ne = λ j. fewer j (p j)
      kept true (some r) (p, f) ne = (stays r ne p, λ j lt. fewer j (f j lt))
      kept false (some r) (p, f) ne = (stays r ne p, λ j lt. fewer j (f j lt))

  pub removed_half-IsLadder :
      (level : Level) → IsEnds level (rest i) → IsLadder n buy (removed_half n buy h i level) rest
  removed_half-IsLadder level e =
      let count : nonempty (rest i) ≡ not (level.count == 0) =
        rw e.count (nonempty-length (rest i)) in
      elim (Bool-cases (level.count == 0)) [
        | inl zero_left ↦ rw zero_left (cleared_level (rw zero_left at count))
        | inr some_left ↦ rw some_left (kept_level level e (rw some_left at count))
      ]
