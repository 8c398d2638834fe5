-- ===== src/OrderBook/Invariant/Open.antt =====
-- A book that `open_book` returns is settled.
use exchange_and_feed_handle.Base.{
  ℕ, zero, suc, ◌+◌, ◌-◌, ◌/◌, ◌%◌, ◌^◌, ◌<◌, ◌≡◌, refl, Bool, true, false, not, ◌||◌, inl, inr,
  none, [], arith, ltb, length, replicate, get_or, Bool-cases,
}
use mathlib.Core.Path.{subst}
use exchange_and_feed_handle.Base.Int.{ℤ, pos, negsuc, pos_part, leb_ℤ, ◌-ℤ◌, to_u64}
use exchange_and_feed_handle.Base.Bits.{bit-zero}
use exchange_and_feed_handle.Base.Map.{lookup}
use exchange_and_feed_handle.Base.Run.{ok}
use exchange_and_feed_handle.OrderBook.Bitmap.{has_bit, bits_per_word}
use exchange_and_feed_handle.OrderBook.Bitmap.Digits.{Words, clear_of_digit}
use exchange_and_feed_handle.OrderBook.State.{
  OrderBook, PriceLadderConfig, Half, empty_level, open_book,
}
use exchange_and_feed_handle.OrderBook.Queues.{Queues}
use exchange_and_feed_handle.OrderBook.Invariant.{IsBook, IsLadder}
use exchange_and_feed_handle.OrderBook.Invariant.Band.{IsBand}
use exchange_and_feed_handle.OrderBook.Invariant.AddOrder.{IsSettled}

get_or-replicate {ℓ} : {A : Type ℓ} (n i : ℕ) (a : A) → get_or (replicate n a) i a ≡ a
get_or-replicate zero i a = refl
get_or-replicate (suc n) zero a = refl
get_or-replicate (suc n) (suc i) a = get_or-replicate n i a

length-replicate {ℓ} : {A : Type ℓ} (n : ℕ) (a : A) → length (replicate n a) ≡ n
length-replicate zero a = refl
length-replicate (suc n) a = omega (arith, length-replicate n a)

Words-replicate : (n : ℕ) → Words (replicate n 0)
Words-replicate zero = tt
Words-replicate (suc n) = (omega arith, Words-replicate n)

abbrev words_of : ℕ → ℕ
words_of n = (n + bits_per_word - 1) / bits_per_word

abbrev open_half : ℕ → Half
open_half n = record {
  levels = replicate n empty_level;
  bitmap = replicate (words_of n) 0;
  level_count = 0;
  best_idx = none;
}

abbrev opened : ℕ → ℤ → ℤ → ℕ → OrderBook
opened symbol_id low high n = record {
  symbol_id = symbol_id;
  min_price = low;
  max_price = high;
  level_count = n;
  nodes = [];
  free = [];
  index = [];
  bids = open_half n;
  asks = open_half n;
}

abbrev no_queues : Queues
no_queues s i = []

has_bit-replicate : (n i : ℕ) → has_bit (replicate n 0) i ≡ false
has_bit-replicate n i =
    clear_of_digit (replicate n 0) i
      (rw (get_or-replicate {A = ℕ} n (i / bits_per_word) 0) (bit-zero (i % bits_per_word)))

open_half-IsLadder : (n : ℕ) (buy : Bool) → n < 2 ^ 32 → IsLadder n buy (open_half n) (λ i. [])
open_half-IsLadder n buy h = record {
  size = length-replicate n empty_level;
  ends = λ i lt.
      rw (get_or-replicate n i empty_level) (record { head = refl; tail = refl; count = refl });
  words = Words-replicate (words_of n);
  enough_bits = rw (length-replicate {A = ℕ} (words_of n) 0) (omega arith);
  bits_bound = rw (length-replicate {A = ℕ} (words_of n) 0) (omega arith);
  occupied = has_bit-replicate (words_of n);
  outside = λ i le. refl;
  best = λ i. refl;
}

opened-IsBook :
    (symbol_id n : ℕ) (low high : ℤ) → n < 2 ^ 32 → IsBook (opened symbol_id low high n) no_queues
unfolding lookup
opened-IsBook symbol_id n low high h = record {
  linked = record {
    chain = λ s i. tt;
    distinct = λ s i. tt;
    pool = λ s i. tt;
    home = λ s i k m. cc;
  };
  indexed = record { indexed = λ s i k m. cc; found = λ id k e. cc };
  free = record { distinct = tt; pool = tt; apart = λ s i k m. cc };
  bids = open_half-IsLadder n true h;
  asks = open_half-IsLadder n false h;
  pool_bound = omega arith;
}

opened-IsBand :
    (symbol_id : ℕ) (low high : ℤ)
    → pos_part high < 2 ^ 63
    → leb_ℤ low (pos 0) ≡ false
    → leb_ℤ low high ≡ true
    → ltb 0xffff_ffff ((to_u64 (high -ℤ low) + 1) % 2 ^ 64) ≡ false
    → IsBand (opened symbol_id low high ((to_u64 (high -ℤ low) + 1) % 2 ^ 64))
unfolding to_u64 ◌-ℤ◌
opened-IsBand symbol_id (negsuc l) high m p o s = absurd (ground arith)
opened-IsBand symbol_id (pos l) (negsuc h) m p o s = absurd (ground arith)
opened-IsBand symbol_id (pos l) (pos h) m p o s = record {
  low = refl;
  high = refl;
  positive = ground arith;
  span = ground arith;
  bound = ground arith;
}

-- A book that the constructor makes, for a `max_price` of 64 bits, is settled and has no node.
pub open_book-IsSettled :
    (symbol_id : ℕ) (ladder : PriceLadderConfig) (b : OrderBook)
    → pos_part ladder.max_price < 2 ^ 63
    → open_book symbol_id ladder ≡ ok b
    → IsSettled b × (length b.nodes ≡ 0)
unfolding open_book
open_book-IsSettled symbol_id ladder b m e =
    let low = ladder.min_price in
    let high = ladder.max_price in
    let n = (to_u64 (high -ℤ low) + 1) % 2 ^ 64 in
    elim (Bool-cases (leb_ℤ low (pos 0) || not (leb_ℤ low high))) [
      | inl bad ↦ cc (rw (bad, open_book) at e)
      | inr good ↦ elim (Bool-cases (ltb 0xffff_ffff n)) [
        | inl wide ↦ cc (rw (good, wide, open_book) at e)
        | inr fits ↦
            let same : opened symbol_id low high n ≡ b = cc (rw (good, fits, open_book) at e) in
            let band = opened-IsBand symbol_id low high m (ground arith) (ground arith) fits in
            subst (λ c. IsSettled c × (length c.nodes ≡ 0)) same
              (
                record {
                  sound = record {
                    band = band;
                    queues = no_queues;
                    book = opened-IsBook symbol_id n low high band.bound;
                  };
                  uncrossed = λ i j bid ask. cc;
                },
                refl,
              )
      ]
    ]
