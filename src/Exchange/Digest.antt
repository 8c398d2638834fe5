-- ===== src/Exchange/Digest.antt =====
-- `Exchange::checksum` and `replay_journal` of src/exchange.cpp.
use exchange_and_feed_handle.Base.{
  ℕ, zero, suc, ◌^◌, ◌≤◌, ◌<◌, ◌≡◌, refl, ap, ◌∙◌, true, false, Option, none, some, List, length,
  All, Option-cases, inl, inr,
}
use Prim.Native.String.{String}
use exchange_and_feed_handle.Base.Int.{pos_part}
use exchange_and_feed_handle.Base.Map.{Map}
use exchange_and_feed_handle.Base.Run.{Run, ok, ◌>>=◌, >>=-returns}
use exchange_and_feed_handle.Types.{ClientCommand}
use exchange_and_feed_handle.Checksum.{hash_combine}
use exchange_and_feed_handle.OrderBook.State.{null}
use exchange_and_feed_handle.BookManager.{symbol_ladder}
use exchange_and_feed_handle.BookManager.Digest as Books
use exchange_and_feed_handle.BookManager.Digest.{checksum-returns}
use exchange_and_feed_handle.Risk.{AccountState}
use exchange_and_feed_handle.Risk.Digest as Risk
use exchange_and_feed_handle.Journal.{JournalReader, open_reader, next}
use exchange_and_feed_handle.Exchange.{Exchange, ExchangeConfig, open_exchange, replay_loop}
use exchange_and_feed_handle.Exchange.Replay.{run}
use exchange_and_feed_handle.Exchange.Recover.{InRange, replay_loop-run}
use exchange_and_feed_handle.Exchange.Liveness.{open_exchange-run}

-- `order` is the order in which the accounts are gone through.
unfoldable pub checksum : (Map AccountState → List (ℕ × AccountState)) → Exchange → Run ℕ
checksum order ex = Books.checksum ex.books >>= λ books. ok (
    hash_combine
      (hash_combine (hash_combine 0x4558_4348_534d_4348 books) (Risk.checksum order ex.risk))
      ex.md_checksum)

pub record ReplayResult : Type 0 where
  pub book_checksum : ℕ
  pub md_checksum : ℕ
  pub records : ℕ
  pub error : Option String

abbrev failed : ℕ → String → ReplayResult
failed records message = record {
  book_checksum = 0;
  md_checksum = 0;
  records = records;
  error = some message;
}

-- What `replay_journal` returns behind its loop.
unfoldable pub replay_result : Exchange → JournalReader → ℕ → Run ReplayResult
replay_result ex rd records = elim rd.error [
  | some message ↦ ok (failed records message)
  | none ↦ Books.checksum ex.books >>= λ c.
      ok (record {
        book_checksum = c;
        md_checksum = ex.md_checksum;
        records = records;
        error = none;
      })
]

-- `replay_journal` on the bytes of the file, for at most so many rounds of its loop.
unfoldable pub replay_journal : ℕ → List ℕ → ExchangeConfig → Run ReplayResult
replay_journal fuel file cfg = open_exchange (record cfg { journaled = false }) >>= λ ex.
    let rd = open_reader file in
    elim rd.error [
      | some message ↦ ok (failed 0 message)
      | none ↦ replay_loop fuel ex rd 0 >>= λ (ex', rd', records). replay_result ex' rd' records
    ]

-- A loop that ends without an error began without one.
replay_loop-error :
    (fuel : ℕ) (ex ex' : Exchange) (rd rd' : JournalReader) (k n : ℕ)
    → replay_loop fuel ex rd k ≡ ok (ex', rd', n)
    → rd'.error ≡ none
    → rd.error ≡ none
unfolding replay_loop next
replay_loop-error zero ex ex' rd rd' k n e none_left = cc
replay_loop-error (suc fuel) ex ex' rd rd' k n e none_left = elim (Option-cases rd.error) [
  | inl p ↦ p
  | inr (message, p) ↦
      let q = rw (p, replay_loop, next) at e in
      let same : rd ≡ rd' = cc in ap (λ r. r.error) same ∙ none_left
]

-- If no symbol's greatest price leaves 64 bits: on a journaled exchange that was just opened, any
-- commands in range for its symbols, at most `null` of them, are run, and a replay of the bytes of the
-- journal returns the checksum of the exchange's books, the checksum of its feed, the number of
-- commands and no error.
pub replay_journal-run :
    (cfg : ExchangeConfig) (cmds : List (ClientCommand × ℕ)) (start : Exchange)
    → ((s : ℕ) → s ≤ cfg.max_symbol → pos_part (symbol_ladder cfg.ladder s).max_price < 2 ^ 63)
    → open_exchange (record cfg { journaled = true }) ≡ ok start
    → length cmds ≤ null
    → All (λ (c : ClientCommand × ℕ). (0 < c.0.symbol_id) × (c.0.symbol_id ≤ cfg.max_symbol)) cmds
    → All InRange cmds
    → (ex : Exchange) × (file : List ℕ) × (books : ℕ) × (run start cmds ≡ ok ex)
      × (ex.journal ≡ some file)
      × (Books.checksum ex.books ≡ ok books)
      × (replay_journal (suc (length cmds)) file cfg
          ≡ ok (record {
            book_checksum = books;
            md_checksum = ex.md_checksum;
            records = length cmds;
            error = none;
          }))
unfolding replay_journal replay_result
replay_journal-run cfg cmds start prices opened few good v =
    let (ex, ran, w) =
      open_exchange-run (record cfg { journaled = true }) start cmds prices opened few good in
    let (file, written, replayed) = replay_loop-run cfg cmds start ex opened ran v in
    let (books, sum) = checksum-returns ex.books w in
    let (fresh, looped, made) =
      >>=-returns (open_exchange (record cfg { journaled = false })) _ _ replayed in
    let clean = replay_loop-error _ _ _ _ _ _ _ looped refl in
    (ex, file, books, ran, written, sum, rw (made, clean, looped, sum) refl)
