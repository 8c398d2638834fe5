-- ===== src/Tests/Session.antt =====
-- The theorems on the exchange, at a run of one order on one symbol.
use exchange_and_feed_handle.Base.{
  ℕ, ◌+◌, ◌%◌, ◌^◌, ◌<◌, ◌≤◌, ◌≡◌, ◌↔◌, refl, true, false, none, some, List, [], ◌∷◌, arith, length,
  ltb,
}
use exchange_and_feed_handle.Base.Int.{pos, pos_part}
use exchange_and_feed_handle.Base.Run.{Run, ok, throws, out_of_range, ◌>>=◌}
use exchange_and_feed_handle.Types.{ClientCommand, SequencedCommand, RejectReason}
use exchange_and_feed_handle.Journal.{open_reader}
use exchange_and_feed_handle.MarketData.Feed.{NumberedFrom}
use exchange_and_feed_handle.BookManager.{BookManager, symbol_ladder}
use exchange_and_feed_handle.BookManager.Invariant.{IsManager}
use exchange_and_feed_handle.Risk.{RiskLimits, RiskEngine, check, account}
use exchange_and_feed_handle.Risk.Limits.{check-Bounded, Bounded}
use exchange_and_feed_handle.Risk.Window.{
  check-eq_none_iff, IsTracked, Meets, count_recent, sent_after,
}
use exchange_and_feed_handle.Exchange.{
  Exchange, ExchangeConfig, ProcessResult, open_exchange, new_exchange, replay_loop,
  apply_sequenced, process_command,
}
use exchange_and_feed_handle.BookManager.Digest as Books
use exchange_and_feed_handle.Exchange.Digest.{replay_journal, replay_journal-run}
use exchange_and_feed_handle.Exchange.Liveness.{open_exchange-run}
use exchange_and_feed_handle.Exchange.Replay.{run}
use exchange_and_feed_handle.Exchange.Recover.{replay_loop-run}
use exchange_and_feed_handle.Exchange.Sequence.{apply_sequenced-GoesOn, process_command_bad_symbol}
use exchange_and_feed_handle.Tests.Compute.{exchange_code}
use exchange_and_feed_handle.Tests.Wire.{bid, bid-IsClientCommand}

abbrev limits : RiskLimits
limits = record {
  max_order_qty = 100;
  max_order_notional = 5000;
  max_open_orders_per_account = 3;
  max_msgs_per_window = 2;
  rate_window_ns = 1000;
}

abbrev pub config : ExchangeConfig
config = record {
  max_symbol = 1;
  ladder = record {
    min_price = pos 100;
    max_price = pos 103;
    symbol_price_stride = pos 0;
    symbol_price_modulo = 0;
  };
  risk_limits = limits;
  journaled = true;
}

abbrev closed : BookManager
closed = record { max_symbol = 0; ladder = config.ladder; books = []; order_to_symbol = [] }

abbrev pub state_of : Run Exchange → Exchange
state_of (ok ex) = ex
state_of _ = new_exchange limits none closed

abbrev pub opened : Exchange
opened = state_of (open_exchange config)

abbrev orders : List (ClientCommand × ℕ)
orders = (bid, 500) ∷ []

pub small_prices : (s : ℕ) → s ≤ 1 → pos_part (symbol_ladder config.ladder s).max_price < 2 ^ 63
unfolding symbol_ladder
small_prices s h = omega arith

pub opened_lem : open_exchange config ≡ ok opened
unfolding exchange_code
opened_lem = refl

run_lem : run opened orders ≡ ok (state_of (run opened orders))
unfolding exchange_code
run_lem = refl

replay_loop-run_example :
    (file : List ℕ) × ((state_of (run opened orders)).journal ≡ some file)
    × ((open_exchange (record config { journaled = false }) >>= λ fresh.
          replay_loop 2 fresh (open_reader file) 0)
        ≡ ok (
          record (state_of (run opened orders)) { journal = none },
          record { rest = []; error = none },
          1,
        ))
replay_loop-run_example =
    replay_loop-run config orders opened (state_of (run opened orders)) opened_lem run_lem
      ((bid-IsClientCommand, omega arith), tt)

abbrev result_of : Run (Exchange × ProcessResult) → Exchange × ProcessResult
result_of (ok got) = got
result_of _ = (
  opened,
  record {
    ack = record {
      seq = 0;
      client_order_id = 0;
      order_id = 0;
      accepted = false;
      reason = RejectReason.none;
    };
    md_events = [];
    trades = [];
  },
)

abbrev pub first_record : SequencedCommand
first_record = record { seq = 1; recv_ts_ns = 500; cmd = bid }

abbrev pub applied : Exchange × ProcessResult
applied = result_of (apply_sequenced opened first_record true)

pub applied_lem : apply_sequenced opened first_record true ≡ ok (applied.0, applied.1)
unfolding exchange_code
applied_lem = refl

opened_md_seq : opened.next_md_seq < 2 ^ 64
unfolding exchange_code
opened_md_seq = omega arith

apply_sequenced-GoesOn_example :
    NumberedFrom opened.next_md_seq applied.1.md_events
    × (applied.0.next_md_seq ≡ (opened.next_md_seq + length applied.1.md_events) % 2 ^ 64)
apply_sequenced-GoesOn_example =
    apply_sequenced-GoesOn opened applied.0 first_record true applied.1 opened_md_seq applied_lem

abbrev far_bid : ClientCommand
far_bid = record bid { symbol_id = 2 }

far_symbol : ltb opened.books.max_symbol far_bid.symbol_id ≡ true
unfolding exchange_code
far_symbol = refl

far_passes : (check opened.risk far_bid opened.books 500).1 ≡ RejectReason.none
unfolding exchange_code
far_passes = refl

process_command_bad_symbol_example : process_command opened far_bid 500 ≡ throws out_of_range
process_command_bad_symbol_example =
    process_command_bad_symbol opened far_bid 500 refl far_symbol far_passes

-- The account 7 has sent messages at 100, 450 and 1400; its queue has lost the first.
abbrev busy : RiskEngine
busy = record {
  limits = limits;
  accounts =
      (7, record { open_orders = 1; open_notional = 1000; recent_msgs = 450 ∷ 1400 ∷ [] }) ∷ [];
}

busy-IsTracked : IsTracked busy bid.account_id 1450 (100 ∷ 450 ∷ 1400 ∷ [])
unfolding exchange_code
busy-IsTracked = record {
  ascending = ((omega arith, (omega arith, tt)), ((omega arith, tt), (tt, tt)));
  latest = (omega arith, (omega arith, (omega arith, tt)));
  lost = 100 ∷ [];
  split = refl;
  past = (omega arith, tt);
}

check-eq_none_iff_example :
    (((check busy bid opened.books 1500).1 ≡ RejectReason.none) ↔ (
      (count_recent 1000 1500 (100 ∷ 450 ∷ 1400 ∷ []) < 2) × Meets busy bid opened.books bid.type))
    × IsTracked
        (check busy bid opened.books 1500).0
        7
        1500
        (sent_after limits (100 ∷ 450 ∷ 1400 ∷ []) 1500)
check-eq_none_iff_example =
    check-eq_none_iff busy bid opened.books 1500 1450 (100 ∷ 450 ∷ 1400 ∷ []) busy-IsTracked
      (omega arith)

quiet :
    (id : ℕ) → length (account opened.risk id).recent_msgs ≤ opened.risk.limits.max_msgs_per_window
unfolding exchange_code
quiet id = omega arith

check-Bounded_example : Bounded opened.risk (check opened.risk bid opened.books 500).0 7 9
check-Bounded_example = check-Bounded opened.risk bid opened.books 500 9 (quiet 9) (quiet 7)

open_exchange-run_example :
    (ex' : Exchange) × (run opened orders ≡ ok ex') × IsManager 1 1 ex'.books
open_exchange-run_example =
    open_exchange-run config opened orders small_prices opened_lem (omega arith)
      ((omega arith, omega arith), tt)

replay_journal-run_example :
    (ex : Exchange) × (file : List ℕ) × (books : ℕ) × (run opened orders ≡ ok ex)
    × (ex.journal ≡ some file)
    × (Books.checksum ex.books ≡ ok books)
    × (replay_journal 2 file config
        ≡ ok (record {
          book_checksum = books;
          md_checksum = ex.md_checksum;
          records = 1;
          error = none;
        }))
replay_journal-run_example =
    replay_journal-run config orders opened small_prices opened_lem (omega arith)
      ((omega arith, omega arith), tt) ((bid-IsClientCommand, omega arith), tt)
