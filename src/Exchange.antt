-- ===== src/Exchange.antt =====
-- `Exchange` and `replay_journal` of src/exchange.cpp. The journal is the bytes of its file, or `none`.
-- A command that throws has no state behind it.
pub mod Digest
pub mod Liveness
pub mod Mirror
pub mod Recover
pub mod Replay
pub mod Sequence
pub mod Uncrossed
use exchange_and_feed_handle.Base.{
  ℕ, zero, suc, ◌+◌, ◌-◌, ◌%◌, ◌^◌, Bool, true, false, not, ◌&&◌, Option, none, some, List, [], ◌∷◌,
  ◌==◌, leb, if◌then◌else◌,
}
use exchange_and_feed_handle.Base.Int.{pos, to_u64}
use exchange_and_feed_handle.Base.Run.{Run, ok, out_of_fuel, ◌>>=◌}
use exchange_and_feed_handle.Types.{
  ClientCommand, CommandType, SequencedCommand, Ack, Trade, MdEvent, MdType, RejectReason, Side,
  TimeInForce, is_none,
}
use exchange_and_feed_handle.Types.Codes.{side_byte, md_type_byte, reject_reason_byte}
use exchange_and_feed_handle.Checksum.{hash_combine}
use exchange_and_feed_handle.Protocol.{DecodeResult, DecodeError, decode_client_command}
use exchange_and_feed_handle.Journal.{file_header, append, JournalReader, next}
use exchange_and_feed_handle.OrderBook.{empty_output}
use exchange_and_feed_handle.OrderBook.State.{MatchOutput, PriceLadderConfig}
use exchange_and_feed_handle.BookManager.{
  BookManager, open_manager, add_order, cancel_order, replace_order, contains_order,
}
use exchange_and_feed_handle.Risk.{RiskLimits, RiskEngine, check, on_market_data}

pub record ProcessResult : Type 0 where
  pub ack : Ack
  pub md_events : List MdEvent
  pub trades : List Trade

-- Whether there is a journal stands in place of its path.
pub record ExchangeConfig : Type 0 where
  pub max_symbol : ℕ
  pub ladder : PriceLadderConfig
  pub risk_limits : RiskLimits
  pub journaled : Bool

pub record Exchange : Type 0 where
  pub next_seq : ℕ
  pub next_md_seq : ℕ
  pub books : BookManager
  pub risk : RiskEngine
  pub journal : Option (List ℕ)
  pub md_checksum : ℕ

-- The members' first values.
abbrev pub new_exchange : RiskLimits → Option (List ℕ) → BookManager → Exchange
new_exchange limits journal books = record {
  next_seq = 1;
  next_md_seq = 1;
  books = books;
  risk = record { limits = limits; accounts = [] };
  journal = journal;
  md_checksum = 0x4d44_4348_4b53_554d;
}

unfoldable pub open_exchange : ExchangeConfig → Run Exchange
open_exchange cfg = do
  books ← open_manager cfg.max_symbol cfg.ladder
  ok (new_exchange cfg.risk_limits (if cfg.journaled then some file_header else none) books)

-- `++` on a 64-bit counter.
abbrev pub bump : ℕ → ℕ
bump n = (n + 1) % 2 ^ 64

abbrev pub reject_event : ℕ → ClientCommand → RejectReason → MdEvent
reject_event seq cmd reason = record {
  seq = seq;
  type = MdType.reject;
  symbol_id = cmd.symbol_id;
  order_id = cmd.order_id;
  new_order_id = 0;
  account_id = cmd.account_id;
  side = cmd.side;
  price = cmd.price;
  qty = cmd.qty;
  reason = reason;
}

abbrev pub ack_of : ℕ → ClientCommand → Bool → RejectReason → Ack
ack_of seq cmd accepted reason = record {
  seq = seq;
  client_order_id = cmd.client_order_id;
  order_id = cmd.order_id;
  accepted = accepted;
  reason = reason;
}

-- The four values that `reject` mixes into the checksum of the feed.
unfoldable pub hash_reject : ℕ → MdEvent → ℕ
hash_reject h ev =
    hash_combine
      (hash_combine (hash_combine (hash_combine h ev.seq) (md_type_byte ev.type)) ev.order_id)
      (reject_reason_byte ev.reason)

unfoldable pub reject : Exchange → ℕ → ClientCommand → RejectReason → Exchange × ProcessResult
reject ex seq cmd reason =
    let ev : MdEvent = reject_event ex.next_md_seq cmd reason in
    (
      record ex { next_md_seq = bump ex.next_md_seq; md_checksum = hash_reject ex.md_checksum ev },
      record { ack = ack_of seq cmd false reason; md_events = ev ∷ []; trades = [] },
    )

-- The ten values of an event.
unfoldable pub hash_event : ℕ → MdEvent → ℕ
hash_event h ev =
    let h : ℕ = hash_combine h ev.seq in
    let h : ℕ = hash_combine h (md_type_byte ev.type) in
    let h : ℕ = hash_combine h ev.symbol_id in
    let h : ℕ = hash_combine h ev.order_id in
    let h : ℕ = hash_combine h ev.new_order_id in
    let h : ℕ = hash_combine h ev.account_id in
    let h : ℕ = hash_combine h (side_byte ev.side) in
    let h : ℕ = hash_combine h (to_u64 ev.price) in
    let h : ℕ = hash_combine h ev.qty in hash_combine h (reject_reason_byte ev.reason)

unfoldable pub account_for_md : Exchange → List MdEvent → Exchange
account_for_md ex [] = ex
account_for_md ex (ev ∷ evs) =
    account_for_md
      (record ex {
        md_checksum = hash_event ex.md_checksum ev;
        risk = on_market_data ex.risk ev (contains_order ex.books ev.order_id);
      })
      evs

-- `ev.seq = next_md_seq_++` for each event.
unfoldable pub number_events : ℕ → List MdEvent → ℕ × List MdEvent
number_events n [] = (n, [])
number_events n (ev ∷ evs) =
    let (n', rest) = number_events (bump n) evs in (n', record ev { seq = n } ∷ rest)

-- What the books do with a command.
abbrev pub cancel_output : BookManager × Option MdEvent → BookManager × MatchOutput
cancel_output (m, none) = (m, record empty_output { reject = RejectReason.unknown_order })
cancel_output (m, some ev) = (m, record empty_output { md_events = ev ∷ [] })

unfoldable pub run_command : BookManager → SequencedCommand → Run (BookManager × MatchOutput)
run_command books sc = elim sc.cmd.type [
  | CommandType.new ↦ add_order books sc.seq sc.cmd
  | CommandType.cancel ↦ ok (cancel_output (cancel_order books sc.seq sc.cmd.cancel_order_id))
  | CommandType.replace ↦ replace_order books sc.seq sc.cmd
  | CommandType.other n ↦ ok (books, empty_output)
]

-- The end of `apply_sequenced`: a reject, or the events numbered, accounted for and returned.
unfoldable pub publish : Exchange → SequencedCommand → MatchOutput → Exchange × ProcessResult
publish ex sc out =
    if not (is_none out.reject)
    then reject ex sc.seq sc.cmd out.reject
    else (let (n, evs) = number_events ex.next_md_seq out.md_events in
        (
          account_for_md (record ex { next_md_seq = n }) evs,
          record {
            ack = ack_of sc.seq sc.cmd true RejectReason.none;
            md_events = evs;
            trades = out.trades;
          },
        ))

-- `apply_sequenced` behind the sequence number and the journal.
unfoldable pub execute : Exchange → SequencedCommand → Run (Exchange × ProcessResult)
execute ex sc =
    let (risk, reason) = check ex.risk sc.cmd ex.books sc.recv_ts_ns in
    let ex' : Exchange = record ex { risk = risk } in
    if not (is_none reason)
    then ok (reject ex' sc.seq sc.cmd reason)
    else (run_command ex.books sc >>= λ (books, out).
        ok (publish (record ex' { books = books }) sc out))

-- `sc.seq != next_seq_ - 1 && sc.seq >= next_seq_`
abbrev pub next_after : ℕ → ℕ → ℕ
next_after next_seq seq =
    if not (seq == (next_seq + 2 ^ 64 - 1) % 2 ^ 64) && leb next_seq seq then bump seq else next_seq

abbrev pub journal_after : Option (List ℕ) → SequencedCommand → Bool → Option (List ℕ)
journal_after none sc write_journal = none
journal_after (some file) sc write_journal =
    if write_journal then some (append file sc) else some file

unfoldable pub apply_sequenced : Exchange → SequencedCommand → Bool → Run (Exchange × ProcessResult)
apply_sequenced ex sc write_journal =
    execute
      (record ex {
        next_seq = next_after ex.next_seq sc.seq;
        journal = journal_after ex.journal sc write_journal;
      })
      sc

unfoldable pub process_command : Exchange → ClientCommand → ℕ → Run (Exchange × ProcessResult)
process_command ex cmd now_ns =
    apply_sequenced (record ex { next_seq = bump ex.next_seq })
      (record { seq = ex.next_seq; recv_ts_ns = now_ns; cmd = cmd }) true

-- The default command, for symbol 1, in whose name a frame is refused.
abbrev pub dummy : ClientCommand
dummy = record {
  type = CommandType.new;
  client_order_id = 0;
  order_id = 0;
  cancel_order_id = 0;
  account_id = 0;
  symbol_id = 1;
  side = Side.buy;
  price = pos 0;
  qty = 0;
  tif = TimeInForce.gtc;
  client_ts_ns = 0;
}

abbrev pub reason_of : Option DecodeError → RejectReason
reason_of none = RejectReason.malformed
reason_of (some e) = e.reason

unfoldable pub process_frame : Exchange → List ℕ → ℕ → Run (Exchange × ProcessResult)
process_frame ex frame now_ns =
    let res : DecodeResult = decode_client_command frame in
    elim res.command [
      | none ↦ ok (
          reject (record ex { next_seq = bump ex.next_seq }) ex.next_seq dummy
            (reason_of res.error))
      | some cmd ↦ process_command ex cmd now_ns
    ]

-- The loop of `replay_journal`, for at most so many rounds, with its count of records.
unfoldable pub replay_loop : ℕ → Exchange → JournalReader → ℕ → Run (Exchange × JournalReader × ℕ)
replay_loop zero ex rd records = out_of_fuel
replay_loop (suc fuel) ex rd records =
    let (rd', got) = next rd in
    elim got [
      | none ↦ ok (ex, rd', records)
      | some sc ↦ apply_sequenced ex sc false >>= λ (ex', _). replay_loop fuel ex' rd' (records + 1)
    ]
