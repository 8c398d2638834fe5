-- ===== src/Exchange/Sequence.antt =====
-- The sequence numbers of the feed, and a command that is not sequenced at all.
use exchange_and_feed_handle.Base.{
  ℕ, ◌+◌, ◌%◌, ◌^◌, ◌<◌, ◌≡◌, refl, true, inl, inr, List, [], ◌∷◌, arith, Bool, Bool-cases, length,
  ltb,
}
use exchange_and_feed_handle.Base.Run.{Run, ok, throws, out_of_fuel, out_of_range, ◌>>=◌}
use exchange_and_feed_handle.Types.{
  ClientCommand, CommandType, SequencedCommand, MdEvent, RejectReason, is_none,
}
use exchange_and_feed_handle.MarketData.Feed.{NumberedFrom}
use exchange_and_feed_handle.OrderBook.State.{MatchOutput}
use exchange_and_feed_handle.BookManager.{BookManager, book, add_order}
use exchange_and_feed_handle.Risk.{check}
use exchange_and_feed_handle.Exchange.{
  Exchange, ProcessResult, account_for_md, number_events, reject, publish, execute, run_command,
  apply_sequenced, process_command, bump,
}

number_events-NumberedFrom :
    (n : ℕ) (evs : List MdEvent)
    → n < 2 ^ 64
    → NumberedFrom n (number_events n evs).1
      × ((number_events n evs).0 ≡ (n + length (number_events n evs).1) % 2 ^ 64)
unfolding number_events
number_events-NumberedFrom n [] h = (tt, omega arith)
number_events-NumberedFrom n (ev ∷ evs) h =
    let (rest, next) = number_events-NumberedFrom (bump n) evs (omega arith) in
    ((refl, rest), omega (arith, next))

account_for_md-next_md_seq :
    (evs : List MdEvent) (ex : Exchange) → (account_for_md ex evs).next_md_seq ≡ ex.next_md_seq
unfolding account_for_md
account_for_md-next_md_seq [] ex = refl
account_for_md-next_md_seq (ev ∷ evs) ex = account_for_md-next_md_seq evs _

-- The events go on from `n`, and `ex` after them.
abbrev pub GoesOn : ℕ → Exchange × ProcessResult → Type 0
GoesOn n (ex, res) =
    NumberedFrom n res.md_events × (ex.next_md_seq ≡ (n + length res.md_events) % 2 ^ 64)

reject-GoesOn :
    (ex : Exchange) (seq : ℕ) (cmd : ClientCommand) (reason : RejectReason)
    → GoesOn ex.next_md_seq (reject ex seq cmd reason)
unfolding reject
reject-GoesOn ex seq cmd reason = ((refl, tt), refl)

publish-GoesOn :
    (ex : Exchange) (sc : SequencedCommand) (out : MatchOutput)
    → ex.next_md_seq < 2 ^ 64
    → GoesOn ex.next_md_seq (publish ex sc out)
unfolding publish
publish-GoesOn ex sc out h = elim (Bool-cases (is_none out.reject)) [
  | inl p ↦
      let (n, evs) = number_events ex.next_md_seq out.md_events in
      let (numbers, next) = number_events-NumberedFrom ex.next_md_seq out.md_events h in
      rw (p, publish, account_for_md-next_md_seq evs (record ex { next_md_seq = n }))
        (numbers, next)
  | inr p ↦ rw (p, publish) (reject-GoesOn ex sc.seq sc.cmd out.reject)
]

finish-GoesOn :
    (ex : Exchange) (sc : SequencedCommand) (m : Run (BookManager × MatchOutput))
    (got : Exchange × ProcessResult)
    → ex.next_md_seq < 2 ^ 64
    → (m >>= λ (books, out). ok (publish (record ex { books = books }) sc out)) ≡ ok got
    → GoesOn ex.next_md_seq got
finish-GoesOn ex sc (ok (books, out)) got h e =
    let same : publish (record ex { books = books }) sc out ≡ got = cc in
    rw same at (publish-GoesOn (record ex { books = books }) sc out h)
finish-GoesOn ex sc (throws x) got h e = cc
finish-GoesOn ex sc out_of_fuel got h e = cc

execute-GoesOn :
    (ex : Exchange) (sc : SequencedCommand) (got : Exchange × ProcessResult)
    → ex.next_md_seq < 2 ^ 64
    → execute ex sc ≡ ok got
    → GoesOn ex.next_md_seq got
unfolding execute
execute-GoesOn ex sc got h e =
    let (risk, reason) = check ex.risk sc.cmd ex.books sc.recv_ts_ns in
    let ex' : Exchange = record ex { risk = risk } in
    elim (Bool-cases (is_none reason)) [
      | inl p ↦ finish-GoesOn ex' sc (run_command ex.books sc) got h (rw (p, execute) at e)
      | inr p ↦
          let q = rw (p, execute) at e in
          let same : reject ex' sc.seq sc.cmd reason ≡ got = cc in
          rw same at (reject-GoesOn ex' sc.seq sc.cmd reason)
    ]

-- If the exchange's next number fits 64 bits, a command that is applied, accepted or rejected, goes on
-- with the feed without a gap: its events are numbered from that number on, and the next number moves on
-- by their count.
pub apply_sequenced-GoesOn :
    (ex ex' : Exchange) (sc : SequencedCommand) (write_journal : Bool) (res : ProcessResult)
    → ex.next_md_seq < 2 ^ 64
    → apply_sequenced ex sc write_journal ≡ ok (ex', res)
    → NumberedFrom ex.next_md_seq res.md_events
      × (ex'.next_md_seq ≡ (ex.next_md_seq + length res.md_events) % 2 ^ 64)
unfolding apply_sequenced
apply_sequenced-GoesOn ex ex' sc write_journal res h e = execute-GoesOn _ sc (ex', res) h e

-- A `New` command for a symbol above the greatest that passes the risk checks is not rejected: it throws
-- `std::out_of_range`.
pub process_command_bad_symbol :
    (ex : Exchange) (cmd : ClientCommand) (now_ns : ℕ)
    → cmd.type ≡ CommandType.new
    → ltb ex.books.max_symbol cmd.symbol_id ≡ true
    → (check ex.risk cmd ex.books now_ns).1 ≡ RejectReason.none
    → process_command ex cmd now_ns ≡ throws out_of_range
unfolding process_command apply_sequenced execute run_command add_order book
process_command_bad_symbol ex cmd now_ns t s r =
    rw (r, t, run_command, add_order, book, s, execute) (ground arith)
