-- ===== src/Exchange/Mirror/Process.antt =====
-- The feed of the exchange, command by command.
use exchange_and_feed_handle.Base.{ℕ, ◌<◌, ◌≡◌, refl, ap, ◌∙◌, true, false, inl, inr, Bool-cases}
use mathlib.Core.Path.{subst}
use exchange_and_feed_handle.Base.Run.{ok, >>=-returns}
use exchange_and_feed_handle.Types.{
  ClientCommand, CommandType, SequencedCommand, RejectReason, is_none,
}
use exchange_and_feed_handle.OrderBook.State.{MatchOutput, null}
use exchange_and_feed_handle.BookManager.{BookManager, bad_symbol}
use exchange_and_feed_handle.BookManager.Invariant.{IsManager}
use exchange_and_feed_handle.Risk.{check}
use exchange_and_feed_handle.Subscriber.{apply_event}
use exchange_and_feed_handle.Subscriber.Follow.{apply_events}
use exchange_and_feed_handle.Subscriber.Mirror.{Mirrors}
use exchange_and_feed_handle.Exchange.{
  Exchange, ProcessResult, process_command, apply_sequenced, execute, publish, reject,
}
use exchange_and_feed_handle.Exchange.Liveness.{publish-books}
use exchange_and_feed_handle.Exchange.Mirror.Commands.{
  IsFresh, Applies, Answers, run_command-Answers,
}

-- A replace is accepted.
abbrev IsTaken : SequencedCommand → ProcessResult → Type 0
IsTaken sc res = sc.cmd.type ≡ CommandType.replace → res.ack.accepted ≡ true

reject-books :
    (ex : Exchange) (seq : ℕ) (cmd : ClientCommand) (reason : RejectReason)
    → (reject ex seq cmd reason).0.books ≡ ex.books
unfolding reject
reject-books ex seq cmd reason = refl

reject-Applies :
    (ex : Exchange) (sc : SequencedCommand) (reason : RejectReason) (n m : BookManager)
    → Mirrors m n
    → Applies n (reject ex sc.seq sc.cmd reason).1.md_events m
unfolding reject apply_events apply_event
reject-Applies ex sc reason n m w = (refl, w)

publish-Applies :
    (ex : Exchange) (sc : SequencedCommand) (out : MatchOutput) (n : BookManager)
    → Answers n sc (ex.books, out)
    → IsTaken sc (publish ex sc out).1
    → Applies n (publish ex sc out).1.md_events ex.books
unfolding publish reject
publish-Applies ex sc out n (taken, refused) may = elim (Bool-cases (is_none out.reject)) [
  | inl accepted ↦ rw (publish, accepted) (taken (is_none-none out.reject accepted) ex.next_md_seq)
  | inr rejected ↦
      let may' = rw (publish, rejected) at may in
      rw (publish, rejected)
        (reject-Applies ex sc out.reject n ex.books
          (refused (λ e. cc (rw e at rejected)) (λ t. cc (may' t))))
]
  where
    is_none-none : (r : RejectReason) → is_none r ≡ true → r ≡ RejectReason.none
    is_none-none RejectReason.none e = refl
    is_none-none _ e = cc

-- What `process_command` answers, for a subscriber with the books before it.
execute-Applies :
    {max i : ℕ} (ex ex' : Exchange) (sc : SequencedCommand) (res : ProcessResult) (n : BookManager)
    → IsManager max i ex.books
    → i < null
    → Mirrors ex.books n
    → bad_symbol ex.books sc.cmd.symbol_id ≡ false
    → IsFresh ex.books sc.cmd
    → execute ex sc ≡ ok (ex', res)
    → IsTaken sc res
    → Applies n res.md_events ex'.books
unfolding execute
execute-Applies ex ex' sc res n v room w good fresh e may =
    let (risk, reason) = check ex.risk sc.cmd ex.books sc.recv_ts_ns in
    let checked : Exchange = record ex { risk = risk } in
    elim (Bool-cases (is_none reason)) [
      | inr refused ↦
          let run = rw (refused, execute) at e in
          let same : reject checked sc.seq sc.cmd reason ≡ (ex', res) = cc in
          subst (λ (r : Exchange × ProcessResult). Applies n r.1.md_events r.0.books) same
            (rw (reject-books checked sc.seq sc.cmd reason)
              (reject-Applies checked sc reason n ex.books w))
      | inl passed ↦
          let ((m', out), run, found) = >>=-returns _ _ _ (rw (passed, execute) at e) in
          let after : Exchange = record checked { books = m' } in
          let same : publish after sc out ≡ (ex', res) = cc in
          let answers = run_command-Answers ex.books n sc v room w fresh m' out good found in
          let may' : IsTaken sc (publish after sc out).1 =
            λ t. ap (λ (r : Exchange × ProcessResult). r.1.ack.accepted) same ∙ may t in
          subst (λ (r : Exchange × ProcessResult). Applies n r.1.md_events r.0.books) same
            (rw (publish-books after sc out) (publish-Applies after sc out n answers may'))
    ]

-- A subscriber with the books before a command applies its events without an error, and has the books behind
-- it: if the exchange's books are settled with fewer than `null` nodes, the command is for one of its symbols
-- and its new order has no live order's id, and it is no rejected replace.
pub process_command-Applies :
    {max i : ℕ} (ex ex' : Exchange) (cmd : ClientCommand) (now_ns : ℕ) (res : ProcessResult)
    (n : BookManager)
    → IsManager max i ex.books
    → i < null
    → Mirrors ex.books n
    → bad_symbol ex.books cmd.symbol_id ≡ false
    → IsFresh ex.books cmd
    → process_command ex cmd now_ns ≡ ok (ex', res)
    → (cmd.type ≡ CommandType.replace → res.ack.accepted ≡ true)
    → Applies n res.md_events ex'.books
unfolding process_command apply_sequenced
process_command-Applies ex ex' cmd now_ns res n v room w good fresh e may =
    execute-Applies _ ex' _ res n v room w good fresh e may
