-- ===== src/Exchange/Replay.antt =====
-- A replay of the journal of a run gives the state of the run.
use exchange_and_feed_handle.Base.{
  ℕ, ◌^◌, ◌<◌, ◌≡◌, refl, true, false, inl, inr, Option, none, List, [], ◌∷◌, arith, Bool-cases,
}
use exchange_and_feed_handle.Base.Run.{Run, ok, throws, out_of_fuel, ◌>>=◌}
use exchange_and_feed_handle.Types.{ClientCommand, SequencedCommand, MdEvent, RejectReason, is_none}
use exchange_and_feed_handle.Risk.{check}
use exchange_and_feed_handle.BookManager.{BookManager}
use exchange_and_feed_handle.OrderBook.State.{MatchOutput}
use exchange_and_feed_handle.Exchange.{
  Exchange, ProcessResult, account_for_md, reject, publish, execute, apply_sequenced,
  process_command, bump, number_events, run_command, next_after, journal_after,
}

abbrev pub with_journal : Exchange → Option (List ℕ) → Exchange
with_journal ex j = record ex { journal = j }

abbrev pub sequenced : ℕ → ClientCommand → ℕ → SequencedCommand
sequenced seq cmd now_ns = record { seq = seq; recv_ts_ns = now_ns; cmd = cmd }

-- Commands one after another, each with its time.
unfoldable pub run : Exchange → List (ClientCommand × ℕ) → Run Exchange
run ex [] = ok ex
run ex ((cmd, now_ns) ∷ cmds) = process_command ex cmd now_ns >>= λ (ex', _). run ex' cmds

-- The account of events leaves the sequence number and the journal, and does not read the journal.
account_for_md-journal :
    (evs : List MdEvent) (ex : Exchange) (j : Option (List ℕ))
    → account_for_md (with_journal ex j) evs ≡ with_journal (account_for_md ex evs) j
unfolding account_for_md
account_for_md-journal [] ex j = refl
account_for_md-journal (ev ∷ evs) ex j = account_for_md-journal evs _ j

account_for_md-keeps :
    (evs : List MdEvent) (ex : Exchange)
    → ((account_for_md ex evs).journal ≡ ex.journal)
      × ((account_for_md ex evs).next_seq ≡ ex.next_seq)
unfolding account_for_md
account_for_md-keeps [] ex = (refl, refl)
account_for_md-keeps (ev ∷ evs) ex = account_for_md-keeps evs _

publish-journal :
    (ex : Exchange) (j : Option (List ℕ)) (sc : SequencedCommand) (out : MatchOutput)
    → publish (with_journal ex j) sc out
      ≡ (with_journal (publish ex sc out).0 j, (publish ex sc out).1)
unfolding publish reject
publish-journal ex j sc out = elim (Bool-cases (is_none out.reject)) [
  | inl p ↦
      let (n, evs) = number_events ex.next_md_seq out.md_events in
      rw (p, publish, account_for_md-journal evs (record ex { next_md_seq = n }) j)
  | inr p ↦ rw (p, publish)
]

publish-keeps :
    (ex : Exchange) (sc : SequencedCommand) (out : MatchOutput)
    → ((publish ex sc out).0.journal ≡ ex.journal) × ((publish ex sc out).0.next_seq ≡ ex.next_seq)
unfolding publish reject
publish-keeps ex sc out = elim (Bool-cases (is_none out.reject)) [
  | inl p ↦
      let (n, evs) = number_events ex.next_md_seq out.md_events in
      rw (p, publish) (account_for_md-keeps evs (record ex { next_md_seq = n }))
  | inr p ↦ rw (p, publish) (refl, refl)
]

-- `publish` behind a run of the books.
finish :
    (ex : Exchange) (j : Option (List ℕ)) (sc : SequencedCommand)
    (m : Run (BookManager × MatchOutput)) (ex' : Exchange) (res : ProcessResult)
    → (m >>= λ (books, out). ok (publish (record ex { books = books }) sc out)) ≡ ok (ex', res)
    → ((m >>= λ (books, out). ok (publish (record ex { books = books; journal = j }) sc out))
        ≡ ok (with_journal ex' j, res))
      × (ex'.journal ≡ ex.journal)
      × (ex'.next_seq ≡ ex.next_seq)
finish ex j sc (ok (books, out)) ex' res e =
    let (file, seq) = publish-keeps (record ex { books = books }) sc out in
    let same = publish-journal (record ex { books = books }) j sc out in (cc, cc, cc)
finish ex j sc (throws x) ex' res e = cc
finish ex j sc out_of_fuel ex' res e = cc

refuse :
    (ex : Exchange) (j : Option (List ℕ)) (seq : ℕ) (cmd : ClientCommand) (reason : RejectReason)
    (ex' : Exchange) (res : ProcessResult)
    → ok (reject ex seq cmd reason) ≡ ok (ex', res)
    → (ok (reject (with_journal ex j) seq cmd reason) ≡ ok (with_journal ex' j, res))
      × (ex'.journal ≡ ex.journal)
      × (ex'.next_seq ≡ ex.next_seq)
unfolding reject
refuse ex j seq cmd reason ex' res e = (cc, cc, cc)

-- A command leaves the journal and the sequence number, and runs alike with any journal.
execute-journal :
    (ex : Exchange) (j : Option (List ℕ)) (sc : SequencedCommand) (ex' : Exchange)
    (res : ProcessResult)
    → execute ex sc ≡ ok (ex', res)
    → (execute (with_journal ex j) sc ≡ ok (with_journal ex' j, res))
      × (ex'.journal ≡ ex.journal)
      × (ex'.next_seq ≡ ex.next_seq)
unfolding execute reject
execute-journal ex j sc ex' res e =
    let (risk, reason) = check ex.risk sc.cmd ex.books sc.recv_ts_ns in
    elim (Bool-cases (is_none reason)) [
      | inl p ↦
          rw (p, execute)
            (finish (record ex { risk = risk }) j sc (run_command ex.books sc) ex' res
              (rw (p, execute) at e))
      | inr p ↦
          rw (p, execute)
            (refuse (record ex { risk = risk }) j sc.seq sc.cmd reason ex' res
              (rw (p, execute) at e))
    ]

-- One command, live and replayed.
pub process_command-replayed :
    (ex ex' : Exchange) (cmd : ClientCommand) (now_ns : ℕ) (res : ProcessResult)
    → ex.next_seq < 2 ^ 64
    → process_command ex cmd now_ns ≡ ok (ex', res)
    → (apply_sequenced (with_journal ex none) (sequenced ex.next_seq cmd now_ns) false
        ≡ ok (with_journal ex' none, res))
      × (ex'.journal ≡ journal_after ex.journal (sequenced ex.next_seq cmd now_ns) true)
      × (ex'.next_seq ≡ bump ex.next_seq)
unfolding process_command apply_sequenced
process_command-replayed ex ex' cmd now_ns res h e =
    let live : next_after (bump ex.next_seq) ex.next_seq ≡ bump ex.next_seq = ground arith in
    let again : next_after ex.next_seq ex.next_seq ≡ bump ex.next_seq = ground arith in
    let sc = sequenced ex.next_seq cmd now_ns in
    let (same, file, seq) =
      execute-journal
        (record ex { next_seq = bump ex.next_seq; journal = journal_after ex.journal sc true }) none
        sc ex' res (rw live at e) in
    (rw again same, file, seq)
