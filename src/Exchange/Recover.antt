-- ===== src/Exchange/Recover.antt =====
-- `replay_journal` on the journal of a run.
use exchange_and_feed_handle.Base.{
  ℕ, zero, suc, ◌+◌, ◌^◌, ◌<◌, ◌≡◌, refl, sym, ◌∙◌, true, false, inl, inr, Option, none, some, List,
  [], ◌∷◌, arith, length, All, Option-cases,
}
use mathlib.Core.List.{foldl}
use mathlib.Core.Path.{subst}
use exchange_and_feed_handle.Base.Run.{Run, ok, throws, out_of_fuel, ◌>>=◌, >>=-returns}
use exchange_and_feed_handle.Types.{ClientCommand, SequencedCommand}
use exchange_and_feed_handle.Protocol.{IsClientCommand}
use exchange_and_feed_handle.Journal.{
  IsSequencedCommand, JournalReader, file_header, append, open_reader, next, read_all,
}
use exchange_and_feed_handle.Journal.RoundTrip.{read_all-append}
use exchange_and_feed_handle.BookManager.{BookManager, open_manager}
use exchange_and_feed_handle.Risk.{RiskLimits}
use exchange_and_feed_handle.Exchange.{
  Exchange, ExchangeConfig, ProcessResult, new_exchange, open_exchange, apply_sequenced,
  replay_loop, bump,
}
use exchange_and_feed_handle.Exchange.Replay.{
  run, sequenced, with_journal, process_command-replayed,
}

-- The records of commands that are numbered from `n` on.
abbrev pub records_from : ℕ → List (ClientCommand × ℕ) → List SequencedCommand
records_from n [] = []
records_from n ((cmd, now_ns) ∷ cmds) = sequenced n cmd now_ns ∷ records_from (bump n) cmds

-- The records of a journal one after another.
apply_all : Exchange → List SequencedCommand → Run Exchange
apply_all ex [] = ok ex
apply_all ex (sc ∷ scs) = apply_sequenced ex sc false >>= λ (ex', _). apply_all ex' scs

-- A command and its time fit their types.
abbrev pub InRange : ClientCommand × ℕ → Type 0
InRange (cmd, now_ns) = IsClientCommand cmd × (now_ns < 2 ^ 64)

length-records_from :
    (n : ℕ) (cmds : List (ClientCommand × ℕ)) → length (records_from n cmds) ≡ length cmds
length-records_from n [] = refl
length-records_from n (c ∷ cmds) = rw (length-records_from (bump n) cmds) refl

records_from-range :
    (n : ℕ) (cmds : List (ClientCommand × ℕ))
    → n < 2 ^ 64
    → All InRange cmds
    → All IsSequencedCommand (records_from n cmds)
records_from-range n [] h v = tt
records_from-range n ((cmd, now_ns) ∷ cmds) h ((c, t), v) = (
  record { seq_range = h; recv_ts_ns_range = t; cmd_range = c },
  records_from-range (bump n) cmds (omega arith) v,
)

-- A run writes its records, and they lead from the start to the end of the run.
run-replayed :
    (cmds : List (ClientCommand × ℕ)) (start ex : Exchange) (file : List ℕ)
    → start.next_seq < 2 ^ 64
    → start.journal ≡ some file
    → run start cmds ≡ ok ex
    → (ex.journal ≡ some (foldl append file (records_from start.next_seq cmds)))
      × (apply_all (with_journal start none) (records_from start.next_seq cmds)
          ≡ ok (with_journal ex none))
unfolding run apply_all
run-replayed [] start ex file h j e = (cc, cc)
run-replayed ((cmd, now_ns) ∷ cmds) start ex file h j e =
    let ((mid, res), rest, first) = >>=-returns _ _ _ e in
    let (same, kept, seq) = process_command-replayed start mid cmd now_ns res h first in
    let file' = append file (sequenced start.next_seq cmd now_ns) in
    let (written, led) = run-replayed cmds mid ex file' (omega (arith, seq)) (kept ∙ rw j) rest in
    (
      rw seq at written,
      rw same (
          subst
            (λ n.
              apply_all (with_journal mid none) (records_from n cmds) ≡ ok (with_journal ex none))
            seq led),
    )

-- The rounds of the loop behind the first command.
loop_behind :
    (m : Run (Exchange × ProcessResult)) (loop : Exchange → Run (Exchange × JournalReader × ℕ))
    (rd : JournalReader) (n n' : ℕ) (scs : List SequencedCommand)
    → n ≡ n'
    → ((ex : Exchange) → loop ex ≡ (apply_all ex scs >>= λ ex'. ok (ex', rd, n)))
    → (m >>= λ (ex, _). loop ex) ≡ ((m >>= λ (ex, _). apply_all ex scs) >>= λ ex'. ok (ex', rd, n'))
loop_behind (ok (ex, res)) loop rd n n' scs e h = rw (sym e) (h ex)
loop_behind (throws x) loop rd n n' scs e h = refl
loop_behind out_of_fuel loop rd n n' scs e h = refl

-- The loop reads and applies what reading first and applying then gives.
replay_loop-read_all :
    (fuel : ℕ) (ex : Exchange) (rd rd' : JournalReader) (k : ℕ) (scs : List SequencedCommand)
    → read_all fuel rd ≡ some (scs, rd')
    → replay_loop fuel ex rd k ≡ (apply_all ex scs >>= λ ex'. ok (ex', rd', k + length scs))
unfolding read_all replay_loop apply_all
replay_loop-read_all zero ex rd rd' k scs e = cc
replay_loop-read_all (suc fuel) ex rd rd' k scs e = elim (Option-cases (next rd).1) [
  | inl p ↦
      let q = rw (p, read_all) at e in
      let es : scs ≡ [] = cc in
      let er : rd' ≡ (next rd).0 = cc in
      let n : k + 0 ≡ k = omega arith in rw (p, es, er, replay_loop, n) refl
  | inr (sc, p) ↦ elim (Option-cases (read_all fuel (next rd).0)) [
    | inl q ↦ cc (rw (p, q, read_all) at e)
    | inr ((scs', rd''), q) ↦
        let r = rw (p, q, read_all) at e in
        let es : scs ≡ sc ∷ scs' = cc in
        let er : rd' ≡ rd'' = cc in
        rw (p, es, er, replay_loop)
          (loop_behind (apply_sequenced ex sc false) _ rd'' (k + 1 + length scs')
            (k + suc (length scs')) scs' (omega arith)
            (λ ex'. replay_loop-read_all fuel ex' (next rd).0 rd'' (k + 1) scs' q))
  ]
]

opened_with :
    (limits : RiskLimits) (m : Run BookManager) (j : Option (List ℕ)) (start : Exchange)
    → (m >>= λ books. ok (new_exchange limits j books)) ≡ ok start
    → (start.next_seq ≡ 1)
      × (start.journal ≡ j)
      × ((m >>= λ books. ok (new_exchange limits none books)) ≡ ok (with_journal start none))
opened_with limits (ok books) j start e = (cc, cc, cc)
opened_with limits (throws x) j start e = cc
opened_with limits out_of_fuel j start e = cc

-- For a run of commands in range, without an exception, on a journaled exchange that was just opened: the
-- bytes of its journal, replayed on an exchange opened without one, lead to the same state but for the
-- journal, with one record for each command and no error.
pub replay_loop-run :
    (cfg : ExchangeConfig) (cmds : List (ClientCommand × ℕ)) (start ex : Exchange)
    → open_exchange (record cfg { journaled = true }) ≡ ok start
    → run start cmds ≡ ok ex
    → All InRange cmds
    → (file : List ℕ) × (ex.journal ≡ some file)
      × ((open_exchange (record cfg { journaled = false }) >>= λ fresh.
            replay_loop (suc (length cmds)) fresh (open_reader file) 0)
          ≡ ok (record ex { journal = none }, record { rest = []; error = none }, length cmds))
unfolding open_exchange
replay_loop-run cfg cmds start ex opened e v =
    let (first, empty, fresh) =
      opened_with cfg.risk_limits (open_manager cfg.max_symbol cfg.ladder) (some file_header) start
        opened in
    let scs = records_from 1 cmds in
    let file = foldl append file_header scs in
    let (written, led) = run-replayed cmds start ex file_header (omega (arith, first)) empty e in
    let led' =
      subst
        (λ n. apply_all (with_journal start none) (records_from n cmds) ≡ ok (with_journal ex none))
        first led in
    let len = length-records_from 1 cmds in
    let all_read = read_all-append scs (records_from-range 1 cmds (omega arith) v) in
    let looped =
      replay_loop-read_all (suc (length scs)) (with_journal start none) _ _ 0 scs all_read in
    let plus : 0 + length scs ≡ length scs = omega arith in
    (file, rw first at written, rw (fresh, sym len) (looped ∙ rw (led', plus) refl))
