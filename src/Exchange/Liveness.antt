-- ===== src/Exchange/Liveness.antt =====
-- The exchange answers every command for one of its symbols: the matching never runs out of fuel.
use exchange_and_feed_handle.Base.{
  ℕ, suc, ◌+◌, ◌≤◌, ◌<◌, ◌^◌, ◌≡◌, refl, ◌∙◌, false, inl, inr, Option, none, some, List, [], ◌∷◌,
  arith, length, All, Bool-cases,
}
use mathlib.Core.Path.{subst}
use exchange_and_feed_handle.Base.Int.{pos_part}
use exchange_and_feed_handle.Base.Run.{ok, >>=-returns}
use exchange_and_feed_handle.Types.{ClientCommand, CommandType, SequencedCommand, MdEvent, is_none}
use exchange_and_feed_handle.OrderBook.State.{MatchOutput, null}
use exchange_and_feed_handle.OrderBook.{empty_output}
use exchange_and_feed_handle.BookManager.{
  BookManager, symbol_ladder, open_manager, bad_symbol, add_order, cancel_order, replace_order,
}
use exchange_and_feed_handle.BookManager.Invariant.{
  IsManager, later, add_order-IsManager, cancel_order-IsManager, replace_order-IsManager,
}
use exchange_and_feed_handle.BookManager.Open.{open_manager-IsManager}
use exchange_and_feed_handle.Risk.{check}
use exchange_and_feed_handle.Exchange.{
  Exchange, ExchangeConfig, ProcessResult, open_exchange, account_for_md, number_events, reject,
  publish, execute, run_command, apply_sequenced, process_command, cancel_output,
}
use exchange_and_feed_handle.Exchange.Replay.{run}

-- `run_command` on a manager whose books are settled, with fewer than `null` nodes each.
run_command-IsManager :
    {max : ℕ} (n : ℕ) (m : BookManager) (sc : SequencedCommand)
    → IsManager max n m
    → n < null
    → bad_symbol m sc.cmd.symbol_id ≡ false
    → (m' : BookManager) × (out : MatchOutput) × (run_command m sc ≡ ok (m', out))
      × IsManager max (suc n) m'
unfolding run_command
run_command-IsManager n m sc v room good = by_type v sc.cmd.type refl
  where
    same :
        (m' : BookManager) (ev : Option MdEvent)
        → ok (cancel_output (m', ev)) ≡ ok (m', (cancel_output (m', ev)).1)
    same m' none = refl
    same m' (some ev) = refl

    by_type :
        {max : ℕ}
        → IsManager max n m
        → (t : CommandType) → sc.cmd.type ≡ t
        → (m' : BookManager) × (out : MatchOutput) × (run_command m sc ≡ ok (m', out))
          × IsManager max (suc n) m'
    by_type v CommandType.new e =
        let (m', out, ran, w) = add_order-IsManager n sc.seq m sc.cmd v room good in
        let here : run_command m sc ≡ add_order m sc.seq sc.cmd = ground arith in
        (m', out, here ∙ ran, w)
    by_type v CommandType.cancel e =
        let w = cancel_order-IsManager n sc.seq sc.cmd.cancel_order_id m v in
        let (m', ev) = cancel_order m sc.seq sc.cmd.cancel_order_id in
        let here : run_command m sc ≡ ok (cancel_output (m', ev)) = ground arith in
        (m', (cancel_output (m', ev)).1, here ∙ same m' ev, w)
    by_type v CommandType.replace e =
        let (m', out, ran, w) = replace_order-IsManager n sc.seq m sc.cmd v room in
        let here : run_command m sc ≡ replace_order m sc.seq sc.cmd = ground arith in
        (m', out, here ∙ ran, w)
    by_type v (CommandType.other t) e = (m, empty_output, ground arith, later n m v)

account_for_md-books :
    (evs : List MdEvent) (ex : Exchange) → (account_for_md ex evs).books ≡ ex.books
unfolding account_for_md
account_for_md-books [] ex = refl
account_for_md-books (ev ∷ evs) ex = account_for_md-books evs _

pub publish-books :
    (ex : Exchange) (sc : SequencedCommand) (out : MatchOutput)
    → (publish ex sc out).0.books ≡ ex.books
unfolding publish reject
publish-books ex sc out = elim (Bool-cases (is_none out.reject)) [
  | inl p ↦
      let (k, evs) = number_events ex.next_md_seq out.md_events in
      rw (p, publish) (account_for_md-books evs (record ex { next_md_seq = k }))
  | inr p ↦ rw (p, publish) refl
]

execute-IsManager :
    {max : ℕ} (n : ℕ) (ex : Exchange) (sc : SequencedCommand)
    → IsManager max n ex.books
    → n < null
    → bad_symbol ex.books sc.cmd.symbol_id ≡ false
    → (ex' : Exchange) × (res : ProcessResult) × (execute ex sc ≡ ok (ex', res))
      × IsManager max (suc n) ex'.books
unfolding execute reject
execute-IsManager n ex sc v room good =
    let (risk, reason) = check ex.risk sc.cmd ex.books sc.recv_ts_ns in
    let ex1 : Exchange = record ex { risk = risk } in
    elim (Bool-cases (is_none reason)) [
      | inr refused ↦
          let (ex', res) = reject ex1 sc.seq sc.cmd reason in
          (ex', res, rw (refused, execute) refl, later n ex.books v)
      | inl passed ↦
          let (m', out, ran, w) = run_command-IsManager n ex.books sc v room good in
          let (ex', res) = publish (record ex1 { books = m' }) sc out in
          (
            ex',
            res,
            rw (passed, execute, ran) refl,
            rw (publish-books (record ex1 { books = m' }) sc out) w,
          )
    ]

-- On an exchange whose books are settled and have at most `n` nodes, fewer than `null`, `process_command`
-- answers every command for one of the exchange's symbols, and its books are settled again, with at most
-- `n + 1` nodes.
pub process_command-IsManager :
    {max : ℕ} (n : ℕ) (ex : Exchange) (cmd : ClientCommand) (now_ns : ℕ)
    → IsManager max n ex.books
    → n < null
    → bad_symbol ex.books cmd.symbol_id ≡ false
    → (ex' : Exchange) × (res : ProcessResult) × (process_command ex cmd now_ns ≡ ok (ex', res))
      × IsManager max (suc n) ex'.books
unfolding process_command apply_sequenced
process_command-IsManager n ex cmd now_ns v room good = execute-IsManager n _ _ v room good

-- On such an exchange, any commands for its symbols are answered one after another, if they and the `n`
-- nodes are not more than `null`.
pub run-returns :
    (cmds : List (ClientCommand × ℕ)) (max n : ℕ) (ex : Exchange)
    → IsManager max n ex.books
    → n + length cmds ≤ null
    → All (λ (c : ClientCommand × ℕ). (0 < c.0.symbol_id) × (c.0.symbol_id ≤ max)) cmds
    → (ex' : Exchange) × (run ex cmds ≡ ok ex') × IsManager max (n + length cmds) ex'.books
unfolding run
run-returns [] max n ex v room good =
    (ex, refl, subst (λ k. IsManager max k ex.books) (omega arith) v)
run-returns ((cmd, now_ns) ∷ cmds) max n ex v room ((low, high), good) =
    let fits : bad_symbol ex.books cmd.symbol_id ≡ false = ground (arith, v.top) in
    let (ex', res, ran, w) = process_command-IsManager n ex cmd now_ns v (omega arith) fits in
    let (ex'', ran', w') = run-returns cmds max (suc n) ex' w (omega arith) good in
    (ex'', rw (ran, run) ran', subst (λ k. IsManager max k ex''.books) (omega arith) w')

-- If no symbol's greatest price leaves 64 bits, a new exchange answers any commands for its symbols,
-- one after another, if there are at most `null` of them, and each of its books is settled behind
-- them.
pub open_exchange-run :
    (cfg : ExchangeConfig) (ex : Exchange) (cmds : List (ClientCommand × ℕ))
    → ((s : ℕ) → s ≤ cfg.max_symbol → pos_part (symbol_ladder cfg.ladder s).max_price < 2 ^ 63)
    → open_exchange cfg ≡ ok ex
    → length cmds ≤ null
    → All (λ (c : ClientCommand × ℕ). (0 < c.0.symbol_id) × (c.0.symbol_id ≤ cfg.max_symbol)) cmds
    → (ex' : Exchange) × (run ex cmds ≡ ok ex') × IsManager cfg.max_symbol (length cmds) ex'.books
unfolding open_exchange
open_exchange-run cfg ex cmds h e few good =
    let (m, made, opened) = >>=-returns (open_manager cfg.max_symbol cfg.ladder) _ ex e in
    let same : m ≡ ex.books = cc in
    let v =
      subst (λ w. IsManager cfg.max_symbol 0 w) same
        (open_manager-IsManager cfg.max_symbol cfg.ladder m h opened) in
    let (ex', ran, w) = run-returns cmds cfg.max_symbol 0 ex v (omega arith) good in
    (ex', ran, subst (λ k. IsManager cfg.max_symbol k ex'.books) (omega arith) w)
