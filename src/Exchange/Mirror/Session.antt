-- ===== src/Exchange/Mirror/Session.antt =====
-- The feed of a session, from the opening of the exchange on.
use exchange_and_feed_handle.Base.{
  ℕ, suc, ◌+◌, ◌<◌, ◌≤◌, ◌^◌, ◌≡◌, refl, sym, ◌∙◌, true, false, inl, inr, none, List, [], ◌∷◌, ◌++◌,
  arith, All, length, Option-cases,
}
use mathlib.Core.Path.{subst}
use exchange_and_feed_handle.Base.Int.{pos_part}
use exchange_and_feed_handle.Base.Run.{Run, ok, ◌>>=◌, >>=-returns}
use exchange_and_feed_handle.Types.{ClientCommand, CommandType, MdEvent}
use exchange_and_feed_handle.OrderBook.State.{null}
use exchange_and_feed_handle.BookManager.{BookManager, bad_symbol, open_manager, symbol_ladder}
use exchange_and_feed_handle.BookManager.Invariant.{IsManager}
use exchange_and_feed_handle.BookManager.Open.{open_manager-IsManager}
use exchange_and_feed_handle.BookManager.Agreement.Open.{open_manager-IsAgreed}
use exchange_and_feed_handle.Subscriber.{SubscriberBook, apply_event, open_subscriber}
use exchange_and_feed_handle.Subscriber.Follow.{apply_events}
use exchange_and_feed_handle.Subscriber.Mirror.{Mirrors}
use exchange_and_feed_handle.Exchange.{
  Exchange, ExchangeConfig, ProcessResult, process_command, open_exchange,
}
use exchange_and_feed_handle.Exchange.Liveness.{process_command-IsManager}
use exchange_and_feed_handle.Exchange.Mirror.Commands.{IsFresh, Applies}
use exchange_and_feed_handle.Exchange.Mirror.Process.{process_command-Applies}

-- Commands one after another, each with its time: the exchange behind them, and all their events.
unfoldable pub run_feed : Exchange → List (ClientCommand × ℕ) → Run (Exchange × List MdEvent)
run_feed ex [] = ok (ex, [])
run_feed ex ((cmd, now_ns) ∷ cmds) = process_command ex cmd now_ns >>= λ (ex', res).
    run_feed ex' cmds >>= λ (ex'', evs). ok (ex'', res.md_events ++ evs)

abbrev pub OnOk {ℓ} : {A : Type ℓ} → (A → Type 0) → Run A → Type 0
OnOk P (ok a) = P a
OnOk P _ = Unit {0}

-- Each command's new order has no live order's id, but for a replace under the old order's id; and each
-- replace is accepted.
abbrev pub IsOrderly : Exchange → List (ClientCommand × ℕ) → Type 0
IsOrderly ex [] = Unit {0}
IsOrderly ex ((cmd, now_ns) ∷ cmds) =
    IsFresh ex.books cmd
    × OnOk
        (λ (r : Exchange × ProcessResult).
          (cmd.type ≡ CommandType.replace → r.1.ack.accepted ≡ true) × IsOrderly r.0 cmds)
        (process_command ex cmd now_ns)

apply_events-append :
    (n : BookManager) (evs fs : List MdEvent)
    → (apply_events n evs).1 ≡ none
    → apply_events n (evs ++ fs) ≡ apply_events (apply_events n evs).0 fs
unfolding apply_events
apply_events-append n [] fs e = refl
apply_events-append n (ev ∷ evs) fs e = elim (Option-cases (apply_event n ev).1) [
  | inl p ↦
      rw (apply_events, p)
        (apply_events-append (apply_event n ev).0 evs fs (rw (apply_events, p) at e))
  | inr (message, p) ↦ cc (rw (apply_events, p) at e)
]

-- From books with `i` nodes at most, as `process_command-Applies`, for the events of all the commands.
run_feed-Applies :
    (cmds : List (ClientCommand × ℕ)) (max i : ℕ) (ex : Exchange) (n : BookManager)
    → IsManager max i ex.books
    → i + length cmds ≤ null
    → All (λ (c : ClientCommand × ℕ). (0 < c.0.symbol_id) × (c.0.symbol_id ≤ max)) cmds
    → IsOrderly ex cmds
    → Mirrors ex.books n
    → (ex' : Exchange) × (evs : List MdEvent) × (run_feed ex cmds ≡ ok (ex', evs))
      × Applies n evs ex'.books
unfolding run_feed apply_events
run_feed-Applies [] max i ex n v room good orderly w = (ex, [], refl, (refl, w))
run_feed-Applies ((cmd, now_ns) ∷ cmds) max i ex n v room ((low, high), good) (fresh, next) w =
    let fits : bad_symbol ex.books cmd.symbol_id ≡ false = ground (arith, v.top) in
    let (ex1, res, ran, v1) = process_command-IsManager i ex cmd now_ns v (omega arith) fits in
    let (taken, orderly) =
      subst
        (λ x.
          OnOk
            (λ (r : Exchange × ProcessResult).
              (cmd.type ≡ CommandType.replace → r.1.ack.accepted ≡ true) × IsOrderly r.0 cmds)
            x)
        ran next in
    let (done, w1) =
      process_command-Applies ex ex1 cmd now_ns res n v (omega arith) w fits fresh ran taken in
    let n1 = (apply_events n res.md_events).0 in
    let (ex', evs, ran', (ended, w')) =
      run_feed-Applies cmds max (suc i) ex1 n1 v1 (omega arith) good orderly w1 in
    let whole = apply_events-append n res.md_events evs done in
    (ex', res.md_events ++ evs, rw (run_feed, ran, ran') refl, (rw whole ended, rw whole w'))

-- A new exchange and a new subscriber have the same greatest symbol and the same ladder, no symbol's
-- greatest price leaves 64 bits, and there are at most `null` commands, all for the exchange's
-- symbols. No new order has a live order's id, but for a replace under the old order's id, and no
-- replace is rejected. Then the exchange answers the commands one after another, the subscriber
-- applies all their events without an error, and behind them its books are the exchange's but for the
-- totals of the levels; on both sides the map of the live orders agrees with the books.
pub open_exchange-run_feed :
    (cfg : ExchangeConfig) (ex : Exchange) (sub : SubscriberBook) (cmds : List (ClientCommand × ℕ))
    → ((s : ℕ) → s ≤ cfg.max_symbol → pos_part (symbol_ladder cfg.ladder s).max_price < 2 ^ 63)
    → open_exchange cfg ≡ ok ex
    → open_subscriber cfg.max_symbol cfg.ladder ≡ ok sub
    → length cmds ≤ null
    → All (λ (c : ClientCommand × ℕ). (0 < c.0.symbol_id) × (c.0.symbol_id ≤ cfg.max_symbol)) cmds
    → IsOrderly ex cmds
    → (ex' : Exchange) × (evs : List MdEvent) × (run_feed ex cmds ≡ ok (ex', evs))
      × ((apply_events sub.books evs).1 ≡ none)
      × Mirrors ex'.books (apply_events sub.books evs).0
unfolding open_exchange open_subscriber
open_exchange-run_feed cfg ex sub cmds h e e' few good orderly =
    let (m, made, opened) = >>=-returns (open_manager cfg.max_symbol cfg.ladder) _ ex e in
    let (n, made', opened') = >>=-returns (open_manager cfg.max_symbol cfg.ladder) _ sub e' in
    let books : m ≡ ex.books = cc in
    let copy : m ≡ sub.books = ok_same (sym opened ∙ opened') ∙ cc in
    let v =
      subst (λ w. IsManager cfg.max_symbol 0 w) books
        (open_manager-IsManager cfg.max_symbol cfg.ladder m h opened) in
    let (agreed, positive) = open_manager-IsAgreed cfg.max_symbol cfg.ladder m opened in
    let start : Mirrors m m = record {
      source = agreed;
      copy = agreed;
      max = refl;
      same = λ s known. refl;
      positive = positive;
    } in
    let (ex', evs, ran, (done, w)) =
      run_feed-Applies cmds cfg.max_symbol 0 ex sub.books v (omega arith) good orderly
        (subst (λ x. Mirrors ex.books x) copy (subst (λ x. Mirrors x m) books start)) in
    (ex', evs, ran, done, w)
  where
    ok_same : {a b : BookManager} → ok a ≡ ok b → a ≡ b
    ok_same {a} {b} p = cc
