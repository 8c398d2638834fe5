-- ===== src/Exchange/Mirror/Commands.antt =====
-- A subscriber that applies the events of a command has the exchange's books, but for the totals of the levels.
use exchange_and_feed_handle.Base.{
  ℕ, ◌<◌, ◌≤◌, ◌≡◌, ◌≢◌, ◌⊎◌, refl, sym, ap, ◌∙◌, false, inl, inr, none, some, List, [], ◌∷◌,
  Option-cases, arith, length,
}
use mathlib.Core.Path.{subst}
use exchange_and_feed_handle.Base.Map.{lookup, contains as has_key}
use exchange_and_feed_handle.Base.Run.{ok, >>=-returns}
use exchange_and_feed_handle.Types.{
  ClientCommand, CommandType, SequencedCommand, MdEvent, RejectReason,
}
use exchange_and_feed_handle.OrderBook.{empty_output}
use exchange_and_feed_handle.OrderBook.Reject.{add_order_rejected}
use exchange_and_feed_handle.OrderBook.State.{MatchOutput, null}
use exchange_and_feed_handle.OrderBook.Invariant.Operations.{IsSound}
use exchange_and_feed_handle.BookManager.{
  BookManager, book, book_at, bad_symbol, contains_order, order_symbol, add_order, cancel_order,
  replace_order,
}
use exchange_and_feed_handle.BookManager.Invariant.{IsManager}
use exchange_and_feed_handle.BookManager.Agreement.{IsOwn}
use exchange_and_feed_handle.BookManager.Agreement.Commands.{
  add_order-Moves, cancel_order-Moves, replace_order-Moves,
}
use exchange_and_feed_handle.Subscriber.Follow.{apply_events}
use exchange_and_feed_handle.Subscriber.Mirror.{Mirrors, Moves-Mirrors}
use exchange_and_feed_handle.Exchange.{number_events, run_command, cancel_output}
use exchange_and_feed_handle.Exchange.Mirror.{number_events-Moves}

-- The command's new order has no live order's id, but for a replace under the old order's id.
abbrev pub IsFresh : BookManager → ClientCommand → Type 0
IsFresh m cmd =
    (contains_order m cmd.order_id ≡ false)
    ⊎ ((cmd.type ≡ CommandType.cancel)
        ⊎ ((cmd.type ≡ CommandType.replace) × (cmd.order_id ≡ cmd.cancel_order_id)))

absent-IsOwn : (m : BookManager) (s id : ℕ) → contains_order m id ≡ false → IsOwn m s id
unfolding contains_order has_key
absent-IsOwn m s id absent t e = cc (rw (e, contains_order, has_key) at absent)

-- A subscriber with the books before the events applies them, and has those behind them.
abbrev pub Applies : BookManager → List MdEvent → BookManager → Type 0
Applies n evs m' = ((apply_events n evs).1 ≡ none) × Mirrors m' (apply_events n evs).0

-- What the books' answer to a command is to a subscriber: the events of an accepted one lead it to the books
-- behind it; and behind a rejected one that is not a replace, it has the books already.
abbrev pub Answers : BookManager → SequencedCommand → BookManager × MatchOutput → Type 0
Answers n sc (m', out) =
    (out.reject ≡ RejectReason.none → (k : ℕ) → Applies n (number_events k out.md_events).1 m')
    × (out.reject ≢ RejectReason.none → sc.cmd.type ≢ CommandType.replace → Mirrors m' n)

add_order-silent :
    (m : BookManager) (seq : ℕ) (cmd : ClientCommand) (m' : BookManager) (out : MatchOutput)
    → add_order m seq cmd ≡ ok (m', out)
    → bad_symbol m cmd.symbol_id ≡ false
    → out.reject ≢ RejectReason.none
    → out.md_events ≡ []
unfolding add_order book
add_order-silent m seq cmd m' out e good refused =
    let ((b, sent), run, found) = >>=-returns _ _ _ (rw (add_order, book, good) at e) in
    let same : sent ≡ out = cc in
    (add_order_rejected (book_at m cmd.symbol_id) b seq cmd.order_id cmd.account_id cmd.side
      cmd.price cmd.qty cmd.tif out (found ∙ ap (λ o. ok (b, o)) same) refused).1

module _ {max i : ℕ} (m n : BookManager) (sc : SequencedCommand) (v : IsManager max i m)
    (room : i < null) (w : Mirrors m n) (fresh : IsFresh m sc.cmd) where
  sound : (s : ℕ) → bad_symbol m s ≡ false → IsSound (book_at m s)
  sound s good = (v.books s (ground arith)).sound

  roomy : (s : ℕ) → bad_symbol m s ≡ false → length (book_at m s).nodes < null
  roomy s good = let le : s ≤ m.max_symbol = ground arith in omega (arith, v.pools s le)

  new-Answers :
      (m' : BookManager) (out : MatchOutput)
      → sc.cmd.type ≡ CommandType.new
      → bad_symbol m sc.cmd.symbol_id ≡ false
      → add_order m sc.seq sc.cmd ≡ ok (m', out)
      → Answers n sc (m', out)
  unfolding apply_events
  new-Answers m' out type good e =
      let s = sc.cmd.symbol_id in
      let own : IsOwn m s sc.cmd.order_id = elim fresh [
        | inl absent ↦ absent-IsOwn m s sc.cmd.order_id absent
        | inr others ↦ elim others [
          | inl cancel ↦ cc (sym type ∙ cancel)
          | inr (replace, _) ↦ cc (sym type ∙ replace)
        ]
      ] in
      let moves =
        add_order-Moves m sc.seq sc.cmd m' out w.source (sound s good) (w.positive s good)
          (roomy s good) good own e in
      (
        λ accepted k.
            Moves-Mirrors m n s sc.cmd.order_id _ m' w good own
              (number_events-Moves k m s sc.cmd.order_id out.md_events m' moves),
        λ refused type.
            (Moves-Mirrors m n s sc.cmd.order_id [] m' w good own
              (rw (add_order-silent m sc.seq sc.cmd m' out e good refused) at moves)).1,
      )

  cancel-Answers :
      sc.cmd.type ≡ CommandType.cancel
      → Answers n sc (cancel_output (cancel_order m sc.seq sc.cmd.cancel_order_id))
  unfolding cancel_order order_symbol
  cancel-Answers type =
      let id = sc.cmd.cancel_order_id in
      elim (Option-cases (lookup id m.order_to_symbol)) [
        | inl unknown ↦
            rw (cancel_order, order_symbol, unknown)
              ((λ accepted k. cc accepted), λ refused other. w)
        | inr (s, under) ↦
            let (good, _) = w.source.found id s under in
            let (m', ev, e, moves) =
              cancel_order-Moves m sc.seq id s w.source (sound s good) (w.positive s good) under in
            let own : IsOwn m s id = λ t f. cc (sym under ∙ f) in
            rw e (
              λ accepted k.
                  Moves-Mirrors m n s id _ m' w good own
                    (number_events-Moves k m s id (ev ∷ []) m' moves),
              λ refused other. absurd (refused refl),
            )
      ]

  replace-Answers :
      (m' : BookManager) (out : MatchOutput)
      → sc.cmd.type ≡ CommandType.replace
      → replace_order m sc.seq sc.cmd ≡ ok (m', out)
      → Answers n sc (m', out)
  unfolding replace_order order_symbol
  replace-Answers m' out type e =
      let old = sc.cmd.cancel_order_id in
      (
        λ accepted k. elim (Option-cases (lookup old m.order_to_symbol)) [
          | inl unknown ↦
              let refused = rw (replace_order, order_symbol, unknown) at e in
              let same : record empty_output { reject = RejectReason.unknown_order } ≡ out = cc in
              cc (ap (λ o. o.reject) same ∙ accepted)
          | inr (s, under) ↦
              let (good, _) = w.source.found old s under in
              let own = replaced-IsOwn s under in
              let moves =
                replace_order-Moves m sc.seq sc.cmd s m' out w.source (sound s good)
                  (w.positive s good) (roomy s good) under own e accepted in
              Moves-Mirrors m n s sc.cmd.order_id _ m' w good own
                (number_events-Moves k m s sc.cmd.order_id out.md_events m' moves)
        ],
        λ refused other. absurd (other type),
      )
    where
      replaced-IsOwn :
          (s : ℕ)
          → lookup sc.cmd.cancel_order_id m.order_to_symbol ≡ some s
          → IsOwn m s sc.cmd.order_id
      replaced-IsOwn s under = elim fresh [
        | inl absent ↦ absent-IsOwn m s sc.cmd.order_id absent
        | inr others ↦ elim others [
          | inl cancel ↦ cc (sym type ∙ cancel)
          | inr (_, same) ↦ λ t f. cc (sym under ∙ rw same at f)
        ]
      ]

  pub run_command-Answers :
      (m' : BookManager) (out : MatchOutput)
      → bad_symbol m sc.cmd.symbol_id ≡ false
      → run_command m sc ≡ ok (m', out)
      → Answers n sc (m', out)
  unfolding run_command apply_events number_events
  run_command-Answers m' out good e = by_type sc.cmd.type refl
    where
      by_type : (t : CommandType) → sc.cmd.type ≡ t → Answers n sc (m', out)
      by_type CommandType.new t = new-Answers m' out t good (rw (run_command, t) at e)
      by_type CommandType.cancel t =
          let same : cancel_output (cancel_order m sc.seq sc.cmd.cancel_order_id) ≡ (m', out) =
            cc (rw (run_command, t) at e) in
          rw same at (cancel-Answers t)
      by_type CommandType.replace t = replace-Answers m' out t (rw (run_command, t) at e)
      by_type (CommandType.other k) t =
          let same : ◌≡◌ {A = BookManager × MatchOutput} (m, empty_output) (m', out) =
            cc (rw (run_command, t) at e) in
          subst (λ r. Answers n sc r) same
            ((λ accepted j. (refl, w)), λ refused other. absurd (refused refl))
