-- ===== src/Risk/Window.antt =====
-- `check` of src/risk.cpp against all the messages that an account has sent: the queue of the account has
-- only those that the loop has not dropped.
use exchange_and_feed_handle.Base.{
  ℕ, suc, ◌+◌, ◌*◌, ◌%◌, ◌^◌, ◌≤◌, ◌<◌, ◌≡◌, ◌↔◌, refl, sym, ap, ◌∙◌, true, inl, inr, List, [], ◌∷◌,
  ◌++◌, Bool, none, ◌==◌, ◌-◌, ◌&&◌, arith, leb, ltb, length, Bool-cases, if◌then◌else◌, ==_refl,
  All, All-append, append_assoc, append-nil,
}
use mathlib.Core.Path.{subst}
use exchange_and_feed_handle.Base.Int.{ℤ, pos, negsuc}
use exchange_and_feed_handle.Base.Map.{lookup}
use exchange_and_feed_handle.Types.{ClientCommand, CommandType, MdEvent, RejectReason}
use exchange_and_feed_handle.BookManager.{BookManager, contains_order}
use exchange_and_feed_handle.Risk.{
  RiskLimits, RiskEngine, account, put_account, notional, drop_expired, check_limits, check_command,
  check, AccountState, account_after, on_market_data,
}
use exchange_and_feed_handle.Risk.Limits.{recent, account-put}

-- How many of the times are not more than `window` ago.
abbrev pub count_recent : ℕ → ℕ → List ℕ → ℕ
count_recent window now_ns [] = 0
count_recent window now_ns (t ∷ ts) =
    let rest = count_recent window now_ns ts in if leb now_ns (t + window) then suc rest else rest

abbrev pub IsAscending : List ℕ → Type 0
IsAscending [] = Unit {0}
IsAscending (t ∷ ts) = All (λ u. t ≤ u) ts × IsAscending ts

-- The times are more than `window` ago.
abbrev pub IsPast : ℕ → ℕ → List ℕ → Type 0
IsPast window now_ns ts = All (λ t. t + window < now_ns) ts

-- The account has sent messages at the times `sent`, the last not after `last`, and its queue has lost only
-- such as left the window before `last`.
pub record IsTracked (r : RiskEngine) (id last : ℕ) (sent : List ℕ) : Type 0 where
  pub ascending : IsAscending sent
  pub latest : All (λ t. t ≤ last) sent
  pub lost : List ℕ
  pub split : sent ≡ lost ++ (account r id).recent_msgs
  pub past : IsPast r.limits.rate_window_ns last lost

-- The absolute value of a price.
abbrev pub magnitude : ℤ → ℕ
magnitude (pos n) = n
magnitude (negsuc n) = suc n

abbrev pub WithinLimits : RiskLimits → ClientCommand → Type 0
WithinLimits limits cmd =
    (cmd.qty ≤ limits.max_order_qty)
    × ((magnitude cmd.price * cmd.qty) % 2 ^ 64 ≤ limits.max_order_notional)

-- What a command must meet, by its type.
abbrev pub Meets : RiskEngine → ClientCommand → BookManager → CommandType → Type 0
Meets r cmd books CommandType.new =
    WithinLimits r.limits cmd
    × ((account r cmd.account_id).open_orders < r.limits.max_open_orders_per_account)
Meets r cmd books CommandType.cancel = contains_order books cmd.cancel_order_id ≡ true
Meets r cmd books CommandType.replace =
    (contains_order books cmd.cancel_order_id ≡ true) × WithinLimits r.limits cmd
Meets r cmd books (CommandType.other n) = WithinLimits r.limits cmd

notional-magnitude : (price : ℤ) (qty : ℕ) → notional price qty ≡ (magnitude price * qty) % 2 ^ 64
unfolding notional
notional-magnitude (pos n) qty = ap (λ k. (k * qty) % 2 ^ 64) (omega arith)
notional-magnitude (negsuc n) qty = ap (λ k. (k * qty) % 2 ^ 64) (omega arith)

module _ (window now_ns : ℕ) where
  count_recent_all :
      (t : ℕ) (ts : List ℕ)
      → now_ns ≤ t + window
      → All (λ u. t ≤ u) ts
      → count_recent window now_ns ts ≡ length ts
  count_recent_all t [] h later = refl
  count_recent_all t (u ∷ ts) h (after, later) =
      let rest = count_recent_all t ts h later in ground arith

  count_recent_past :
      (old ts : List ℕ)
      → IsPast window now_ns old
      → count_recent window now_ns (old ++ ts) ≡ count_recent window now_ns ts
  count_recent_past [] ts past = refl
  count_recent_past (t ∷ old) ts (gone, past) =
      let rest = count_recent_past old ts past in ground arith

  -- Of ascending times, the loop leaves those in the window.
  length-drop_expired_eq :
      (ts : List ℕ)
      → IsAscending ts
      → length (drop_expired window now_ns ts) ≡ count_recent window now_ns ts
  unfolding drop_expired
  length-drop_expired_eq [] up = refl
  length-drop_expired_eq (t ∷ ts) (later, up) =
      let rest = length-drop_expired_eq ts up in
      elim (Bool-cases (leb now_ns (t + window))) [
        | inl here ↦ let all = count_recent_all t ts (ground arith) later in ground arith
        | inr gone ↦ ground arith
      ]

  drop_expired-split :
      (ts : List ℕ)
      → (gone : List ℕ) × (ts ≡ gone ++ drop_expired window now_ns ts) × IsPast window now_ns gone
  unfolding drop_expired
  drop_expired-split [] = ([], refl, tt)
  drop_expired-split (t ∷ ts) =
      let (gone, same, past) = drop_expired-split ts in
      elim (Bool-cases (leb t now_ns && ltb window (now_ns - t))) [
        | inl expired ↦
            rw (expired, drop_expired) (t ∷ gone, ap (λ l. t ∷ l) same, (ground arith, past))
        | inr stays ↦ rw (stays, drop_expired) ([], refl, tt)
      ]

IsPast-later :
    (window last now_ns : ℕ) (ts : List ℕ)
    → last ≤ now_ns
    → IsPast window last ts
    → IsPast window now_ns ts
IsPast-later window last now_ns [] le past = tt
IsPast-later window last now_ns (t ∷ ts) le (gone, past) =
    (omega arith, IsPast-later window last now_ns ts le past)

latest-later :
    (last now_ns : ℕ) (ts : List ℕ)
    → last ≤ now_ns
    → All (λ t. t ≤ last) ts
    → All (λ t. t ≤ now_ns) ts
latest-later last now_ns [] le before = tt
latest-later last now_ns (t ∷ ts) le (one, before) =
    (omega arith, latest-later last now_ns ts le before)

IsAscending-suffix : (xs ys : List ℕ) → IsAscending (xs ++ ys) → IsAscending ys
IsAscending-suffix [] ys up = up
IsAscending-suffix (x ∷ xs) ys (_, up) = IsAscending-suffix xs ys up

IsAscending-snoc :
    (ts : List ℕ) (now_ns : ℕ)
    → IsAscending ts
    → All (λ t. t ≤ now_ns) ts
    → IsAscending (ts ++ (now_ns ∷ []))
IsAscending-snoc [] now_ns up before = (tt, tt)
IsAscending-snoc (t ∷ ts) now_ns (later, up) (one, before) =
    (All-append (λ u. t ≤ u) ts (now_ns ∷ []) later (one, tt), IsAscending-snoc ts now_ns up before)

-- The messages sent, behind one more at `now_ns`: a message over the rate is not counted.
abbrev pub sent_after : RiskLimits → List ℕ → ℕ → List ℕ
sent_after limits sent now_ns =
    if leb limits.max_msgs_per_window (count_recent limits.rate_window_ns now_ns sent)
    then sent
    else sent ++ (now_ns ∷ [])

module _ (r : RiskEngine) (cmd : ClientCommand) (books : BookManager) (now_ns last : ℕ)
    (sent : List ℕ) (v : IsTracked r cmd.account_id last sent) (le : last ≤ now_ns) where
  abbrev window : ℕ
  window = r.limits.rate_window_ns

  abbrev queue : List ℕ
  queue = (account r cmd.account_id).recent_msgs

  lost-IsPast : IsPast window now_ns v.lost
  lost-IsPast = IsPast-later window last now_ns v.lost le v.past

  length-recent : length (recent r cmd now_ns) ≡ count_recent window now_ns sent
  length-recent =
      length-drop_expired_eq window now_ns queue
        (IsAscending-suffix v.lost queue (subst (λ l. IsAscending l) v.split v.ascending))
      ∙ sym (
          ap (count_recent window now_ns) v.split
          ∙ count_recent_past window now_ns v.lost queue lost-IsPast)

  passes_iff : ((check r cmd books now_ns).1 ≡ RejectReason.none) ↔ (
      (count_recent window now_ns sent < r.limits.max_msgs_per_window) × Meets r cmd books cmd.type)
  unfolding check check_command check_limits
  passes_iff =
      let size = length-recent in
      let value = notional-magnitude cmd.price cmd.qty in (λ e. ground arith, λ w. ground arith)

  -- The queue behind the loop, and behind it the times `more`, is tracked.
  queue_after-IsTracked :
      (more : List ℕ)
      → IsAscending (sent ++ more)
      → All (λ t. t ≤ now_ns) more
      → IsTracked
          (put_account r cmd.account_id
            (record (account r cmd.account_id) { recent_msgs = recent r cmd now_ns ++ more }))
          cmd.account_id
          now_ns
          (sent ++ more)
  unfolding put_account
  queue_after-IsTracked more up before =
      let (gone, same, past) = drop_expired-split window now_ns queue in
      let a = record (account r cmd.account_id) { recent_msgs = recent r cmd now_ns ++ more } in
      let here : account (put_account r cmd.account_id a) cmd.account_id ≡ a =
        account-put r cmd.account_id cmd.account_id a
        ∙ ap (λ x. if x then a else account r cmd.account_id) (==_refl cmd.account_id) in
      record {
        ascending = up;
        latest =
            All-append (λ t. t ≤ now_ns) sent more (latest-later last now_ns sent le v.latest)
              before;
        lost = v.lost ++ gone;
        split =
            ap (λ l. l ++ more)
              (v.split
                ∙ ap (λ l. v.lost ++ l) same
                ∙ sym (append_assoc v.lost gone (recent r cmd now_ns)))
            ∙ append_assoc (v.lost ++ gone) (recent r cmd now_ns) more
            ∙ sym (ap (λ x. (v.lost ++ gone) ++ x.recent_msgs) here);
        past = All-append (λ t. t + window < now_ns) v.lost gone lost-IsPast past;
      }

  check-IsTracked :
      IsTracked (check r cmd books now_ns).0 cmd.account_id now_ns (sent_after r.limits sent now_ns)
  unfolding check
  check-IsTracked =
      elim (Bool-cases (leb r.limits.max_msgs_per_window (length (recent r cmd now_ns)))) [
        | inl full ↦
            let none_more = queue_after-IsTracked [] (rw (append-nil sent) v.ascending) tt in
            rw (check, full, sym length-recent, full)
              (rw (append-nil sent, append-nil (recent r cmd now_ns)) at none_more)
        | inr room ↦
            rw (check, room, sym length-recent, room)
              (queue_after-IsTracked (now_ns ∷ [])
                (IsAscending-snoc sent now_ns v.ascending
                  (latest-later last now_ns sent le v.latest))
                (omega arith, tt))
      ]

-- The account of a command has sent messages at the ascending times `sent`, none after `last`; its
-- queue has all of them but the first ones, which are more than the window before `last`; and `now_ns`
-- is not before `last`. The command passes `check` exactly when fewer of the times in `sent` than the
-- limit are at most the window before `now_ns` and: for a `New`, the quantity, and the product of the
-- price's absolute value and the quantity, in 64 bits, are within the limits, and the account has
-- fewer open orders than the limit; for a `Cancel`, its order is live; for a `Replace`, its order is
-- live, and quantity and product are within the limits; for an unknown type, these two are. Behind
-- `check` the queue has all messages but the first ones, which are more than the window before
-- `now_ns`; the messages are then `sent` and `now_ns`, if fewer than the limit were in the window, and
-- `sent` otherwise.
pub check-eq_none_iff :
    (r : RiskEngine) (cmd : ClientCommand) (books : BookManager) (now_ns last : ℕ) (sent : List ℕ)
    → IsTracked r cmd.account_id last sent
    → last ≤ now_ns
    → (((check r cmd books now_ns).1 ≡ RejectReason.none) ↔ (
        (count_recent r.limits.rate_window_ns now_ns sent < r.limits.max_msgs_per_window)
        × Meets r cmd books cmd.type))
      × IsTracked
          (check r cmd books now_ns).0
          cmd.account_id
          now_ns
          (sent_after r.limits sent now_ns)
check-eq_none_iff r cmd books now_ns last sent v le = (
  passes_iff r cmd books now_ns last sent v le,
  check-IsTracked r cmd books now_ns last sent v le,
)

-- An account that there is not yet has sent nothing.
new_account-IsTracked :
    (r : RiskEngine) (id last : ℕ) → lookup id r.accounts ≡ none → IsTracked r id last []
unfolding account
new_account-IsTracked r id last none_there = record {
  ascending = tt;
  latest = tt;
  lost = [];
  split = rw (none_there, account) refl;
  past = tt;
}

account_after-recent_msgs :
    (a : AccountState) (ev : MdEvent) (live : Bool)
    → (account_after a ev live).recent_msgs ≡ a.recent_msgs
unfolding account_after
account_after-recent_msgs a ev live = ground arith

-- The events of the feed leave the queues as they are.
on_market_data-IsTracked :
    (r : RiskEngine) (ev : MdEvent) (live : Bool) (id last : ℕ) (sent : List ℕ)
    → IsTracked r id last sent
    → IsTracked (on_market_data r ev live) id last sent
unfolding on_market_data put_account
on_market_data-IsTracked r ev live id last sent v = record {
  ascending = v.ascending;
  latest = v.latest;
  lost = v.lost;
  split = v.split ∙ ap (λ l. v.lost ++ l) (sym kept);
  past = v.past;
}
  where
    kept : (account (on_market_data r ev live) id).recent_msgs ≡ (account r id).recent_msgs
    kept =
        let a = account_after (account r ev.account_id) ev live in
        elim (Bool-cases (ev.account_id == id)) [
          | inl same ↦
              let is_id : ev.account_id ≡ id = ground arith in
              rw (account-put r ev.account_id id a, same)
                (account_after-recent_msgs (account r ev.account_id) ev live
                  ∙ ap (λ i. (account r i).recent_msgs) is_id)
          | inr apart ↦ rw (account-put r ev.account_id id a, apart) refl
        ]
