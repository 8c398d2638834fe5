-- ===== src/Risk/Limits.antt =====
-- The bounds that `check` keeps.
use exchange_and_feed_handle.Base.{
  ℕ, ◌≤◌, ◌<◌, ◌≡◌, ◌≢◌, refl, inl, inr, List, [], ◌∷◌, ◌++◌, arith, leb, length, length-append,
  Bool-cases, ◌==◌, if◌then◌else◌,
}
use exchange_and_feed_handle.Base.Map.{lookup-insert}
use exchange_and_feed_handle.Types.{ClientCommand}
use exchange_and_feed_handle.BookManager.{BookManager}
use exchange_and_feed_handle.Risk.{
  RiskEngine, AccountState, account, put_account, drop_expired, check,
}

-- The messages that the loop leaves in the account's queue.
abbrev pub recent : RiskEngine → ClientCommand → ℕ → List ℕ
recent r cmd now_ns =
    drop_expired r.limits.rate_window_ns now_ns (account r cmd.account_id).recent_msgs

length-drop_expired :
    (window now_ns : ℕ) (ts : List ℕ) → length (drop_expired window now_ns ts) ≤ length ts
unfolding drop_expired
length-drop_expired window now_ns [] = omega arith
length-drop_expired window now_ns (t ∷ ts) = ground (arith, length-drop_expired window now_ns ts)

pub account-put :
    (r : RiskEngine) (i j : ℕ) (a : AccountState)
    → account (put_account r i a) j ≡ (if i == j then a else account r j)
unfolding account put_account
account-put r i j a = rw (lookup-insert i j a r.accounts) (ground arith)

-- `r'` has the counts of `r` and queues within the limit, and only the account `i` differs.
abbrev pub Bounded : RiskEngine → RiskEngine → ℕ → ℕ → Type 0
Bounded r r' i id =
    (length (account r' id).recent_msgs ≤ r.limits.max_msgs_per_window)
    × ((account r' id).open_orders ≡ (account r id).open_orders)
    × ((account r' id).open_notional ≡ (account r id).open_notional)
    × (i ≢ id → account r' id ≡ account r id)

put_account-Bounded :
    (r : RiskEngine) (i id : ℕ) (ts : List ℕ)
    → length (account r id).recent_msgs ≤ r.limits.max_msgs_per_window
    → length ts ≤ r.limits.max_msgs_per_window
    → Bounded r (put_account r i (record (account r i) { recent_msgs = ts })) i id
put_account-Bounded r i id ts h k = elim (Bool-cases (i == id)) [
  | inl same ↦
      let e : i ≡ id = ground arith in
      rw (account-put r i id (record (account r i) { recent_msgs = ts }), same)
        (k, rw e refl, rw e refl, λ ne. absurd (ne e))
  | inr apart ↦
      rw (account-put r i id (record (account r i) { recent_msgs = ts }), apart)
        (h, refl, refl, λ ne. refl)
]

-- If the queues of the account `id` and of the command's account are within the limit: after `check` the queue
-- of `id` is so too, its open orders and
-- open notional are as before, and if `id` is not the command's account, so is all of the account.
pub check-Bounded :
    (r : RiskEngine) (cmd : ClientCommand) (books : BookManager) (now_ns id : ℕ)
    → length (account r id).recent_msgs ≤ r.limits.max_msgs_per_window
    → length (account r cmd.account_id).recent_msgs ≤ r.limits.max_msgs_per_window
    → Bounded r (check r cmd books now_ns).0 cmd.account_id id
unfolding check
check-Bounded r cmd books now_ns id h k =
    let ts = recent r cmd now_ns in
    let shorter =
      length-drop_expired r.limits.rate_window_ns now_ns (account r cmd.account_id).recent_msgs in
    elim (Bool-cases (leb r.limits.max_msgs_per_window (length ts))) [
      | inl p ↦
          rw (p, check) (put_account-Bounded r cmd.account_id id ts h (omega (arith, shorter)))
      | inr p ↦
          let room : length ts < r.limits.max_msgs_per_window = ground arith in
          let longer : length (ts ++ (now_ns ∷ [])) ≤ r.limits.max_msgs_per_window =
            omega (arith, length-append ts (now_ns ∷ [])) in
          rw (p, check) (put_account-Bounded r cmd.account_id id (ts ++ (now_ns ∷ [])) h longer)
    ]
