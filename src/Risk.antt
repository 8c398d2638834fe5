-- ===== src/Risk.antt =====
-- `RiskEngine` of src/risk.cpp. `accounts_[id]` makes an account when there is none.
pub mod Digest
pub mod Limits
pub mod Window
use exchange_and_feed_handle.Base.{
  ℕ, ◌+◌, ◌-◌, ◌*◌, ◌%◌, ◌^◌, Bool, not, ◌&&◌, Option, none, some, List, [], ◌∷◌, ◌++◌, ltb, leb,
  if◌then◌else◌, length,
}
use exchange_and_feed_handle.Base.Int.{ℤ, pos_part, neg_part}
use exchange_and_feed_handle.Base.Map.{Map, lookup, insert}
use exchange_and_feed_handle.Types.{
  ClientCommand, CommandType, MdEvent, MdType, RejectReason, is_new,
}
use exchange_and_feed_handle.BookManager.{BookManager, contains_order}

pub record RiskLimits : Type 0 where
  pub max_order_qty : ℕ
  pub max_order_notional : ℕ
  pub max_open_orders_per_account : ℕ
  pub max_msgs_per_window : ℕ
  pub rate_window_ns : ℕ

-- The front of the queue `recent_msgs` is the head of the list.
pub record AccountState : Type 0 where
  pub open_orders : ℕ
  pub open_notional : ℕ
  pub recent_msgs : List ℕ

pub record RiskEngine : Type 0 where
  pub limits : RiskLimits
  pub accounts : Map AccountState

abbrev pub new_account : AccountState
new_account = record { open_orders = 0; open_notional = 0; recent_msgs = [] }

abbrev pub account_of : Option AccountState → AccountState
account_of none = new_account
account_of (some a) = a

-- `accounts_[id]`, read and written.
unfoldable pub account : RiskEngine → ℕ → AccountState
account r id = account_of (lookup id r.accounts)

unfoldable pub put_account : RiskEngine → ℕ → AccountState → RiskEngine
put_account r id a = record r { accounts = insert id a r.accounts }

-- The price's absolute value times the quantity, in 64 bits.
unfoldable pub notional : ℤ → ℕ → ℕ
notional price qty = ((pos_part price + neg_part price) * qty) % 2 ^ 64

-- The loop that drops the messages older than the window.
unfoldable pub drop_expired : ℕ → ℕ → List ℕ → List ℕ
drop_expired window now_ns [] = []
drop_expired window now_ns (t ∷ ts) =
    let rest = drop_expired window now_ns ts in
    if leb t now_ns && ltb window (now_ns - t) then rest else t ∷ ts

-- The checks on quantity, notional and open orders.
unfoldable pub check_limits : RiskLimits → ClientCommand → ℕ → RejectReason
check_limits limits cmd open_orders =
    if ltb limits.max_order_qty cmd.qty
    then RejectReason.risk_max_qty
    else if ltb limits.max_order_notional (notional cmd.price cmd.qty)
    then RejectReason.risk_max_notional
    else if leb limits.max_open_orders_per_account open_orders && is_new cmd.type
    then RejectReason.risk_open_orders
    else RejectReason.none

-- The part of `check` behind the rate limit.
unfoldable pub check_command : RiskLimits → ClientCommand → BookManager → ℕ → RejectReason
check_command limits cmd books open_orders = elim cmd.type [
  | CommandType.cancel ↦
      if not (contains_order books cmd.cancel_order_id)
      then RejectReason.unknown_order
      else RejectReason.none
  | CommandType.replace ↦
      if not (contains_order books cmd.cancel_order_id)
      then RejectReason.unknown_order
      else check_limits limits cmd open_orders
  | CommandType.new ↦ check_limits limits cmd open_orders
  | CommandType.other n ↦ check_limits limits cmd open_orders
]

unfoldable pub check : RiskEngine → ClientCommand → BookManager → ℕ → RiskEngine × RejectReason
check r cmd books now_ns =
    if leb r.limits.max_msgs_per_window (length recent)
    then (
      put_account r cmd.account_id (record a { recent_msgs = recent }),
      RejectReason.risk_rate_limit,
    )
    else (
      put_account r cmd.account_id (record a { recent_msgs = recent ++ (now_ns ∷ []) }),
      check_command r.limits cmd books a.open_orders,
    )
  where
    a : AccountState
    a = account r cmd.account_id

    recent : List ℕ
    recent = drop_expired r.limits.rate_window_ns now_ns a.recent_msgs

-- `if (a.open_orders > 0) --a.open_orders`, and the same for the notional, which stops at 0.
abbrev pub one_less : ℕ → ℕ
one_less n = if ltb 0 n then n - 1 else n

abbrev pub less_notional : ℕ → ℕ → ℕ
less_notional held n = if ltb n held then held - n else 0

-- The account after the event.
unfoldable pub account_after : AccountState → MdEvent → Bool → AccountState
account_after a ev order_live_after = elim ev.type [
  | MdType.add ↦ record a {
    open_orders = (a.open_orders + 1) % 2 ^ 32;
    open_notional = (a.open_notional + n) % 2 ^ 64;
  }
  | MdType.cancel ↦ record a {
    open_orders = one_less a.open_orders;
    open_notional = less_notional a.open_notional n;
  }
  | MdType.execute ↦ record a {
    open_orders = (if order_live_after then a.open_orders else one_less a.open_orders);
    open_notional = less_notional a.open_notional n;
  }
  | MdType.replace ↦ a
  | MdType.reject ↦ a
  | MdType.other k ↦ a
]
  where
    n : ℕ
    n = notional ev.price ev.qty

unfoldable pub on_market_data : RiskEngine → MdEvent → Bool → RiskEngine
on_market_data r ev order_live_after =
    put_account r ev.account_id (account_after (account r ev.account_id) ev order_live_after)
