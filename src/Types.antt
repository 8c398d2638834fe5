-- ===== src/Types.antt =====
-- The value types of include/exsim/types.hpp. Identifiers, sequence numbers, quantities and times are
-- numbers; their widths (`OrderId`, `SeqNo`, `TimestampNs` 64 bits, `AccountId`, `SymbolId`, `Qty` 32)
-- stand in `IsClientCommand`, `IsSequencedCommand` and `IsMdEvent`. `Price` is an integer.
-- An enumeration over `std::uint8_t` holds any byte that is cast to it: `other n` is the value `n` when
-- no enumerator has it.
pub mod Codes
pub mod Names
use exchange_and_feed_handle.Base.{
  ℕ, ◌^◌, ◌<◌, ◌≡◌, ◌≢◌, Bool, true, false, arith, ◌==◌, if◌then◌else◌, List,
}
use exchange_and_feed_handle.Base.Int.{ℤ, IsI64}

pub data Side : Type 0 where
  buy sell : Side
  other : ℕ → Side

pub data CommandType : Type 0 where
  new cancel replace : CommandType
  other : ℕ → CommandType

pub data TimeInForce : Type 0 where
  gtc ioc : TimeInForce
  other : ℕ → TimeInForce

pub data RejectReason : Type 0 where
  none malformed unknown_order duplicate_order risk_max_qty risk_max_notional : RejectReason
  risk_open_orders risk_rate_limit invalid_symbol invalid_qty invalid_price : RejectReason
  other : ℕ → RejectReason

pub data MdType : Type 0 where
  add cancel execute replace reject : MdType
  other : ℕ → MdType

pub record ClientCommand : Type 0 where
  pub type : CommandType
  pub client_order_id : ℕ
  pub order_id : ℕ
  pub cancel_order_id : ℕ
  pub account_id : ℕ
  pub symbol_id : ℕ
  pub side : Side
  pub price : ℤ
  pub qty : ℕ
  pub tif : TimeInForce
  pub client_ts_ns : ℕ

pub record SequencedCommand : Type 0 where
  pub seq : ℕ
  pub recv_ts_ns : ℕ
  pub cmd : ClientCommand

pub record Ack : Type 0 where
  pub seq : ℕ
  pub client_order_id : ℕ
  pub order_id : ℕ
  pub accepted : Bool
  pub reason : RejectReason

pub record Trade : Type 0 where
  pub seq : ℕ
  pub symbol_id : ℕ
  pub resting_order_id : ℕ
  pub aggressing_order_id : ℕ
  pub price : ℤ
  pub qty : ℕ

pub record MdEvent : Type 0 where
  pub seq : ℕ
  pub type : MdType
  pub symbol_id : ℕ
  pub order_id : ℕ
  pub new_order_id : ℕ
  pub account_id : ℕ
  pub side : Side
  pub price : ℤ
  pub qty : ℕ
  pub reason : RejectReason

-- `side == Side::Buy`
abbrev pub is_buy : Side → Bool
is_buy Side.buy = true
is_buy _ = false

-- `tif == TimeInForce::Gtc`
abbrev pub is_gtc : TimeInForce → Bool
is_gtc TimeInForce.gtc = true
is_gtc _ = false

-- `reason == RejectReason::None`
abbrev pub is_none : RejectReason → Bool
is_none RejectReason.none = true
is_none _ = false

-- `cmd.type == CommandType::New`, and its two kin.
abbrev pub is_new : CommandType → Bool
is_new CommandType.new = true
is_new _ = false

abbrev pub is_cancel : CommandType → Bool
is_cancel CommandType.cancel = true
is_cancel _ = false

abbrev pub is_replace : CommandType → Bool
is_replace CommandType.replace = true
is_replace _ = false
