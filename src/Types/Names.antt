-- ===== src/Types/Names.antt =====
-- `to_string` of include/exsim/types.hpp, for a `Side` and for a `RejectReason`.
use Prim.Native.String.{String}
use exchange_and_feed_handle.Base.{if◌then◌else◌}
use exchange_and_feed_handle.Types.{Side, RejectReason, is_buy}

unfoldable pub side_to_string : Side → String
side_to_string side = if is_buy side then "B" else "S"

unfoldable pub reject_reason_to_string : RejectReason → String
reject_reason_to_string RejectReason.none = "none"
reject_reason_to_string RejectReason.malformed = "malformed"
reject_reason_to_string RejectReason.unknown_order = "unknown_order"
reject_reason_to_string RejectReason.duplicate_order = "duplicate_order"
reject_reason_to_string RejectReason.risk_max_qty = "risk_max_qty"
reject_reason_to_string RejectReason.risk_max_notional = "risk_max_notional"
reject_reason_to_string RejectReason.risk_open_orders = "risk_open_orders"
reject_reason_to_string RejectReason.risk_rate_limit = "risk_rate_limit"
reject_reason_to_string RejectReason.invalid_symbol = "invalid_symbol"
reject_reason_to_string RejectReason.invalid_qty = "invalid_qty"
reject_reason_to_string RejectReason.invalid_price = "invalid_price"
reject_reason_to_string (RejectReason.other n) = "unknown"
