-- ===== src/Tests/Names.antt =====
-- The names of a side and of a reason.
use exchange_and_feed_handle.Base.{◌≡◌, refl}
use exchange_and_feed_handle.Types.{Side, RejectReason}
use exchange_and_feed_handle.Types.Names.{side_to_string, reject_reason_to_string}

name_of_sell : side_to_string Side.sell ≡ "S"
unfolding side_to_string
name_of_sell = refl

name_of_other : reject_reason_to_string (RejectReason.other 99) ≡ "unknown"
unfolding reject_reason_to_string
name_of_other = refl
