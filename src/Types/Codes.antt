-- ===== src/Types/Codes.antt =====
-- The bytes of the enumerations of include/exsim/types.hpp: `static_cast<std::uint8_t>(e)`, and the cast
-- of a byte to the enumeration.
use exchange_and_feed_handle.Base.{ℕ, ◌<◌, ◌≡◌, ◌≢◌, refl, arith, ◌==◌, if◌then◌else◌}
use exchange_and_feed_handle.Types.{Side, CommandType, TimeInForce, RejectReason, MdType}

unfoldable pub side_byte : Side → ℕ
side_byte Side.buy = 1
side_byte Side.sell = 2
side_byte (Side.other n) = n

unfoldable pub side_of : ℕ → Side
side_of n = if n == 1 then Side.buy else if n == 2 then Side.sell else Side.other n

-- A value that the enumeration can hold, each in one way.
abbrev pub IsSide : Side → Type 0
IsSide Side.buy = Unit {0}
IsSide Side.sell = Unit {0}
IsSide (Side.other n) = (n < 256) × (n ≢ 1) × (n ≢ 2)

pub side_of-byte : (t : Side) → IsSide t → side_of (side_byte t) ≡ t
unfolding side_of side_byte
side_of-byte Side.buy h = refl
side_of-byte Side.sell h = refl
side_of-byte (Side.other n) h = ground arith

pub side_byte-of : (n : ℕ) → side_byte (side_of n) ≡ n
unfolding side_of side_byte
side_byte-of n = ground arith

pub side_byte-lt : (t : Side) → IsSide t → side_byte t < 256
unfolding side_byte
side_byte-lt Side.buy h = omega arith
side_byte-lt Side.sell h = omega arith
side_byte-lt (Side.other n) h = h.0

pub side_of-IsSide : (n : ℕ) → n < 256 → IsSide (side_of n)
unfolding side_of
side_of-IsSide n h = ground arith

unfoldable pub command_type_byte : CommandType → ℕ
command_type_byte CommandType.new = 1
command_type_byte CommandType.cancel = 2
command_type_byte CommandType.replace = 3
command_type_byte (CommandType.other n) = n

unfoldable pub command_type_of : ℕ → CommandType
command_type_of n =
    if n == 1
    then CommandType.new
    else if n == 2
    then CommandType.cancel
    else if n == 3
    then CommandType.replace
    else CommandType.other n

-- A value that the enumeration can hold, each in one way.
abbrev pub IsCommandType : CommandType → Type 0
IsCommandType CommandType.new = Unit {0}
IsCommandType CommandType.cancel = Unit {0}
IsCommandType CommandType.replace = Unit {0}
IsCommandType (CommandType.other n) = (n < 256) × (n ≢ 1) × (n ≢ 2) × (n ≢ 3)

pub command_type_of-byte :
    (t : CommandType) → IsCommandType t → command_type_of (command_type_byte t) ≡ t
unfolding command_type_of command_type_byte
command_type_of-byte CommandType.new h = refl
command_type_of-byte CommandType.cancel h = refl
command_type_of-byte CommandType.replace h = refl
command_type_of-byte (CommandType.other n) h = ground arith

pub command_type_byte-of : (n : ℕ) → command_type_byte (command_type_of n) ≡ n
unfolding command_type_of command_type_byte
command_type_byte-of n = ground arith

pub command_type_byte-lt : (t : CommandType) → IsCommandType t → command_type_byte t < 256
unfolding command_type_byte
command_type_byte-lt CommandType.new h = omega arith
command_type_byte-lt CommandType.cancel h = omega arith
command_type_byte-lt CommandType.replace h = omega arith
command_type_byte-lt (CommandType.other n) h = h.0

pub command_type_of-IsCommandType : (n : ℕ) → n < 256 → IsCommandType (command_type_of n)
unfolding command_type_of
command_type_of-IsCommandType n h = ground arith

unfoldable pub time_in_force_byte : TimeInForce → ℕ
time_in_force_byte TimeInForce.gtc = 1
time_in_force_byte TimeInForce.ioc = 2
time_in_force_byte (TimeInForce.other n) = n

unfoldable pub time_in_force_of : ℕ → TimeInForce
time_in_force_of n =
    if n == 1 then TimeInForce.gtc else if n == 2 then TimeInForce.ioc else TimeInForce.other n

-- A value that the enumeration can hold, each in one way.
abbrev pub IsTimeInForce : TimeInForce → Type 0
IsTimeInForce TimeInForce.gtc = Unit {0}
IsTimeInForce TimeInForce.ioc = Unit {0}
IsTimeInForce (TimeInForce.other n) = (n < 256) × (n ≢ 1) × (n ≢ 2)

pub time_in_force_of-byte :
    (t : TimeInForce) → IsTimeInForce t → time_in_force_of (time_in_force_byte t) ≡ t
unfolding time_in_force_of time_in_force_byte
time_in_force_of-byte TimeInForce.gtc h = refl
time_in_force_of-byte TimeInForce.ioc h = refl
time_in_force_of-byte (TimeInForce.other n) h = ground arith

pub time_in_force_byte-of : (n : ℕ) → time_in_force_byte (time_in_force_of n) ≡ n
unfolding time_in_force_of time_in_force_byte
time_in_force_byte-of n = ground arith

pub time_in_force_byte-lt : (t : TimeInForce) → IsTimeInForce t → time_in_force_byte t < 256
unfolding time_in_force_byte
time_in_force_byte-lt TimeInForce.gtc h = omega arith
time_in_force_byte-lt TimeInForce.ioc h = omega arith
time_in_force_byte-lt (TimeInForce.other n) h = h.0

pub time_in_force_of-IsTimeInForce : (n : ℕ) → n < 256 → IsTimeInForce (time_in_force_of n)
unfolding time_in_force_of
time_in_force_of-IsTimeInForce n h = ground arith

unfoldable pub reject_reason_byte : RejectReason → ℕ
reject_reason_byte RejectReason.none = 0
reject_reason_byte RejectReason.malformed = 1
reject_reason_byte RejectReason.unknown_order = 2
reject_reason_byte RejectReason.duplicate_order = 3
reject_reason_byte RejectReason.risk_max_qty = 4
reject_reason_byte RejectReason.risk_max_notional = 5
reject_reason_byte RejectReason.risk_open_orders = 6
reject_reason_byte RejectReason.risk_rate_limit = 7
reject_reason_byte RejectReason.invalid_symbol = 8
reject_reason_byte RejectReason.invalid_qty = 9
reject_reason_byte RejectReason.invalid_price = 10
reject_reason_byte (RejectReason.other n) = n

unfoldable pub reject_reason_of : ℕ → RejectReason
reject_reason_of n =
    if n == 0
    then RejectReason.none
    else if n == 1
    then RejectReason.malformed
    else if n == 2
    then RejectReason.unknown_order
    else if n == 3
    then RejectReason.duplicate_order
    else if n == 4
    then RejectReason.risk_max_qty
    else if n == 5
    then RejectReason.risk_max_notional
    else if n == 6
    then RejectReason.risk_open_orders
    else if n == 7
    then RejectReason.risk_rate_limit
    else if n == 8
    then RejectReason.invalid_symbol
    else if n == 9
    then RejectReason.invalid_qty
    else if n == 10
    then RejectReason.invalid_price
    else RejectReason.other n

-- A value that the enumeration can hold, each in one way.
abbrev pub IsRejectReason : RejectReason → Type 0
IsRejectReason RejectReason.none = Unit {0}
IsRejectReason RejectReason.malformed = Unit {0}
IsRejectReason RejectReason.unknown_order = Unit {0}
IsRejectReason RejectReason.duplicate_order = Unit {0}
IsRejectReason RejectReason.risk_max_qty = Unit {0}
IsRejectReason RejectReason.risk_max_notional = Unit {0}
IsRejectReason RejectReason.risk_open_orders = Unit {0}
IsRejectReason RejectReason.risk_rate_limit = Unit {0}
IsRejectReason RejectReason.invalid_symbol = Unit {0}
IsRejectReason RejectReason.invalid_qty = Unit {0}
IsRejectReason RejectReason.invalid_price = Unit {0}
IsRejectReason (RejectReason.other n) =
    (n < 256)
    × (n ≢ 0)
    × (n ≢ 1)
    × (n ≢ 2)
    × (n ≢ 3)
    × (n ≢ 4)
    × (n ≢ 5)
    × (n ≢ 6)
    × (n ≢ 7)
    × (n ≢ 8)
    × (n ≢ 9)
    × (n ≢ 10)

pub reject_reason_of-byte :
    (t : RejectReason) → IsRejectReason t → reject_reason_of (reject_reason_byte t) ≡ t
unfolding reject_reason_of reject_reason_byte
reject_reason_of-byte RejectReason.none h = refl
reject_reason_of-byte RejectReason.malformed h = refl
reject_reason_of-byte RejectReason.unknown_order h = refl
reject_reason_of-byte RejectReason.duplicate_order h = refl
reject_reason_of-byte RejectReason.risk_max_qty h = refl
reject_reason_of-byte RejectReason.risk_max_notional h = refl
reject_reason_of-byte RejectReason.risk_open_orders h = refl
reject_reason_of-byte RejectReason.risk_rate_limit h = refl
reject_reason_of-byte RejectReason.invalid_symbol h = refl
reject_reason_of-byte RejectReason.invalid_qty h = refl
reject_reason_of-byte RejectReason.invalid_price h = refl
reject_reason_of-byte (RejectReason.other n) h = ground arith

pub reject_reason_byte-of : (n : ℕ) → reject_reason_byte (reject_reason_of n) ≡ n
unfolding reject_reason_of reject_reason_byte
reject_reason_byte-of n = ground arith

pub reject_reason_byte-lt : (t : RejectReason) → IsRejectReason t → reject_reason_byte t < 256
unfolding reject_reason_byte
reject_reason_byte-lt RejectReason.none h = omega arith
reject_reason_byte-lt RejectReason.malformed h = omega arith
reject_reason_byte-lt RejectReason.unknown_order h = omega arith
reject_reason_byte-lt RejectReason.duplicate_order h = omega arith
reject_reason_byte-lt RejectReason.risk_max_qty h = omega arith
reject_reason_byte-lt RejectReason.risk_max_notional h = omega arith
reject_reason_byte-lt RejectReason.risk_open_orders h = omega arith
reject_reason_byte-lt RejectReason.risk_rate_limit h = omega arith
reject_reason_byte-lt RejectReason.invalid_symbol h = omega arith
reject_reason_byte-lt RejectReason.invalid_qty h = omega arith
reject_reason_byte-lt RejectReason.invalid_price h = omega arith
reject_reason_byte-lt (RejectReason.other n) h = h.0

pub reject_reason_of-IsRejectReason : (n : ℕ) → n < 256 → IsRejectReason (reject_reason_of n)
unfolding reject_reason_of
reject_reason_of-IsRejectReason n h = ground arith

unfoldable pub md_type_byte : MdType → ℕ
md_type_byte MdType.add = 1
md_type_byte MdType.cancel = 2
md_type_byte MdType.execute = 3
md_type_byte MdType.replace = 4
md_type_byte MdType.reject = 5
md_type_byte (MdType.other n) = n

unfoldable pub md_type_of : ℕ → MdType
md_type_of n =
    if n == 1
    then MdType.add
    else if n == 2
    then MdType.cancel
    else if n == 3
    then MdType.execute
    else if n == 4
    then MdType.replace
    else if n == 5
    then MdType.reject
    else MdType.other n

-- A value that the enumeration can hold, each in one way.
abbrev pub IsMdType : MdType → Type 0
IsMdType MdType.add = Unit {0}
IsMdType MdType.cancel = Unit {0}
IsMdType MdType.execute = Unit {0}
IsMdType MdType.replace = Unit {0}
IsMdType MdType.reject = Unit {0}
IsMdType (MdType.other n) = (n < 256) × (n ≢ 1) × (n ≢ 2) × (n ≢ 3) × (n ≢ 4) × (n ≢ 5)

pub md_type_of-byte : (t : MdType) → IsMdType t → md_type_of (md_type_byte t) ≡ t
unfolding md_type_of md_type_byte
md_type_of-byte MdType.add h = refl
md_type_of-byte MdType.cancel h = refl
md_type_of-byte MdType.execute h = refl
md_type_of-byte MdType.replace h = refl
md_type_of-byte MdType.reject h = refl
md_type_of-byte (MdType.other n) h = ground arith

pub md_type_byte-of : (n : ℕ) → md_type_byte (md_type_of n) ≡ n
unfolding md_type_of md_type_byte
md_type_byte-of n = ground arith

pub md_type_byte-lt : (t : MdType) → IsMdType t → md_type_byte t < 256
unfolding md_type_byte
md_type_byte-lt MdType.add h = omega arith
md_type_byte-lt MdType.cancel h = omega arith
md_type_byte-lt MdType.execute h = omega arith
md_type_byte-lt MdType.replace h = omega arith
md_type_byte-lt MdType.reject h = omega arith
md_type_byte-lt (MdType.other n) h = h.0

pub md_type_of-IsMdType : (n : ℕ) → n < 256 → IsMdType (md_type_of n)
unfolding md_type_of
md_type_of-IsMdType n h = ground arith
