-- ===== src/Protocol/Valid.antt =====
-- What `validate_client_command` lets through.
use exchange_and_feed_handle.Base.{◌<◌, ◌≡◌, ◌≢◌, ◌↔◌, arith}
use exchange_and_feed_handle.Base.Int.{pos_part}
use exchange_and_feed_handle.Types.{ClientCommand, CommandType, Side, TimeInForce, RejectReason}
use exchange_and_feed_handle.Protocol.{validate_client_command}

-- An order with something to trade, at a positive price.
abbrev pub IsPriced : ClientCommand → Type 0
IsPriced cmd = (0 < cmd.qty) × (0 < pos_part cmd.price)

abbrev pub IsComplete : ClientCommand → CommandType → Type 0
IsComplete cmd CommandType.new = (cmd.order_id ≢ 0) × IsPriced cmd
IsComplete cmd CommandType.cancel = cmd.cancel_order_id ≢ 0
IsComplete cmd CommandType.replace = (cmd.cancel_order_id ≢ 0) × (cmd.order_id ≢ 0) × IsPriced cmd
IsComplete cmd (CommandType.other n) = ⊥

abbrev pub IsKnownSide : Side → Type 0
IsKnownSide (Side.other n) = ⊥
IsKnownSide _ = Unit {0}

abbrev pub IsKnownTif : TimeInForce → Type 0
IsKnownTif (TimeInForce.other n) = ⊥
IsKnownTif _ = Unit {0}

-- What a command must have to be let through, by its type.
pub record IsAdmissible (cmd : ClientCommand) : Type 0 where
  pub account : cmd.account_id ≢ 0
  pub symbol : cmd.symbol_id ≢ 0
  pub side : IsKnownSide cmd.side
  pub tif : IsKnownTif cmd.tif
  pub complete : IsComplete cmd cmd.type

-- The validator finds nothing wrong with exactly the admissible commands: known type, side and time in
-- force, an account and a symbol, the ids that the type needs, and for `New` and `Replace` a positive
-- quantity and price.
pub validate-eq_none_iff :
    (cmd : ClientCommand) → (validate_client_command cmd ≡ RejectReason.none) ↔ IsAdmissible cmd
unfolding validate_client_command
validate-eq_none_iff cmd = (λ e. ground arith, λ v. ground arith)
