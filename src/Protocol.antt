-- ===== src/Protocol.antt =====
-- src/order_entry.cpp: client commands as frames of bytes. A `DecodeResult` has a command or an error.
pub mod Decode
pub mod FixedFrame
pub mod RoundTrip
pub mod Valid
use Prim.Native.String.{String}
use exchange_and_feed_handle.Base.{
  ℕ, suc, ◌+◌, ◌^◌, ◌<◌, Bool, true, false, not, ◌&&◌, ◌||◌, Option, none, some, List, [], ◌∷◌,
  ◌++◌, ◌==◌, if◌then◌else◌, take, drop, length, replicate,
}
use exchange_and_feed_handle.Base.Int.{ℤ, pos, to_u64, of_u64, leb_ℤ, IsI64}
use exchange_and_feed_handle.Types.{
  ClientCommand, CommandType, TimeInForce, Side, RejectReason, is_buy, is_gtc, is_none, is_new,
  is_cancel, is_replace,
}
use exchange_and_feed_handle.Types.Codes.{
  command_type_byte, command_type_of, side_byte, side_of, time_in_force_byte, time_in_force_of,
  IsSide, IsCommandType, IsTimeInForce,
}
use exchange_and_feed_handle.Codec.{le_bytes, pod, at_end, pure, Reads, ◌>>=◌, ◌>>◌}
use exchange_and_feed_handle.Checksum.{fnv1a64}
use exchange_and_feed_handle.Frame.{
  Fault, short_header, bad_magic, bad_version, bad_length, checksum_mismatch, Opened, payload,
  fault, open_frame, seal,
}

-- `kProtocolMagic` and `kProtocolVersion`
abbrev pub protocol_magic : ℕ
protocol_magic = 0x4558_5349

abbrev pub protocol_version : ℕ
protocol_version = 1

-- A command whose fields fit their types.
pub record IsClientCommand (cmd : ClientCommand) : Type 0 where
  pub type_range : IsCommandType cmd.type
  pub client_order_id_range : cmd.client_order_id < 2 ^ 64
  pub order_id_range : cmd.order_id < 2 ^ 64
  pub cancel_order_id_range : cmd.cancel_order_id < 2 ^ 64
  pub account_id_range : cmd.account_id < 2 ^ 32
  pub symbol_id_range : cmd.symbol_id < 2 ^ 32
  pub side_range : IsSide cmd.side
  pub price_range : IsI64 cmd.price
  pub qty_range : cmd.qty < 2 ^ 32
  pub tif_range : IsTimeInForce cmd.tif
  pub client_ts_ns_range : cmd.client_ts_ns < 2 ^ 64

pub record DecodeError : Type 0 where
  pub reason : RejectReason
  pub message : String

pub record DecodeResult : Type 0 where
  pub command : Option ClientCommand
  pub error : Option DecodeError

abbrev pub decoded : ClientCommand → DecodeResult
decoded cmd = record { command = some cmd; error = none }

abbrev pub fail : RejectReason → String → DecodeResult
fail r msg = record { command = none; error = some (record { reason = r; message = msg }) }

-- The writes of `encode_client_command` into its payload.
unfoldable pub command_payload : ClientCommand → List ℕ
command_payload cmd =
    le_bytes 1 (command_type_byte cmd.type)
    ++ (le_bytes 8 cmd.client_order_id
        ++ (le_bytes 8 cmd.order_id
            ++ (le_bytes 8 cmd.cancel_order_id
                ++ (le_bytes 4 cmd.account_id
                    ++ (le_bytes 4 cmd.symbol_id
                        ++ (le_bytes 1 (side_byte cmd.side)
                            ++ (le_bytes 8 (to_u64 cmd.price)
                                ++ (le_bytes 4 cmd.qty
                                    ++ (le_bytes 1 (time_in_force_byte cmd.tif)
                                        ++ le_bytes 8 cmd.client_ts_ns)))))))))

unfoldable pub encode_client_command : ClientCommand → List ℕ
encode_client_command cmd = seal protocol_magic protocol_version (command_payload cmd)

-- The checks of a command of type `New`, of type `Cancel` and of type `Replace`.
abbrev pub validate_order : ClientCommand → RejectReason
validate_order cmd =
    if cmd.qty == 0
    then RejectReason.invalid_qty
    else if leb_ℤ cmd.price (pos 0)
    then RejectReason.invalid_price
    else RejectReason.none

abbrev pub validate_by_type : ClientCommand → CommandType → RejectReason
validate_by_type cmd CommandType.new =
    if cmd.order_id == 0 then RejectReason.malformed else validate_order cmd
validate_by_type cmd CommandType.cancel =
    if cmd.cancel_order_id == 0 then RejectReason.unknown_order else RejectReason.none
validate_by_type cmd CommandType.replace =
    if cmd.cancel_order_id == 0 || cmd.order_id == 0
    then RejectReason.unknown_order
    else validate_order cmd
validate_by_type cmd (CommandType.other n) = RejectReason.none

-- `side != Side::Buy && side != Side::Sell`, and its two kin.
abbrev pub unknown_side : Side → Bool
unknown_side (Side.other n) = true
unknown_side _ = false

abbrev pub unknown_type : CommandType → Bool
unknown_type (CommandType.other n) = true
unknown_type _ = false

abbrev pub unknown_tif : TimeInForce → Bool
unknown_tif (TimeInForce.other n) = true
unknown_tif _ = false

unfoldable pub validate_client_command : ClientCommand → RejectReason
validate_client_command cmd =
    if cmd.account_id == 0
    then RejectReason.malformed
    else if cmd.symbol_id == 0
    then RejectReason.invalid_symbol
    else if unknown_type cmd.type
    then RejectReason.malformed
    else if unknown_side cmd.side
    then RejectReason.malformed
    else if unknown_tif cmd.tif
    then RejectReason.malformed
    else validate_by_type cmd cmd.type

-- The reads of the payload. The code tests them together, with `remaining()`.
unfoldable pub read_command : Reads ClientCommand
read_command = do
  type ← pod 1
  client_order_id ← pod 8
  order_id ← pod 8
  cancel_order_id ← pod 8
  account_id ← pod 4
  symbol_id ← pod 4
  side ← pod 1
  price ← pod 8
  qty ← pod 4
  tif ← pod 1
  client_ts_ns ← pod 8
  at_end
  pure (record {
    type = command_type_of type;
    client_order_id = client_order_id;
    order_id = order_id;
    cancel_order_id = cancel_order_id;
    account_id = account_id;
    symbol_id = symbol_id;
    side = side_of side;
    price = of_u64 price;
    qty = qty;
    tif = time_in_force_of tif;
    client_ts_ns = client_ts_ns;
  })

unfoldable pub decode_payload : List ℕ → DecodeResult
decode_payload body = elim (read_command body) [
  | none ↦ fail RejectReason.malformed "bad payload"
  | some (cmd, _) ↦
      if is_none (validate_client_command cmd)
      then decoded cmd
      else fail (validate_client_command cmd) "semantic validation failed"
]

abbrev pub message : Fault → String
message short_header = "short frame header"
message bad_magic = "bad magic"
message bad_version = "unsupported version"
message bad_length = "bad frame length"
message checksum_mismatch = "checksum mismatch"

unfoldable pub decode_client_command : List ℕ → DecodeResult
decode_client_command frame = elim (open_frame protocol_magic protocol_version frame) [
  | fault f ↦ fail RejectReason.malformed (message f)
  | payload body ↦ decode_payload body
]

-- `std::memcpy(out.data() + pos, &value, sizeof(T)); pos += sizeof(T)` on the array and the position.
abbrev pub write_at : List ℕ → ℕ → List ℕ → List ℕ
write_at out at bs = take at out ++ (bs ++ drop (at + length bs) out)

abbrev pub put : List ℕ × ℕ → ℕ → ℕ → List ℕ × ℕ
put (out, at) k v = (write_at out at (le_bytes k v), at + k)

abbrev pub header_bytes : ℕ
header_bytes = 16

abbrev pub payload_bytes : ℕ
payload_bytes = 55

-- The array behind the writes of the payload.
unfoldable pub fill_payload : ClientCommand → List ℕ
fill_payload cmd =
    let frame : List ℕ × ℕ =
      put (replicate (header_bytes + payload_bytes) 0, header_bytes) 1
        (command_type_byte cmd.type) in
    let frame : List ℕ × ℕ = put frame 8 cmd.client_order_id in
    let frame : List ℕ × ℕ = put frame 8 cmd.order_id in
    let frame : List ℕ × ℕ = put frame 8 cmd.cancel_order_id in
    let frame : List ℕ × ℕ = put frame 4 cmd.account_id in
    let frame : List ℕ × ℕ = put frame 4 cmd.symbol_id in
    let frame : List ℕ × ℕ = put frame 1 (side_byte cmd.side) in
    let frame : List ℕ × ℕ = put frame 8 (to_u64 cmd.price) in
    let frame : List ℕ × ℕ = put frame 4 cmd.qty in
    let frame : List ℕ × ℕ = put frame 1 (time_in_force_byte cmd.tif) in
    let frame : List ℕ × ℕ = put frame 8 cmd.client_ts_ns in frame.0

unfoldable pub encode_client_command_frame : ClientCommand → List ℕ
unfolding fill_payload
encode_client_command_frame cmd =
    let bytes : List ℕ = fill_payload cmd in
    let checksum : ℕ = fnv1a64 (take payload_bytes (drop header_bytes bytes)) in
    let frame : List ℕ × ℕ = put (bytes, 0) 4 protocol_magic in
    let frame : List ℕ × ℕ = put frame 2 protocol_version in
    let frame : List ℕ × ℕ = put frame 2 payload_bytes in
    let frame : List ℕ × ℕ = put frame 8 checksum in frame.0
