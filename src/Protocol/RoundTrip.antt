-- ===== src/Protocol/RoundTrip.antt =====
-- A frame that `encode_client_command` wrote is decoded to its command.
use exchange_and_feed_handle.Base.{◌≡◌, refl, ◌∙◌, some, [], arith, length, if◌then◌else◌}
use exchange_and_feed_handle.Base.Int.{to_u64, of_u64-to_u64, to_u64-lt}
use exchange_and_feed_handle.Types.{ClientCommand, is_none}
use exchange_and_feed_handle.Types.Codes.{
  command_type_byte, command_type_of-byte, command_type_byte-lt, side_byte, side_of-byte,
  side_byte-lt, time_in_force_byte, time_in_force_of-byte, time_in_force_byte-lt,
}
use exchange_and_feed_handle.Codec.{le_bytes, at_end, AreBytes}
use exchange_and_feed_handle.Codec.Laws.{read-pod, read-pod_last, le_bytes-AreBytes, le_bytes_then}
use exchange_and_feed_handle.Frame.{seal}
use exchange_and_feed_handle.Frame.Laws.{open_frame-seal}
use exchange_and_feed_handle.Protocol.{
  IsClientCommand, decoded, fail, command_payload, encode_client_command, validate_client_command,
  read_command, decode_payload, decode_client_command, protocol_magic, protocol_version,
}

pub length-command_payload : (cmd : ClientCommand) → length (command_payload cmd) ≡ 55
unfolding command_payload le_bytes
length-command_payload cmd = refl

pub encode_client_command-AreBytes : (cmd : ClientCommand) → AreBytes (encode_client_command cmd)
unfolding encode_client_command seal command_payload
encode_client_command-AreBytes cmd = le_bytes_then 4 _ _ (
    le_bytes_then 2 _ _ (
      le_bytes_then 2 _ _ (
        le_bytes_then 8 _ _ (
          le_bytes_then 1 _ _ (
            le_bytes_then 8 _ _ (
              le_bytes_then 8 _ _ (
                le_bytes_then 8 _ _ (
                  le_bytes_then 4 _ _ (
                    le_bytes_then 4 _ _ (
                      le_bytes_then 1 _ _ (
                        le_bytes_then 8 _ _ (
                          le_bytes_then 4 _ _
                            (le_bytes_then 1 _ _ (le_bytes-AreBytes 8 _))))))))))))))

pub read_command-payload :
    (cmd : ClientCommand)
    → IsClientCommand cmd
    → read_command (command_payload cmd) ≡ some (cmd, [])
unfolding read_command command_payload at_end
read_command-payload cmd v =
    read-pod 1 (command_type_byte cmd.type) _ _ (command_type_byte-lt cmd.type v.type_range)
    ∙ read-pod 8 cmd.client_order_id _ _ v.client_order_id_range
    ∙ read-pod 8 cmd.order_id _ _ v.order_id_range
    ∙ read-pod 8 cmd.cancel_order_id _ _ v.cancel_order_id_range
    ∙ read-pod 4 cmd.account_id _ _ v.account_id_range
    ∙ read-pod 4 cmd.symbol_id _ _ v.symbol_id_range
    ∙ read-pod 1 (side_byte cmd.side) _ _ (side_byte-lt cmd.side v.side_range)
    ∙ read-pod 8 (to_u64 cmd.price) _ _ (to_u64-lt cmd.price)
    ∙ read-pod 4 cmd.qty _ _ v.qty_range
    ∙ read-pod 1 (time_in_force_byte cmd.tif) _ _ (time_in_force_byte-lt cmd.tif v.tif_range)
    ∙ read-pod_last 8 cmd.client_ts_ns _ v.client_ts_ns_range
    ∙ rw (
      command_type_of-byte cmd.type v.type_range,
      side_of-byte cmd.side v.side_range,
      of_u64-to_u64 cmd.price v.price_range,
      time_in_force_of-byte cmd.tif v.tif_range,
    )

decode_payload-payload :
    (cmd : ClientCommand)
    → IsClientCommand cmd
    → decode_payload (command_payload cmd) ≡ (
        if is_none (validate_client_command cmd)
        then decoded cmd
        else fail (validate_client_command cmd) "semantic validation failed")
unfolding decode_payload
decode_payload-payload cmd v = rw (read_command-payload cmd v, decode_payload)

-- For every command with fields in range: the decoder gives it back if it passes validation, and
-- otherwise fails with the reason that validation gave.
pub decode-encode_command :
    (cmd : ClientCommand)
    → IsClientCommand cmd
    → decode_client_command (encode_client_command cmd) ≡ (
        if is_none (validate_client_command cmd)
        then decoded cmd
        else fail (validate_client_command cmd) "semantic validation failed")
unfolding decode_client_command encode_client_command
decode-encode_command cmd v =
    let opened =
      open_frame-seal protocol_magic protocol_version (command_payload cmd) (omega arith)
        (omega arith) (omega (arith, length-command_payload cmd)) in
    rw (opened, decode_client_command) (decode_payload-payload cmd v)
