-- ===== src/Protocol/FixedFrame.antt =====
-- The allocation-free encoder.
use exchange_and_feed_handle.Base.{◌≡◌, refl}
use exchange_and_feed_handle.Types.{ClientCommand}
use exchange_and_feed_handle.Codec.{le_bytes}
use exchange_and_feed_handle.Frame.{seal}
use exchange_and_feed_handle.Protocol.{
  command_payload, encode_client_command, encode_client_command_frame,
}

-- `encode_client_command_frame`, which writes into a fixed array at running positions, gives the
-- bytes of `encode_client_command` for every command.
pub encode_command_frame-eq :
    (cmd : ClientCommand) → encode_client_command_frame cmd ≡ encode_client_command cmd
unfolding encode_client_command_frame encode_client_command command_payload seal le_bytes
encode_command_frame-eq cmd = refl
