-- ===== src/MarketData/FixedFrame.antt =====
-- The allocation-free encoder.
use exchange_and_feed_handle.Base.{◌≡◌, refl}
use exchange_and_feed_handle.Types.{MdEvent}
use exchange_and_feed_handle.Codec.{le_bytes}
use exchange_and_feed_handle.Frame.{seal}
use exchange_and_feed_handle.MarketData.{event_payload, encode_md_event, encode_md_event_frame}

-- `encode_md_event_frame`, which writes into a fixed array at running positions, gives the bytes of
-- `encode_md_event` for every event.
pub encode_event_frame-eq : (ev : MdEvent) → encode_md_event_frame ev ≡ encode_md_event ev
unfolding encode_md_event_frame encode_md_event event_payload seal le_bytes
encode_event_frame-eq ev = refl
