-- ===== src/MarketData/RoundTrip.antt =====
-- A frame that `encode_md_event` wrote is decoded to its event.
use exchange_and_feed_handle.Base.{
  ℕ, ◌≡◌, refl, ◌∙◌, Option, none, some, [], arith, length, ◌==◌, if◌then◌else◌,
}
use exchange_and_feed_handle.Base.Int.{to_u64, of_u64-to_u64, to_u64-lt}
use exchange_and_feed_handle.Types.{MdEvent}
use exchange_and_feed_handle.Types.Codes.{
  md_type_byte, md_type_of-byte, md_type_byte-lt, side_byte, side_of-byte, side_byte-lt,
  reject_reason_byte, reject_reason_of-byte, reject_reason_byte-lt,
}
use exchange_and_feed_handle.Codec.{le_bytes, at_end}
use exchange_and_feed_handle.Codec.Laws.{read-pod, read-pod_last}
use exchange_and_feed_handle.Frame.Laws.{open_frame-seal}
use exchange_and_feed_handle.MarketData.{
  IsMdEvent, DecodeResult, event_payload, encode_md_event, read_event, check_seq, decode_payload,
  decode_md_event, md_magic, md_version,
}

length-event_payload : (ev : MdEvent) → length (event_payload ev) ≡ 47
unfolding event_payload le_bytes
length-event_payload ev = refl

read_event-payload : (ev : MdEvent) → IsMdEvent ev → read_event (event_payload ev) ≡ some (ev, [])
unfolding read_event event_payload at_end
read_event-payload ev v =
    read-pod 8 ev.seq _ _ v.seq_range
    ∙ read-pod 1 (md_type_byte ev.type) _ _ (md_type_byte-lt ev.type v.type_range)
    ∙ read-pod 4 ev.symbol_id _ _ v.symbol_id_range
    ∙ read-pod 8 ev.order_id _ _ v.order_id_range
    ∙ read-pod 8 ev.new_order_id _ _ v.new_order_id_range
    ∙ read-pod 4 ev.account_id _ _ v.account_id_range
    ∙ read-pod 1 (side_byte ev.side) _ _ (side_byte-lt ev.side v.side_range)
    ∙ read-pod 8 (to_u64 ev.price) _ _ (to_u64-lt ev.price)
    ∙ read-pod 4 ev.qty _ _ v.qty_range
    ∙ read-pod_last 1 (reject_reason_byte ev.reason) _
        (reject_reason_byte-lt ev.reason v.reason_range)
    ∙ rw (
      md_type_of-byte ev.type v.type_range,
      side_of-byte ev.side v.side_range,
      of_u64-to_u64 ev.price v.price_range,
      reject_reason_of-byte ev.reason v.reason_range,
    )

decode_payload-payload :
    (ev : MdEvent) (expected : Option ℕ)
    → IsMdEvent ev
    → decode_payload (event_payload ev) expected ≡ check_seq ev expected
unfolding decode_payload
decode_payload-payload ev expected v = rw (read_event-payload ev v, decode_payload)

decode-sealed :
    (ev : MdEvent) (expected : Option ℕ)
    → IsMdEvent ev
    → decode_md_event (encode_md_event ev) expected ≡ check_seq ev expected
unfolding decode_md_event encode_md_event
decode-sealed ev expected v =
    let opened =
      open_frame-seal md_magic md_version (event_payload ev) (omega arith) (omega arith)
        (omega (arith, length-event_payload ev)) in
    rw (opened, decode_md_event) (decode_payload-payload ev expected v)

-- The result with an event, and the one that says which number came in place of which.
abbrev pub given : MdEvent → DecodeResult
given ev = record { event = some ev; error = none }

abbrev pub gap : ℕ → ℕ → DecodeResult
gap n seq = record {
  event = none;
  error = some (record { message = "feed gap"; expected = n; actual = seq });
}

-- For every event with fields in range, the decoder makes of the encoder's frame that event and no
-- error, if no sequence number is expected or the event has the number that is; if it has another, it
-- gives no event, and the error `feed gap` with the expected number and the event's.
pub decode-encode_event :
    (ev : MdEvent) (n : ℕ)
    → IsMdEvent ev
    → (decode_md_event (encode_md_event ev) none ≡ given ev)
      × (decode_md_event (encode_md_event ev) (some n)
          ≡ (if ev.seq == n then given ev else gap n ev.seq))
decode-encode_event ev n v = (decode-sealed ev none v, decode-sealed ev (some n) v)
