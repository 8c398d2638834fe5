-- ===== src/Tests/Wire.antt =====
-- The theorems on frames, feeds and the journal, at one order, two events and one journal.
use exchange_and_feed_handle.Base.{
  ℕ, ◌^◌, ◌<◌, ◌≡◌, ◌≢◌, ◌↔◌, refl, ◌∙◌, none, some, List, [], ◌∷◌, ◌++◌, arith, if◌then◌else◌, map,
  take,
}
use mathlib.Core.List.{foldl}
use exchange_and_feed_handle.Base.Int.{pos, to_u64}
use exchange_and_feed_handle.Types.{
  ClientCommand, SequencedCommand, MdEvent, CommandType, Side, TimeInForce, RejectReason, MdType,
  is_none,
}
use exchange_and_feed_handle.Types.Codes.{command_type_byte, side_byte, time_in_force_byte}
use exchange_and_feed_handle.Codec.{le_bytes}
use exchange_and_feed_handle.Checksum.{fnv1a64}
use exchange_and_feed_handle.Checksum.Laws.{fnv1a64_one_byte}
use exchange_and_feed_handle.Frame.Laws.{header}
use exchange_and_feed_handle.Protocol as Order
use exchange_and_feed_handle.Protocol.RoundTrip.{
  decode-encode_command, encode_client_command-AreBytes,
}
use exchange_and_feed_handle.Protocol.Decode.{decode-eq_decoded, decode_damaged}
use exchange_and_feed_handle.Protocol.FixedFrame.{encode_command_frame-eq}
use exchange_and_feed_handle.Protocol.Valid.{IsAdmissible, validate-eq_none_iff}
use exchange_and_feed_handle.MarketData as Md
use exchange_and_feed_handle.MarketData.RoundTrip.{decode-encode_event, given, gap}
use exchange_and_feed_handle.MarketData.FixedFrame.{encode_event_frame-eq}
use exchange_and_feed_handle.MarketData.Feed.{follow, follow-map, follow_gap}
use exchange_and_feed_handle.Journal.{
  IsSequencedCommand, JournalReader, file_header, append, open_reader, read_all, encode_record,
  encode_sequenced_command_payload,
}
use exchange_and_feed_handle.Journal.Progress.{read_all-returns}
use exchange_and_feed_handle.Journal.Torn.{read_all_torn}
use exchange_and_feed_handle.Journal.RoundTrip.{read_all-append}

abbrev pub bid : ClientCommand
bid = record {
  type = CommandType.new;
  client_order_id = 1;
  order_id = 11;
  cancel_order_id = 0;
  account_id = 7;
  symbol_id = 1;
  side = Side.buy;
  price = pos 100;
  qty = 10;
  tif = TimeInForce.gtc;
  client_ts_ns = 5;
}

pub bid-IsClientCommand : Order.IsClientCommand bid
bid-IsClientCommand = record {
  type_range = tt;
  client_order_id_range = omega arith;
  order_id_range = omega arith;
  cancel_order_id_range = omega arith;
  account_id_range = omega arith;
  symbol_id_range = omega arith;
  side_range = tt;
  price_range = (omega arith, omega arith);
  qty_range = omega arith;
  tif_range = tt;
  client_ts_ns_range = omega arith;
}

bid_valid : Order.validate_client_command bid ≡ RejectReason.none
unfolding Order.validate_client_command
bid_valid = refl

decode-encode_command_example : Order.decode_client_command (Order.encode_client_command bid) ≡ (
    if is_none (Order.validate_client_command bid)
    then Order.decoded bid
    else Order.fail (Order.validate_client_command bid) "semantic validation failed")
decode-encode_command_example = decode-encode_command bid bid-IsClientCommand

bid_accepted : Order.decode_client_command (Order.encode_client_command bid) ≡ Order.decoded bid
bid_accepted = decode-encode_command_example ∙ rw bid_valid

decode-eq_decoded_example :
    (Order.encode_client_command bid ≡ Order.encode_client_command bid)
    × Order.IsClientCommand bid
    × (Order.validate_client_command bid ≡ RejectReason.none)
decode-eq_decoded_example =
    decode-eq_decoded (Order.encode_client_command bid) bid (encode_client_command-AreBytes bid)
      bid_accepted

bid_split : Order.command_payload bid ≡ take 54 (Order.command_payload bid) ++ (0 ∷ [])
unfolding Order.command_payload le_bytes to_u64 command_type_byte side_byte time_in_force_byte
bid_split = refl

-- The last byte of the time stamp arrives as 9.
decode_damaged_example :
    Order.decode_client_command (
      header Order.protocol_magic Order.protocol_version 55
        (fnv1a64 (Order.command_payload bid))
        (take 54 (Order.command_payload bid) ++ (9 ∷ [])))
    ≡ Order.fail RejectReason.malformed "checksum mismatch"
decode_damaged_example =
    decode_damaged bid 0 9 (take 54 (Order.command_payload bid)) [] bid_split (omega arith)
      (omega arith) (λ e. omega arith) tt

encode_command_frame-eq_example :
    Order.encode_client_command_frame bid ≡ Order.encode_client_command bid
encode_command_frame-eq_example = encode_command_frame-eq bid

validate-eq_none_iff_example :
    (Order.validate_client_command bid ≡ RejectReason.none) ↔ IsAdmissible bid
validate-eq_none_iff_example = validate-eq_none_iff bid

abbrev event : ℕ → MdEvent
event n = record {
  seq = n;
  type = MdType.add;
  symbol_id = 1;
  order_id = 11;
  new_order_id = 0;
  account_id = 7;
  side = Side.buy;
  price = pos 100;
  qty = 10;
  reason = RejectReason.none;
}

event-IsMdEvent : (n : ℕ) → n < 2 ^ 64 → Md.IsMdEvent (event n)
event-IsMdEvent n h = record {
  seq_range = h;
  type_range = tt;
  symbol_id_range = omega arith;
  order_id_range = omega arith;
  new_order_id_range = omega arith;
  account_id_range = omega arith;
  side_range = tt;
  price_range = (omega arith, omega arith);
  qty_range = omega arith;
  reason_range = tt;
}

decode-encode_event_example :
    (Md.decode_md_event (Md.encode_md_event (event 3)) none ≡ given (event 3))
    × (Md.decode_md_event (Md.encode_md_event (event 3)) (some 2) ≡ gap 2 3)
decode-encode_event_example = decode-encode_event (event 3) 2 (event-IsMdEvent 3 (omega arith))

encode_event_frame-eq_example : Md.encode_md_event_frame (event 3) ≡ Md.encode_md_event (event 3)
encode_event_frame-eq_example = encode_event_frame-eq (event 3)

abbrev two_events : List MdEvent
two_events = event 1 ∷ event 2 ∷ []

abbrev late_events : List MdEvent
late_events = event 2 ∷ event 3 ∷ []

follow-map_example :
    (follow (record { expected = 1 }) (map Md.encode_md_event two_events)).1
    ≡ map Md.decoded two_events
follow-map_example =
    follow-map 1 two_events (event-IsMdEvent 1 (omega arith), (event-IsMdEvent 2 (omega arith), tt))
      (refl, (refl, tt))

follow_gap_example :
    follow (record { expected = 1 }) (map Md.encode_md_event late_events)
    ≡ (record { expected = 1 }, map (λ ev. Md.fail "feed gap" 1 ev.seq) late_events)
follow_gap_example =
    follow_gap 1 late_events
      (event-IsMdEvent 2 (omega arith), (event-IsMdEvent 3 (omega arith), tt))
      ((λ e. omega arith), ((λ e. omega arith), tt))

in_range :
    (seq ts : ℕ)
    → seq < 2 ^ 64
    → ts < 2 ^ 64
    → IsSequencedCommand (record { seq = seq; recv_ts_ns = ts; cmd = bid })
in_range seq ts h k = record {
  seq_range = h;
  recv_ts_ns_range = k;
  cmd_range = bid-IsClientCommand;
}

abbrev two_records : List SequencedCommand
two_records =
    record { seq = 1; recv_ts_ns = 100; cmd = bid }
    ∷ record { seq = 2; recv_ts_ns = 101; cmd = bid }
    ∷ []

read_all-append_example :
    read_all 3 (open_reader (foldl append file_header two_records))
    ≡ some (two_records, record { rest = []; error = none })
read_all-append_example =
    read_all-append two_records
      (in_range 1 100 (omega arith) (omega arith), (in_range 2 101 (omega arith) (omega arith), tt))

-- The second record is cut after 20 bytes.
read_all_torn_example :
    read_all 2 (
      open_reader (
        foldl append file_header (record { seq = 1; recv_ts_ns = 100; cmd = bid } ∷ [])
        ++ take 20 (
            encode_record (
              encode_sequenced_command_payload (record { seq = 2; recv_ts_ns = 101; cmd = bid })))))
    ≡ some (
      record { seq = 1; recv_ts_ns = 100; cmd = bid } ∷ [],
      record { rest = []; error = some "short record payload" },
    )
read_all_torn_example =
    read_all_torn (record { seq = 1; recv_ts_ns = 100; cmd = bid } ∷ [])
      (record { seq = 2; recv_ts_ns = 101; cmd = bid }) 20
      (in_range 1 100 (omega arith) (omega arith), tt) (omega arith)

-- Five bytes that are no record.
abbrev garbage : JournalReader
garbage = record { rest = 1 ∷ 2 ∷ 3 ∷ 4 ∷ 5 ∷ []; error = none }

read_all-returns_example :
    (scs : List SequencedCommand) × (r' : JournalReader) × (read_all 6 garbage ≡ some (scs, r'))
read_all-returns_example = read_all-returns 6 garbage (omega arith)

fnv1a64_one_byte_example : fnv1a64 (1 ∷ 97 ∷ 2 ∷ []) ≢ fnv1a64 (1 ∷ 98 ∷ 2 ∷ [])
fnv1a64_one_byte_example =
    fnv1a64_one_byte 97 98 (1 ∷ []) (2 ∷ []) (omega arith) (omega arith) (omega arith, tt)
      (λ e. omega arith)
