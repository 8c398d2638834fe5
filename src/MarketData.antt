-- ===== src/MarketData.antt =====
-- src/market_data.cpp: market data events as frames of bytes, and the decoder that follows a feed.
pub mod Feed
pub mod FixedFrame
pub mod RoundTrip
use Prim.Native.String.{String}
use exchange_and_feed_handle.Base.{
  ℕ, ◌+◌, ◌%◌, ◌^◌, ◌<◌, Option, none, some, List, [], ◌∷◌, ◌++◌, ◌==◌, if◌then◌else◌, take, drop,
  length, replicate,
}
use exchange_and_feed_handle.Base.Int.{to_u64, of_u64, IsI64}
use exchange_and_feed_handle.Types.{MdEvent}
use exchange_and_feed_handle.Types.Codes.{
  md_type_byte, md_type_of, side_byte, side_of, reject_reason_byte, reject_reason_of, IsMdType,
  IsSide, IsRejectReason,
}
use exchange_and_feed_handle.Codec.{le_bytes, pod, at_end, pure, Reads, ◌>>=◌, ◌>>◌}
use exchange_and_feed_handle.Checksum.{fnv1a64}
use exchange_and_feed_handle.Frame.{
  Fault, short_header, bad_magic, bad_version, bad_length, checksum_mismatch, payload, fault,
  open_frame, seal,
}

-- `kMdMagic` and `kMdVersion`
abbrev pub md_magic : ℕ
md_magic = 0x4d44_5349

abbrev pub md_version : ℕ
md_version = 1

-- An event whose fields fit their types.
pub record IsMdEvent (ev : MdEvent) : Type 0 where
  pub seq_range : ev.seq < 2 ^ 64
  pub type_range : IsMdType ev.type
  pub symbol_id_range : ev.symbol_id < 2 ^ 32
  pub order_id_range : ev.order_id < 2 ^ 64
  pub new_order_id_range : ev.new_order_id < 2 ^ 64
  pub account_id_range : ev.account_id < 2 ^ 32
  pub side_range : IsSide ev.side
  pub price_range : IsI64 ev.price
  pub qty_range : ev.qty < 2 ^ 32
  pub reason_range : IsRejectReason ev.reason

pub record DecodeError : Type 0 where
  pub message : String
  pub expected : ℕ
  pub actual : ℕ

pub record DecodeResult : Type 0 where
  pub event : Option MdEvent
  pub error : Option DecodeError

abbrev pub decoded : MdEvent → DecodeResult
decoded ev = record { event = some ev; error = none }

abbrev pub fail : String → ℕ → ℕ → DecodeResult
fail msg expected actual = record {
  event = none;
  error = some (record { message = msg; expected = expected; actual = actual });
}

-- The writes of `encode_md_event` into its payload.
unfoldable pub event_payload : MdEvent → List ℕ
event_payload ev =
    le_bytes 8 ev.seq
    ++ (le_bytes 1 (md_type_byte ev.type)
        ++ (le_bytes 4 ev.symbol_id
            ++ (le_bytes 8 ev.order_id
                ++ (le_bytes 8 ev.new_order_id
                    ++ (le_bytes 4 ev.account_id
                        ++ (le_bytes 1 (side_byte ev.side)
                            ++ (le_bytes 8 (to_u64 ev.price)
                                ++ (le_bytes 4 ev.qty
                                    ++ le_bytes 1 (reject_reason_byte ev.reason)))))))))

unfoldable pub encode_md_event : MdEvent → List ℕ
encode_md_event ev = seal md_magic md_version (event_payload ev)

-- The reads of the payload. The code tests them together, with `remaining()`.
unfoldable pub read_event : Reads MdEvent
read_event = do
  seq ← pod 8
  type ← pod 1
  symbol_id ← pod 4
  order_id ← pod 8
  new_order_id ← pod 8
  account_id ← pod 4
  side ← pod 1
  price ← pod 8
  qty ← pod 4
  reason ← pod 1
  at_end
  pure (record {
    seq = seq;
    type = md_type_of type;
    symbol_id = symbol_id;
    order_id = order_id;
    new_order_id = new_order_id;
    account_id = account_id;
    side = side_of side;
    price = of_u64 price;
    qty = qty;
    reason = reject_reason_of reason;
  })

-- `expected_seq && *seq != *expected_seq`
abbrev pub check_seq : MdEvent → Option ℕ → DecodeResult
check_seq ev none = decoded ev
check_seq ev (some expected) =
    if ev.seq == expected then decoded ev else fail "feed gap" expected ev.seq

unfoldable pub decode_payload : List ℕ → Option ℕ → DecodeResult
decode_payload body expected_seq = elim (read_event body) [
  | none ↦ fail "bad md payload" 0 0
  | some (ev, _) ↦ check_seq ev expected_seq
]

abbrev pub message : Fault → String
message short_header = "short md frame header"
message bad_magic = "bad md magic"
message bad_version = "bad md version"
message bad_length = "bad md frame length"
message checksum_mismatch = "md checksum mismatch"

unfoldable pub decode_md_event : List ℕ → Option ℕ → DecodeResult
decode_md_event frame expected_seq = elim (open_frame md_magic md_version frame) [
  | fault f ↦ fail (message f) 0 0
  | payload body ↦ decode_payload body expected_seq
]

-- `FeedDecoder`
pub record FeedDecoder : Type 0 where
  pub expected : ℕ

abbrev pub advance : FeedDecoder → DecodeResult → FeedDecoder × DecodeResult
advance d res = elim res.event [
  | none ↦ (d, res)
  | some _ ↦ (record d { expected = (d.expected + 1) % 2 ^ 64 }, res)
]

unfoldable pub decode : FeedDecoder → List ℕ → FeedDecoder × DecodeResult
decode d frame = advance d (decode_md_event frame (some d.expected))

unfoldable pub reset : FeedDecoder → ℕ → FeedDecoder
reset d next_expected = record d { expected = next_expected }

-- `std::memcpy(out.data() + pos, &value, sizeof(T)); pos += sizeof(T)` on the array and the position.
abbrev pub write_at : List ℕ → ℕ → List ℕ → List ℕ
write_at out at bs = take at out ++ (bs ++ drop (at + length bs) out)

abbrev pub put : List ℕ × ℕ → ℕ → ℕ → List ℕ × ℕ
put (out, at) k v = (write_at out at (le_bytes k v), at + k)

abbrev pub header_bytes : ℕ
header_bytes = 16

-- `kMdPayloadBytes`
abbrev pub payload_bytes : ℕ
payload_bytes = 47

-- The array behind the writes of the payload.
unfoldable pub fill_payload : MdEvent → List ℕ
fill_payload ev =
    let frame : List ℕ × ℕ =
      put (replicate (header_bytes + payload_bytes) 0, header_bytes) 8 ev.seq in
    let frame : List ℕ × ℕ = put frame 1 (md_type_byte ev.type) in
    let frame : List ℕ × ℕ = put frame 4 ev.symbol_id in
    let frame : List ℕ × ℕ = put frame 8 ev.order_id in
    let frame : List ℕ × ℕ = put frame 8 ev.new_order_id in
    let frame : List ℕ × ℕ = put frame 4 ev.account_id in
    let frame : List ℕ × ℕ = put frame 1 (side_byte ev.side) in
    let frame : List ℕ × ℕ = put frame 8 (to_u64 ev.price) in
    let frame : List ℕ × ℕ = put frame 4 ev.qty in
    let frame : List ℕ × ℕ = put frame 1 (reject_reason_byte ev.reason) in frame.0

unfoldable pub encode_md_event_frame : MdEvent → List ℕ
unfolding fill_payload
encode_md_event_frame ev =
    let bytes : List ℕ = fill_payload ev in
    let checksum : ℕ = fnv1a64 (take payload_bytes (drop header_bytes bytes)) in
    let frame : List ℕ × ℕ = put (bytes, 0) 4 md_magic in
    let frame : List ℕ × ℕ = put frame 2 md_version in
    let frame : List ℕ × ℕ = put frame 2 payload_bytes in
    let frame : List ℕ × ℕ = put frame 8 checksum in frame.0
