-- ===== src/MarketData/Feed.antt =====
-- A decoder that follows a feed.
use exchange_and_feed_handle.Base.{ℕ, ◌+◌, ◌%◌, ◌^◌, ◌≡◌, ◌≢◌, refl, List, [], ◌∷◌, arith, map, All}
use exchange_and_feed_handle.Types.{MdEvent}
use exchange_and_feed_handle.MarketData.{
  IsMdEvent, FeedDecoder, DecodeResult, decoded, fail, encode_md_event, decode,
}
use exchange_and_feed_handle.MarketData.RoundTrip.{decode-encode_event}

-- The frames of a feed one after another, and what each gave.
pub follow : FeedDecoder → List (List ℕ) → FeedDecoder × List DecodeResult
follow d [] = (d, [])
follow d (frame ∷ frames) =
    let (d', res) = decode d frame in let (d'', rest) = follow d' frames in (d'', res ∷ rest)

-- The events are numbered from `n` on, with wrap-around at 2 ^ 64.
abbrev pub NumberedFrom : ℕ → List MdEvent → Type 0
NumberedFrom n [] = Unit {0}
NumberedFrom n (ev ∷ evs) = (ev.seq ≡ n) × NumberedFrom ((n + 1) % 2 ^ 64) evs

pub decode_expected :
    (n : ℕ) (ev : MdEvent)
    → IsMdEvent ev
    → ev.seq ≡ n
    → decode (record { expected = n }) (encode_md_event ev)
      ≡ (record { expected = (n + 1) % 2 ^ 64 }, decoded ev)
unfolding decode
decode_expected n ev v e = rw ((decode-encode_event ev n v).1, decode) (ground arith)

decode_other :
    (n : ℕ) (ev : MdEvent)
    → IsMdEvent ev
    → ev.seq ≢ n
    → decode (record { expected = n }) (encode_md_event ev)
      ≡ (record { expected = n }, fail "feed gap" n ev.seq)
unfolding decode
decode_other n ev v e = rw ((decode-encode_event ev n v).1, decode) (ground arith)

-- A feed with no gap: the decoder gives every event in order.
pub follow-map :
    (n : ℕ) (evs : List MdEvent)
    → All IsMdEvent evs
    → NumberedFrom n evs
    → (follow (record { expected = n }) (map encode_md_event evs)).1 ≡ map decoded evs
unfolding follow
follow-map n [] v h = refl
follow-map n (ev ∷ evs) v h =
    rw (decode_expected n ev v.0 h.0) (ground (arith, follow-map ((n + 1) % 2 ^ 64) evs v.1 h.1))

-- A gap: as long as no event has the expected number, every one is refused, with the expected and its
-- own number, and the decoder goes on expecting the missing one.
pub follow_gap :
    (n : ℕ) (evs : List MdEvent)
    → All IsMdEvent evs
    → All (λ ev. ev.seq ≢ n) evs
    → follow (record { expected = n }) (map encode_md_event evs)
      ≡ (record { expected = n }, map (λ ev. fail "feed gap" n ev.seq) evs)
unfolding follow
follow_gap n [] v h = refl
follow_gap n (ev ∷ evs) v h =
    rw (decode_other n ev v.0 h.0) (ground (arith, follow_gap n evs v.1 h.1))
