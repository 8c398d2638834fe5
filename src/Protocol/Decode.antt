-- ===== src/Protocol/Decode.antt =====
-- What the decoder accepts, and how it treats a damaged frame.
use exchange_and_feed_handle.Base.{
  ℕ, ◌%◌, ◌^◌, ◌<◌, ◌≡◌, ◌≢◌, refl, ap, inl, inr, some, List, ◌∷◌, ◌++◌, arith, length, append-nil,
  Option-cases,
}
use mathlib.Core.Path.{subst}
use exchange_and_feed_handle.Base.Int.{to_u64-of_u64, of_u64-IsI64}
use exchange_and_feed_handle.Types.{ClientCommand, RejectReason}
use exchange_and_feed_handle.Types.Codes.{
  command_type_byte-of, command_type_of-IsCommandType, side_byte-of, side_of-IsSide,
  time_in_force_byte-of, time_in_force_of-IsTimeInForce,
}
use exchange_and_feed_handle.Codec.{AreBytes, le_bytes}
use exchange_and_feed_handle.Codec.Laws.{pod-elim, at_end-bind, pure-eq-some}
use exchange_and_feed_handle.Checksum.{fnv1a64}
use exchange_and_feed_handle.Frame.{Opened, payload, fault, open_frame, seal}
use exchange_and_feed_handle.Frame.Laws.{
  open_frame-eq_payload, open_frame_damaged, open_frame-AreBytes, header,
}
use exchange_and_feed_handle.Protocol.{
  IsClientCommand, DecodeResult, decoded, fail, command_payload, encode_client_command,
  validate_client_command, read_command, decode_payload, decode_client_command, message,
  protocol_magic, protocol_version,
}
use exchange_and_feed_handle.Protocol.RoundTrip.{length-command_payload}

-- The payload that was read is the one that the encoder writes.
read_command-eq :
    (body rest : List ℕ) (cmd : ClientCommand)
    → AreBytes body
    → read_command body ≡ some (cmd, rest)
    → (body ≡ command_payload cmd) × IsClientCommand cmd
unfolding read_command command_payload
read_command-eq body rest cmd a e = pod-elim 1 _ body a e λ v0 r0 e0 a0 h0 f0.
    pod-elim 8 _ r0 a0 f0 λ v1 r1 e1 a1 h1 f1. pod-elim 8 _ r1 a1 f1 λ v2 r2 e2 a2 h2 f2.
      pod-elim 8 _ r2 a2 f2 λ v3 r3 e3 a3 h3 f3. pod-elim 4 _ r3 a3 f3 λ v4 r4 e4 a4 h4 f4.
        pod-elim 4 _ r4 a4 f4 λ v5 r5 e5 a5 h5 f5. pod-elim 1 _ r5 a5 f5 λ v6 r6 e6 a6 h6 f6.
          pod-elim 8 _ r6 a6 f6 λ v7 r7 e7 a7 h7 f7. pod-elim 4 _ r7 a7 f7 λ v8 r8 e8 a8 h8 f8.
            pod-elim 1 _ r8 a8 f8 λ v9 r9 e9 a9 h9 f9.
              pod-elim 8 _ r9 a9 f9 λ v10 r10 e10 a10 h10 f10.
                let (end, done) = at_end-bind _ r10 f10 in
                subst (λ c. (body ≡ command_payload c) × IsClientCommand c) (pure-eq-some done)
                  (
                    cc (
                      append-nil (le_bytes 8 v10),
                      command_type_byte-of v0,
                      side_byte-of v6,
                      to_u64-of_u64 v7 h7,
                      time_in_force_byte-of v9,
                    ),
                    record {
                      type_range = command_type_of-IsCommandType v0 h0;
                      client_order_id_range = h1;
                      order_id_range = h2;
                      cancel_order_id_range = h3;
                      account_id_range = h4;
                      symbol_id_range = h5;
                      side_range = side_of-IsSide v6 h6;
                      price_range = of_u64-IsI64 v7 h7;
                      qty_range = h8;
                      tif_range = time_in_force_of-IsTimeInForce v9 h9;
                      client_ts_ns_range = h10;
                    },
                  )

decode_payload-eq :
    (body : List ℕ) (cmd : ClientCommand)
    → decode_payload body ≡ decoded cmd
    → (rest : List ℕ) × (read_command body ≡ some (cmd, rest))
      × (validate_client_command cmd ≡ RejectReason.none)
unfolding decode_payload
decode_payload-eq body cmd e = elim (Option-cases (read_command body)) [
  | inl p ↦ cc (rw (p, decode_payload) at e)
  | inr ((c, rest), p) ↦ (rest, ground arith, ground arith)
]

-- For a frame of bytes that decodes to `cmd`: it is the frame that the encoder writes for `cmd`, and
-- `cmd` has its fields in range and passed validation.
pub decode-eq_decoded :
    (frame : List ℕ) (cmd : ClientCommand)
    → AreBytes frame
    → decode_client_command frame ≡ decoded cmd
    → (frame ≡ encode_client_command cmd)
      × IsClientCommand cmd
      × (validate_client_command cmd ≡ RejectReason.none)
unfolding decode_client_command encode_client_command
decode-eq_decoded frame cmd a e = go (open_frame protocol_magic protocol_version frame) refl e
  where
    go :
        (o : Opened)
        → open_frame protocol_magic protocol_version frame ≡ o
        → ◌≡◌ {A = DecodeResult}
            (elim o [
              | fault f ↦ fail RejectReason.malformed (message f)
              | payload body ↦ decode_payload body
            ])
            (decoded cmd)
        → (frame ≡ seal protocol_magic protocol_version (command_payload cmd))
          × IsClientCommand cmd
          × (validate_client_command cmd ≡ RejectReason.none)
    go (fault f) p q = cc
    go (payload body) p q =
        let (rest, read, valid) = decode_payload-eq body cmd q in
        let bytes = open_frame-AreBytes protocol_magic protocol_version frame body a p in
        let (eb, v) = read_command-eq body rest cmd bytes read in
        let short : length body < 2 ^ 16 =
          omega (arith, ap length eb, length-command_payload cmd) in
        (cc (open_frame-eq_payload protocol_magic protocol_version frame body a short p), v, valid)

-- A frame whose payload was written as `xs ++ b ∷ ys` and arrives with another byte `c` in place of `b`
-- is refused as malformed, with the message "checksum mismatch".
pub decode_damaged :
    (cmd : ClientCommand) (b c : ℕ) (xs ys : List ℕ)
    → command_payload cmd ≡ xs ++ (b ∷ ys)
    → b < 256
    → c < 256
    → b ≢ c
    → AreBytes ys
    → decode_client_command
        (header protocol_magic protocol_version 55 (fnv1a64 (command_payload cmd)) (xs ++ (c ∷ ys)))
      ≡ fail RejectReason.malformed "checksum mismatch"
unfolding decode_client_command
decode_damaged cmd b c xs ys e hb hc ne hys =
    let n : length (xs ++ (b ∷ ys)) ≡ 55 = omega (arith, ap length e, length-command_payload cmd) in
    let n' : length (xs ++ (b ∷ ys)) % 2 ^ 16 ≡ 55 = omega arith in
    let refused =
      open_frame_damaged protocol_magic protocol_version b c xs ys (omega arith) (omega arith)
        (omega arith) hb hc ne hys in
    rw (e, rw n' at refused, decode_client_command)
