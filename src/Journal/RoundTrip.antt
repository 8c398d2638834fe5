-- ===== src/Journal/RoundTrip.antt =====
-- What was appended to a journal is read back, in order and without an error.
use exchange_and_feed_handle.Base.{
  ℕ, zero, suc, ◌^◌, ◌<◌, ◌≡◌, refl, sym, ◌∙◌, none, some, List, [], ◌∷◌, ◌++◌, arith, length,
  append_assoc, append-nil, All, ==_refl,
}
use mathlib.Core.List.{foldl}
use exchange_and_feed_handle.Base.Int.{to_u64, of_u64-to_u64, to_u64-lt}
use exchange_and_feed_handle.Types.{SequencedCommand}
use exchange_and_feed_handle.Types.Codes.{
  command_type_byte, command_type_of-byte, command_type_byte-lt, side_byte, side_of-byte,
  side_byte-lt, time_in_force_byte, time_in_force_of-byte, time_in_force_byte-lt,
}
use exchange_and_feed_handle.Codec.{le_bytes, at_end, pod, bytes}
use exchange_and_feed_handle.Codec.Laws.{read-pod, read-pod_last, pod-le_bytes, bytes-append}
use exchange_and_feed_handle.Checksum.{fnv1a64}
use exchange_and_feed_handle.Checksum.Laws.{fnv1a64-lt}
use exchange_and_feed_handle.Protocol.{protocol_version}
use exchange_and_feed_handle.Journal.{
  IsSequencedCommand, encode_sequenced_command_payload, read_sequenced_command,
  decode_sequenced_command_payload, file_header, journal_magic, record_magic, read_file_header,
  read_record_header, encode_record, append, JournalReader, open_reader, accept, next_record, next,
  read_all,
}

pub length-payload : (sc : SequencedCommand) → length (encode_sequenced_command_payload sc) ≡ 71
unfolding encode_sequenced_command_payload le_bytes
length-payload sc = refl

read-payload :
    (sc : SequencedCommand)
    → IsSequencedCommand sc
    → read_sequenced_command (encode_sequenced_command_payload sc) ≡ some (sc, [])
unfolding read_sequenced_command encode_sequenced_command_payload at_end
read-payload sc v =
    read-pod 8 sc.seq _ _ v.seq_range
    ∙ read-pod 8 sc.recv_ts_ns _ _ v.recv_ts_ns_range
    ∙ read-pod 1 (command_type_byte sc.cmd.type) _ _
        (command_type_byte-lt sc.cmd.type v.cmd_range.type_range)
    ∙ read-pod 8 sc.cmd.client_order_id _ _ v.cmd_range.client_order_id_range
    ∙ read-pod 8 sc.cmd.order_id _ _ v.cmd_range.order_id_range
    ∙ read-pod 8 sc.cmd.cancel_order_id _ _ v.cmd_range.cancel_order_id_range
    ∙ read-pod 4 sc.cmd.account_id _ _ v.cmd_range.account_id_range
    ∙ read-pod 4 sc.cmd.symbol_id _ _ v.cmd_range.symbol_id_range
    ∙ read-pod 1 (side_byte sc.cmd.side) _ _ (side_byte-lt sc.cmd.side v.cmd_range.side_range)
    ∙ read-pod 8 (to_u64 sc.cmd.price) _ _ (to_u64-lt sc.cmd.price)
    ∙ read-pod 4 sc.cmd.qty _ _ v.cmd_range.qty_range
    ∙ read-pod 1 (time_in_force_byte sc.cmd.tif) _ _
        (time_in_force_byte-lt sc.cmd.tif v.cmd_range.tif_range)
    ∙ read-pod_last 8 sc.cmd.client_ts_ns _ v.cmd_range.client_ts_ns_range
    ∙ rw (
      command_type_of-byte sc.cmd.type v.cmd_range.type_range,
      side_of-byte sc.cmd.side v.cmd_range.side_range,
      of_u64-to_u64 sc.cmd.price v.cmd_range.price_range,
      time_in_force_of-byte sc.cmd.tif v.cmd_range.tif_range,
    )

-- The decoder of a journal record's payload undoes its encoder, for every sequenced command with fields
-- in range; no field is checked.
pub decode_payload-encode :
    (sc : SequencedCommand)
    → IsSequencedCommand sc
    → decode_sequenced_command_payload (encode_sequenced_command_payload sc) ≡ some sc
unfolding decode_sequenced_command_payload
decode_payload-encode sc v = rw (read-payload sc v, decode_sequenced_command_payload)

abbrev pub encoded : SequencedCommand → List ℕ
encoded sc = encode_record (encode_sequenced_command_payload sc)

pub encoded-append :
    (sc : SequencedCommand) (rest : List ℕ)
    → (let body = encode_sequenced_command_payload sc in
        encoded sc ++ rest
        ≡ le_bytes 4 record_magic
          ++ (le_bytes 4 71 ++ (le_bytes 8 (fnv1a64 body) ++ (body ++ rest))))
unfolding encode_record
encoded-append sc rest = rw (length-payload sc) (simp append_assoc)

read_record_header-written :
    (checksum : ℕ) (rest : List ℕ)
    → checksum < 2 ^ 64
    → read_record_header (le_bytes 4 71 ++ (le_bytes 8 checksum ++ rest))
      ≡ some ((71, checksum), rest)
unfolding read_record_header
read_record_header-written checksum rest h =
    read-pod 4 71 _ _ (omega arith) ∙ read-pod 8 checksum _ rest h

bytes-payload :
    (sc : SequencedCommand) (rest : List ℕ)
    → (let body = encode_sequenced_command_payload sc in
        bytes 71 (body ++ rest) ≡ some (body, rest))
bytes-payload sc rest =
    rw (length-payload sc) at (bytes-append (encode_sequenced_command_payload sc) rest)

pub next-encoded :
    (sc : SequencedCommand) (rest : List ℕ)
    → IsSequencedCommand sc
    → next (record { rest = encoded sc ++ rest; error = none })
      ≡ (record { rest = rest; error = none }, some sc)
unfolding next next_record accept
next-encoded sc rest v =
    let body = encode_sequenced_command_payload sc in
    let magic =
      pod-le_bytes 4 record_magic (le_bytes 4 71 ++ (le_bytes 8 (fnv1a64 body) ++ (body ++ rest)))
        (omega arith) in
    let header = read_record_header-written (fnv1a64 body) (body ++ rest) (fnv1a64-lt body) in
    rw (
      encoded-append sc rest,
      magic,
      header,
      bytes-payload sc rest,
      ==_refl (fnv1a64 body),
      decode_payload-encode sc v,
      next,
      next_record,
      accept,
    )

abbrev pub records : List SequencedCommand → List ℕ
records [] = []
records (sc ∷ scs) = encoded sc ++ records scs

pub foldl-append :
    (file : List ℕ) (scs : List SequencedCommand) → foldl append file scs ≡ file ++ records scs
unfolding append
foldl-append file [] = sym (append-nil file)
foldl-append file (sc ∷ scs) =
    foldl-append (append file sc) scs ∙ append_assoc file (encoded sc) (records scs)

pub read_all_step :
    (fuel : ℕ) (r r' : JournalReader) {r'' : JournalReader} (sc : SequencedCommand)
    (scs : List SequencedCommand)
    → next r ≡ (r', some sc)
    → read_all fuel r' ≡ some (scs, r'')
    → read_all (suc fuel) r ≡ some (sc ∷ scs, r'')
unfolding read_all
read_all_step fuel r r' sc scs p q = ground arith

read_all-records :
    (fuel : ℕ) (scs : List SequencedCommand)
    → All IsSequencedCommand scs
    → length scs < fuel
    → read_all fuel (record { rest = records scs; error = none })
      ≡ some (scs, record { rest = []; error = none })
unfolding read_all
read_all-records zero scs v h = absurd (omega arith)
read_all-records (suc fuel) [] v h = unfold next pod in refl
read_all-records (suc fuel) (sc ∷ scs) v h =
    read_all_step fuel _ _ sc scs (next-encoded sc (records scs) v.0)
      (read_all-records fuel scs v.1 (omega arith))

read_file_header-written :
    (rest : List ℕ)
    → read_file_header (le_bytes 4 journal_magic ++ (le_bytes 2 protocol_version ++ rest))
      ≡ some ((journal_magic, protocol_version), rest)
unfolding read_file_header
read_file_header-written rest =
    read-pod 4 journal_magic _ (le_bytes 2 protocol_version ++ rest) (omega arith)
    ∙ read-pod 2 protocol_version _ rest (omega arith)

pub open_reader-written :
    (rest : List ℕ) → open_reader (file_header ++ rest) ≡ record { rest = rest; error = none }
unfolding open_reader file_header
open_reader-written rest = rw (
  append_assoc (le_bytes 4 journal_magic) (le_bytes 2 protocol_version) rest,
  read_file_header-written rest,
  open_reader,
)

-- A journal that was opened for writing and got the commands `scs` is read back: the reader gives `scs`
-- in order and ends without an error, in one round more than there are commands.
pub read_all-append :
    (scs : List SequencedCommand)
    → All IsSequencedCommand scs
    → read_all (suc (length scs)) (open_reader (foldl append file_header scs))
      ≡ some (scs, record { rest = []; error = none })
read_all-append scs v =
    rw (foldl-append file_header scs, open_reader-written (records scs))
      (read_all-records (suc (length scs)) scs v (omega arith))
