-- ===== src/Journal.antt =====
-- src/journal.cpp: the command journal. A file is the list of its bytes; `JournalWriter` appends to it, and
-- `JournalReader` keeps what it has not read. The streams do not fail but for the end of the file.
pub mod Progress
pub mod RoundTrip
pub mod Torn
use Prim.Native.String.{String}
use exchange_and_feed_handle.Base.{
  ℕ, zero, suc, ◌+◌, ◌%◌, ◌^◌, ◌<◌, not, ◌||◌, Option, none, some, List, [], ◌∷◌, ◌++◌, ◌==◌, ltb,
  if◌then◌else◌, length,
}
use exchange_and_feed_handle.Base.Int.{to_u64, of_u64}
use exchange_and_feed_handle.Types.{SequencedCommand}
use exchange_and_feed_handle.Types.Codes.{
  command_type_byte, command_type_of, side_byte, side_of, time_in_force_byte, time_in_force_of,
}
use exchange_and_feed_handle.Codec.{le_bytes, pod, bytes, at_end, pure, Reads, ◌>>=◌, ◌>>◌}
use exchange_and_feed_handle.Checksum.{fnv1a64}
use exchange_and_feed_handle.Protocol.{IsClientCommand, protocol_version}

abbrev pub journal_magic : ℕ
journal_magic = 0x4a4e_4c31

abbrev pub record_magic : ℕ
record_magic = 0x5245_4331

-- A sequenced command whose fields fit their types.
pub record IsSequencedCommand (sc : SequencedCommand) : Type 0 where
  pub seq_range : sc.seq < 2 ^ 64
  pub recv_ts_ns_range : sc.recv_ts_ns < 2 ^ 64
  pub cmd_range : IsClientCommand sc.cmd

unfoldable pub encode_sequenced_command_payload : SequencedCommand → List ℕ
encode_sequenced_command_payload sc =
    le_bytes 8 sc.seq
    ++ (le_bytes 8 sc.recv_ts_ns
        ++ (le_bytes 1 (command_type_byte sc.cmd.type)
            ++ (le_bytes 8 sc.cmd.client_order_id
                ++ (le_bytes 8 sc.cmd.order_id
                    ++ (le_bytes 8 sc.cmd.cancel_order_id
                        ++ (le_bytes 4 sc.cmd.account_id
                            ++ (le_bytes 4 sc.cmd.symbol_id
                                ++ (le_bytes 1 (side_byte sc.cmd.side)
                                    ++ (le_bytes 8 (to_u64 sc.cmd.price)
                                        ++ (le_bytes 4 sc.cmd.qty
                                            ++ (le_bytes 1 (time_in_force_byte sc.cmd.tif)
                                                ++ le_bytes 8 sc.cmd.client_ts_ns)))))))))))

-- The reads of the payload. The code tests them together, with `remaining()`.
unfoldable pub read_sequenced_command : Reads SequencedCommand
read_sequenced_command = do
  seq ← pod 8
  recv_ts_ns ← pod 8
  type ← pod 1
  client_order_id ← pod 8
  order_id ← pod 8
  cancel_order_id ← pod 8
  account_id ← pod 4
  symbol_id ← pod 4
  side ← pod 1
  price ← pod 8
  qty ← pod 4
  tif ← pod 1
  client_ts_ns ← pod 8
  at_end
  pure (record {
    seq = seq;
    recv_ts_ns = recv_ts_ns;
    cmd = record {
      type = command_type_of type;
      client_order_id = client_order_id;
      order_id = order_id;
      cancel_order_id = cancel_order_id;
      account_id = account_id;
      symbol_id = symbol_id;
      side = side_of side;
      price = of_u64 price;
      qty = qty;
      tif = time_in_force_of tif;
      client_ts_ns = client_ts_ns;
    };
  })

unfoldable pub decode_sequenced_command_payload : List ℕ → Option SequencedCommand
decode_sequenced_command_payload body = elim (read_sequenced_command body) [
  | none ↦ none
  | some (sc, _) ↦ some sc
]

-- What the constructor of `JournalWriter` writes to the new file.
unfoldable pub file_header : List ℕ
file_header = le_bytes 4 journal_magic ++ le_bytes 2 protocol_version

-- The record around a payload.
unfoldable pub encode_record : List ℕ → List ℕ
encode_record body =
    le_bytes 4 record_magic
    ++ (le_bytes 4 (length body % 2 ^ 32) ++ (le_bytes 8 (fnv1a64 body) ++ body))

unfoldable pub append : List ℕ → SequencedCommand → List ℕ
append file sc = file ++ encode_record (encode_sequenced_command_payload sc)

-- `in_` from its position on, and `error_`.
pub record JournalReader : Type 0 where
  pub rest : List ℕ
  pub error : Option String

-- The two reads of the file's header, and the two behind a record's magic. The code tests each pair
-- together.
unfoldable pub read_file_header : Reads (ℕ × ℕ)
read_file_header = do magic ← pod 4; version ← pod 2; pure (magic, version)

unfoldable pub read_record_header : Reads (ℕ × ℕ)
read_record_header = do len ← pod 4; checksum ← pod 8; pure (len, checksum)

-- The constructor, on the file's bytes.
unfoldable pub open_reader : List ℕ → JournalReader
open_reader file = elim (read_file_header file) [
  | none ↦ record { rest = []; error = some "failed to read journal header" }
  | some ((magic, version), rest) ↦
      if not (magic == journal_magic) || not (version == protocol_version)
      then record { rest = rest; error = some "bad journal header" }
      else record { rest = rest; error = none }
]

abbrev pub stop : String → JournalReader × Option SequencedCommand
stop message = (record { rest = []; error = some message }, none)

-- The last step of `next`, on a payload that was read.
unfoldable pub accept : List ℕ → ℕ → List ℕ → JournalReader × Option SequencedCommand
accept body checksum rest =
    if not (fnv1a64 body == checksum)
    then stop "record checksum mismatch"
    else elim (decode_sequenced_command_payload body) [
      | none ↦ stop "bad sequenced command payload"
      | some sc ↦ (record { rest = rest; error = none }, some sc)
    ]

-- The part of `next` behind the record's magic.
unfoldable pub next_record : ℕ → List ℕ → JournalReader × Option SequencedCommand
next_record magic rest = elim (read_record_header rest) [
  | none ↦ stop "short journal record"
  | some ((len, checksum), rest) ↦
      if not (magic == record_magic) then stop "bad record magic" else elim (bytes len rest) [
        | none ↦ stop "short record payload"
        | some (body, rest) ↦ accept body checksum rest
      ]
]

-- A read of the magic that fails has reached the end of the file, which is no error. After an error
-- the position does not matter: `next` reads no more.
unfoldable pub next : JournalReader → JournalReader × Option SequencedCommand
next r = elim r.error [
  | some _ ↦ (r, none)
  | none ↦ elim (pod 4 r.rest) [
    | none ↦ (record r { rest = [] }, none)
    | some (magic, rest) ↦ next_record magic rest
  ]
]

-- The loop `while (auto sc = rd.next())` for at most so many rounds: the commands it sees, and the
-- reader behind them. `none` if the rounds ran out.
unfoldable pub read_all : ℕ → JournalReader → Option (List SequencedCommand × JournalReader)
read_all zero r = none
read_all (suc fuel) r =
    let (r', got) = next r in
    elim got [
      | none ↦ some ([], r')
      | some sc ↦ elim (read_all fuel r') [ none ↦ none | some (scs, r'') ↦ some (sc ∷ scs, r'') ]
    ]
