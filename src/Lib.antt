-- ===== src/Lib.antt =====
-- A model of the exchange simulator, with the theorems that make its parts correct. The program is a limit
-- order book with price-time priority, fed by a binary order entry protocol, published by a binary market
-- data feed, and replayed from a journal of sequenced commands.
--
-- The parts, and the files that model them:
-- - Types: the enumerations and structs of include/exsim/types.hpp; Types/Codes has their byte codes,
--   Types/Names their names.
-- - Codec: `Writer::pod` and `Reader` of include/exsim/util/codec.hpp, over lists of bytes, as a state
--   passed from read to read that stops at the first short read.
-- - Checksum: `fnv1a64`, `mix64` and `hash_combine` of include/exsim/util/checksum.hpp.
-- - Frame: the header, length and checksum that src/order_entry.cpp and src/market_data.cpp share.
--   `seal` writes a frame, `open_frame` tests and opens one.
-- - Protocol: src/order_entry.cpp. `encode_client_command`, `encode_client_command_frame` (a fixed array
--   written at running positions), `decode_client_command` and `validate_client_command`.
-- - MarketData: src/market_data.cpp. `encode_md_event`, `encode_md_event_frame`, `decode_md_event`, and
--   `FeedDecoder` as a record with its step `decode`.
-- - Journal: src/journal.cpp. A file is the list of its bytes; `append` writes a record, `JournalReader`
--   has what is not read yet and the error, `next` is one call, and `read_all` is the loop
--   `while (auto sc = rd.next())` around it.
-- - OrderBook: `OrderBook` of src/order_book.cpp and include/exsim/core/order_book.hpp. OrderBook/State
--   has the state as records (node pool, free list, id index, and for each side its levels, bitmap, level
--   count and best index), OrderBook/Bitmap the bitmaps, OrderBook/Nodes the private operations on nodes
--   and levels, and OrderBook the public ones. Each operation takes the book and returns the new book with
--   its result; `Run` has the exceptions of the constructor. OrderBook/Digest is `checksum`.
--   OrderBook/Queues is the abstract view of a book, the nodes of each price level in the order of their
--   arrival, and OrderBook/Invariant says what it is that the parts of a book describe such queues
--   (`IsBook`), and follows each operation: the record `IsSound` adds the price band, and `IsSettled` that
--   no bid is at the level of an ask or above. OrderBook/Totals is a book without the totals of its levels,
--   and OrderBook/Feeds says when events lead from one book to another (`Feeds`), for each command.
-- - BookManager: `BookManager` of src/order_book.cpp, the books by symbol and the map from order to symbol.
--   BookManager/Invariant has its invariant, that every book is settled, and BookManager/Digest `checksum`.
--   BookManager/Agreement says that the map agrees with the books (`IsAgreed`), and follows each command;
--   BookManager/Agreement/Lost is the replace at a price out of the band.
-- - Risk: src/risk.cpp, `check` and `on_market_data` on the accounts. Risk/Digest is `checksum`, which goes
--   through a hash map in an order that is a parameter.
--   Risk/Window compares the queue of an account with all the messages that it has sent (`IsTracked`).
-- - Exchange: src/exchange.cpp. `apply_sequenced` is the sequence number and the journal (`next_after`,
--   `journal_after`), then `execute`: the risk checks, the books (`run_command`), and `publish`, which
--   numbers the events and accounts for them. `replay_loop` is the loop of `replay_journal`, which
--   stands in Exchange/Digest with `checksum`. Exchange/Mirror follows a subscriber beside the exchange:
--   `run_feed` has the events of a session, and `IsOrderly` says which sessions.
-- - Subscriber: src/subscriber.cpp, the books that a subscriber builds from the frames of the feed.
--   Subscriber/Follow and Subscriber/Frames take lists of events and of frames, up to the first error;
--   `Mirrors` in Subscriber/Mirror compares the books of a subscriber with those of the exchange, but for
--   the totals of the levels. A total has 32 bits; `execute_head` takes an execution off it with wrap-around,
--   and `remove_node`, through which a subscriber executes an order completely, stops at 0.
-- - Base: lists, numbers, bits, 64-bit integers, maps, and `Run`.
-- - Tests: runs at fixed inputs, and the theorems at inputs that meet their hypotheses.
--
-- The order book writes `Add`, `Cancel` and `Execute` events; the market data encoder makes frames of them,
-- and a decoder on the other side gives the events back. Commands come in as frames through the decoder of
-- Protocol; the journal has the same fields behind a sequence number and a time.
--
-- Numbers: a field of `w` bits is a number whose range stands in `IsClientCommand`, `IsMdEvent` or
-- `IsSequencedCommand`; arithmetic that wraps in the code has `% 2 ^ w`. A `Price` is an integer, written
-- to the wire in two's complement. Vector indices read without a bounds check give a default value.
--
-- Fuel: the matching loop of `add_order` runs for one round more than there are live orders, since each
-- round but the last removes one; the loops of `OrderBook::checksum` for one round more than there are
-- levels, and for the orders of a level one more than there are nodes. Their results say when rounds ran
-- out. `read_all` takes the number of rounds from its caller, and so do `replay_loop` and
-- `replay_journal`, which need one more than there are records.
--
-- Bounds: a pool of fewer than `kNull` nodes has room for one more. The code does not test this.
--
-- Not modelled: file streams and their failures, and `flush`; the state behind an exception; overflow of
-- signed prices; tools, bench and tests.
pub mod Base
pub mod Types
pub mod Codec
pub mod Checksum
pub mod Frame
pub mod Protocol
pub mod MarketData
pub mod Journal
pub mod OrderBook
pub mod BookManager
pub mod Risk
pub mod Exchange
pub mod Subscriber
pub mod Tests
