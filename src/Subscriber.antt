-- ===== src/Subscriber.antt =====
-- `SubscriberBook` of src/subscriber.cpp: the books that a subscriber builds from the feed.
pub mod Follow
pub mod Frames
pub mod Mirror
use Prim.Native.String.{String}
use exchange_and_feed_handle.Base.{
  ℕ, Bool, true, false, not, Option, none, some, List, if◌then◌else◌,
}
use exchange_and_feed_handle.Base.Run.{Run, ok, ◌>>=◌}
use exchange_and_feed_handle.Types.{MdEvent, MdType}
use exchange_and_feed_handle.MarketData.{FeedDecoder, DecodeResult, DecodeError, decode}
use exchange_and_feed_handle.OrderBook.State.{PriceLadderConfig}
use exchange_and_feed_handle.BookManager.{
  BookManager, open_manager, feed_add, feed_execute, cancel_order,
}

pub record SubscriberBook : Type 0 where
  pub books : BookManager
  pub decoder : FeedDecoder

unfoldable pub open_subscriber : ℕ → PriceLadderConfig → Run SubscriberBook
open_subscriber max_symbol ladder = do
  books ← open_manager max_symbol ladder
  ok (record { books = books; decoder = record { expected = 1 } })

-- The error of a call that answers false or nothing.
abbrev pub unless : Bool → String → Option String
unless done message = if not done then some message else none

abbrev pub is_some : Option MdEvent → Bool
is_some none = false
is_some (some _) = true

-- `apply_event` on the books. The command that the code fills in is not used.
unfoldable pub apply_event : BookManager → MdEvent → BookManager × Option String
apply_event m ev = elim ev.type [
  | MdType.add ↦ let (m', done) = feed_add m ev in (m', unless done "md add failed")
  | MdType.cancel ↦
      let (m', got) = cancel_order m ev.seq ev.order_id in
      (m', unless (is_some got) "md cancel unknown order")
  | MdType.execute ↦ let (m', done) = feed_execute m ev in (m', unless done "md execute failed")
  | MdType.replace ↦ (m, none)
  | MdType.reject ↦ (m, none)
  | MdType.other n ↦ (m, some "unknown md type")
]

-- The message of a result without an event.
abbrev pub message_of : Option DecodeError → Option String
message_of none = some "unknown decode error"
message_of (some e) = some e.message

-- The part of `apply_frame` behind the decoder.
abbrev pub apply_decoded : BookManager → FeedDecoder × DecodeResult → SubscriberBook × Option String
apply_decoded m (d, res) = elim res.event [
  | none ↦ (record { books = m; decoder = d }, message_of res.error)
  | some ev ↦ let (m', error) = apply_event m ev in (record { books = m'; decoder = d }, error)
]

unfoldable pub apply_frame : SubscriberBook → List ℕ → SubscriberBook × Option String
apply_frame s frame = apply_decoded s.books (decode s.decoder frame)
