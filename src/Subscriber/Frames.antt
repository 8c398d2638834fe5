-- ===== src/Subscriber/Frames.antt =====
-- `apply_frame` of src/subscriber.cpp, on the frames of a feed without a gap.
use Prim.Native.String.{String}
use exchange_and_feed_handle.Base.{
  ℕ, ◌+◌, ◌%◌, ◌^◌, ◌≡◌, refl, ap, inl, inr, Option, none, some, List, [], ◌∷◌, map, All,
  Option-cases,
}
use exchange_and_feed_handle.Types.{MdEvent}
use exchange_and_feed_handle.MarketData.{IsMdEvent, encode_md_event}
use exchange_and_feed_handle.MarketData.Feed.{NumberedFrom, decode_expected}
use exchange_and_feed_handle.BookManager.{BookManager}
use exchange_and_feed_handle.Subscriber.{SubscriberBook, apply_event, apply_frame}
use exchange_and_feed_handle.Subscriber.Follow.{apply_events}

-- The frames, up to the first that gives an error.
unfoldable pub apply_frames : SubscriberBook → List (List ℕ) → SubscriberBook × Option String
apply_frames sub [] = (sub, none)
apply_frames sub (frame ∷ frames) =
    let (sub', error) = apply_frame sub frame in
    let rest = apply_frames sub' frames in elim error [ none ↦ rest | some e ↦ (sub', some e) ]

abbrev at_number : BookManager → ℕ → SubscriberBook
at_number m k = record { books = m; decoder = record { expected = k } }

apply_frame-encode_md_event :
    (m : BookManager) (k : ℕ) (ev : MdEvent)
    → IsMdEvent ev
    → ev.seq ≡ k
    → ◌≡◌ {A = SubscriberBook × Option String}
        (apply_frame (at_number m k) (encode_md_event ev))
        (at_number (apply_event m ev).0 ((k + 1) % 2 ^ 64), (apply_event m ev).1)
unfolding apply_frame
apply_frame-encode_md_event m k ev v e = rw (apply_frame, decode_expected k ev v e) refl

apply_frames-done :
    (sub sub' : SubscriberBook) (frame : List ℕ) (frames : List (List ℕ))
    → ◌≡◌ {A = SubscriberBook × Option String} (apply_frame sub frame) (sub', none)
    → apply_frames sub (frame ∷ frames) ≡ apply_frames sub' frames
unfolding apply_frames
apply_frames-done sub sub' frame frames e =
    ap
      (λ (r : SubscriberBook × Option String). elim r.1 [
        | none ↦ apply_frames r.0 frames
        | some message ↦ (r.0, some message)
      ])
      e

apply_frames-failed :
    (sub sub' : SubscriberBook) (message : String) (frame : List ℕ) (frames : List (List ℕ))
    → ◌≡◌ {A = SubscriberBook × Option String} (apply_frame sub frame) (sub', some message)
    → ◌≡◌ {A = SubscriberBook × Option String}
        (apply_frames sub (frame ∷ frames))
        (sub', some message)
unfolding apply_frames
apply_frames-failed sub sub' message frame frames e =
    ap
      (λ (r : SubscriberBook × Option String). elim r.1 [
        | none ↦ apply_frames r.0 frames
        | some message ↦ (r.0, some message)
      ])
      e

-- On the frames of events that are numbered from the number that the decoder expects, the subscriber applies
-- the events.
pub apply_frames-map :
    (m : BookManager) (k : ℕ) (evs : List MdEvent)
    → All IsMdEvent evs
    → NumberedFrom k evs
    → ((apply_frames (at_number m k) (map encode_md_event evs)).1 ≡ (apply_events m evs).1)
      × ((apply_frames (at_number m k) (map encode_md_event evs)).0.books ≡ (apply_events m evs).0)
unfolding apply_events apply_frames
apply_frames-map m k [] v h = (refl, refl)
apply_frames-map m k (ev ∷ evs) (good, v) (number, h) =
    let one = apply_frame-encode_md_event m k ev good number in
    let rest = apply_frames-map (apply_event m ev).0 ((k + 1) % 2 ^ 64) evs v h in
    elim (Option-cases (apply_event m ev).1) [
      | inl p ↦
          let done =
            apply_frames-done (at_number m k) (at_number (apply_event m ev).0 ((k + 1) % 2 ^ 64))
              (encode_md_event ev) (map encode_md_event evs) (rw p at one) in
          rw (done, apply_events, p) rest
      | inr (message, p) ↦
          let failed =
            apply_frames-failed (at_number m k) (at_number (apply_event m ev).0 ((k + 1) % 2 ^ 64))
              message (encode_md_event ev) (map encode_md_event evs) (rw p at one) in
          rw (failed, apply_events, p) (refl, refl)
    ]
