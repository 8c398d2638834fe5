-- ===== src/Frame.antt =====
-- The frame that order entry (src/order_entry.cpp) and market data (src/market_data.cpp) share: magic,
-- version, payload length and checksum, then the payload. Each decoder makes the same five tests in the
-- same order, and has its own message for each.
pub mod Laws
use exchange_and_feed_handle.Base.{
  ℕ, ◌%◌, ◌^◌, Option, none, some, List, [], ◌∷◌, ◌++◌, ◌==◌, if◌then◌else◌, length, not,
}
use exchange_and_feed_handle.Codec.{le_bytes, pod, bytes, Reads, ◌>>=◌, pure}
use exchange_and_feed_handle.Checksum.{fnv1a64}

pub record Header : Type 0 where
  pub magic : ℕ
  pub version : ℕ
  pub len : ℕ
  pub checksum : ℕ

pub data Fault : Type 0 where
  short_header bad_magic bad_version bad_length checksum_mismatch : Fault

pub data Opened : Type 0 where
  payload : List ℕ → Opened
  fault : Fault → Opened

-- The four reads of the header. The code tests them together, and a read has no other effect.
unfoldable pub read_header : Reads Header
read_header = do
  magic ← pod 4
  version ← pod 2
  len ← pod 2
  checksum ← pod 8
  pure (record { magic = magic; version = version; len = len; checksum = checksum })

unfoldable pub open_payload : Header → List ℕ → Opened
open_payload h rest = elim (bytes h.len rest) [
  | none ↦ fault bad_length
  | some (body, left) ↦
      if not (length left == 0)
      then fault bad_length
      else if fnv1a64 body == h.checksum
      then payload body
      else fault checksum_mismatch
]

unfoldable pub open_frame : ℕ → ℕ → List ℕ → Opened
open_frame magic version frame = elim (read_header frame) [
  | none ↦ fault short_header
  | some (h, rest) ↦
      if not (h.magic == magic)
      then fault bad_magic
      else if not (h.version == version)
      then fault bad_version
      else open_payload h rest
]

-- The second half of each encoder: the header, the payload's checksum in it, and the payload.
unfoldable pub seal : ℕ → ℕ → List ℕ → List ℕ
seal magic version body =
    le_bytes 4 magic
    ++ (le_bytes 2 version
        ++ (le_bytes 2 (length body % 2 ^ 16) ++ (le_bytes 8 (fnv1a64 body) ++ body)))
