-- ===== src/Frame/Laws.antt =====
-- `open_frame` undoes `seal`, opens nothing else, and detects a changed byte of the payload.
use exchange_and_feed_handle.Base.{
  ℕ, ◌%◌, ◌^◌, ◌<◌, ◌≡◌, ◌≢◌, refl, ◌∙◌, inl, inr, false, none, some, List, [], ◌∷◌, ◌++◌, arith,
  ◌==◌, length, Option-cases, not, ==_refl, if◌then◌else◌, append-nil, length-append, Option,
}
use mathlib.Core.Path.{subst}
use exchange_and_feed_handle.Codec.{AreBytes, le_bytes, bytes}
use exchange_and_feed_handle.Codec.Laws.{read-pod, bytes-append, pod-bind, pod-elim, bytes-eq-some}
use exchange_and_feed_handle.Checksum.{fnv1a64}
use exchange_and_feed_handle.Checksum.Laws.{fnv1a64-lt, fnv1a64-cancel_byte}
use exchange_and_feed_handle.Frame.{
  Header, Opened, payload, fault, bad_length, checksum_mismatch, read_header, open_payload,
  open_frame, seal,
}

-- The header that `seal` writes for a body of the length and checksum given.
abbrev pub header : ℕ → ℕ → ℕ → ℕ → List ℕ → List ℕ
header magic version len checksum rest =
    le_bytes 4 magic ++ (le_bytes 2 version ++ (le_bytes 2 len ++ (le_bytes 8 checksum ++ rest)))

read_header-header :
    (magic version len checksum : ℕ) (rest : List ℕ)
    → magic < 2 ^ 32
    → version < 2 ^ 16
    → len < 2 ^ 16
    → checksum < 2 ^ 64
    → read_header (header magic version len checksum rest)
      ≡ some (record { magic = magic; version = version; len = len; checksum = checksum }, rest)
unfolding read_header
read_header-header magic version len checksum rest hm hv hl hc =
    read-pod 4 magic _ _ hm
    ∙ read-pod 2 version _ _ hv
    ∙ read-pod 2 len _ _ hl
    ∙ read-pod 8 checksum _ rest hc

-- A frame with the right length, and any checksum.
open_frame-header :
    (magic version checksum : ℕ) (body : List ℕ)
    → magic < 2 ^ 32
    → version < 2 ^ 16
    → length body < 2 ^ 16
    → checksum < 2 ^ 64
    → open_frame magic version (header magic version (length body % 2 ^ 16) checksum body)
      ≡ (if fnv1a64 body == checksum then payload body else fault checksum_mismatch)
unfolding open_frame open_payload
open_frame-header magic version checksum body hm hv hl hc =
    let len : length body % 2 ^ 16 ≡ length body = omega arith in
    let whole : bytes (length body) body ≡ some (body, []) =
      rw append-nil at (bytes-append body []) in
    rw (
      read_header-header magic version (length body % 2 ^ 16) checksum body hm hv (omega arith) hc,
      ==_refl magic,
      ==_refl version,
      len,
      whole,
      open_frame,
      open_payload,
    )

pub open_frame-seal :
    (magic version : ℕ) (body : List ℕ)
    → magic < 2 ^ 32
    → version < 2 ^ 16
    → length body < 2 ^ 16
    → open_frame magic version (seal magic version body) ≡ payload body
unfolding seal
open_frame-seal magic version body hm hv hl = rw (
  open_frame-header magic version (fnv1a64 body) body hm hv hl (fnv1a64-lt body),
  ==_refl (fnv1a64 body),
)

-- The header of one body before another of the same length that differs in one byte.
pub open_frame_damaged :
    (magic version b c : ℕ) (xs ys : List ℕ)
    → magic < 2 ^ 32
    → version < 2 ^ 16
    → length (xs ++ (b ∷ ys)) < 2 ^ 16
    → b < 256
    → c < 256
    → b ≢ c
    → AreBytes ys
    → open_frame magic version (
        header magic version
          (length (xs ++ (b ∷ ys)) % 2 ^ 16)
          (fnv1a64 (xs ++ (b ∷ ys)))
          (xs ++ (c ∷ ys)))
      ≡ fault checksum_mismatch
open_frame_damaged magic version b c xs ys hm hv hl hb hc ne hys =
    let same : length (xs ++ (b ∷ ys)) ≡ length (xs ++ (c ∷ ys)) =
      omega (arith, length-append xs (b ∷ ys), length-append xs (c ∷ ys)) in
    let differ : (fnv1a64 (xs ++ (c ∷ ys)) == fnv1a64 (xs ++ (b ∷ ys))) ≡ false = ground (
      arith,
      λ (e : fnv1a64 (xs ++ (b ∷ ys)) ≡ fnv1a64 (xs ++ (c ∷ ys))).
          ne (fnv1a64-cancel_byte b c xs ys hb hc hys e),
    ) in
    rw same (
      rw (
        open_frame-header magic version (fnv1a64 (xs ++ (b ∷ ys))) (xs ++ (c ∷ ys)) hm hv
            (omega arith) (fnv1a64-lt (xs ++ (b ∷ ys))),
        differ,
      ))

open_payload-eq :
    (h : Header) (rest body : List ℕ)
    → open_payload h rest ≡ payload body
    → (rest ≡ body) × (length body ≡ h.len) × (fnv1a64 body ≡ h.checksum)
unfolding open_payload
open_payload-eq h rest body e = go (bytes h.len rest) refl e
  where
    go :
        (o : Option (List ℕ × List ℕ))
        → bytes h.len rest ≡ o
        → ◌≡◌ {A = Opened}
            (elim o [
              | none ↦ fault bad_length
              | some (inner, left) ↦
                  if not (length left == 0)
                  then fault bad_length
                  else if fnv1a64 inner == h.checksum
                  then payload inner
                  else fault checksum_mismatch
            ])
            (payload body)
        → (rest ≡ body) × (length body ≡ h.len) × (fnv1a64 body ≡ h.checksum)
    go none p q = cc
    go (some (inner, [])) p q =
        let (split, n) = bytes-eq-some h.len rest inner [] p in
        ground (arith, split, n, append-nil inner)
    go (some (inner, x ∷ left)) p q = ground arith

open_frame-eq_header :
    (magic version : ℕ) (frame body : List ℕ)
    → open_frame magic version frame ≡ payload body
    → (h : Header) × (rest : List ℕ) × (read_header frame ≡ some (h, rest))
      × (h.magic ≡ magic)
      × (h.version ≡ version)
      × (open_payload h rest ≡ payload body)
unfolding open_frame
open_frame-eq_header magic version frame body e = elim (Option-cases (read_header frame)) [
  | inl p ↦ cc (rw (p, open_frame) at e)
  | inr ((h, rest), p) ↦ (h, rest, p, ground arith, ground arith, ground arith)
]

read_header-eq :
    (frame rest : List ℕ) (h : Header)
    → AreBytes frame
    → read_header frame ≡ some (h, rest)
    → frame ≡ header h.magic h.version h.len h.checksum rest
unfolding read_header
read_header-eq frame rest h a e =
    let (m, r1, e1, a1, _, f1) = pod-bind 4 _ frame a e in
    let (v, r2, e2, a2, _, f2) = pod-bind 2 _ r1 a1 f1 in
    let (n, r3, e3, a3, _, f3) = pod-bind 2 _ r2 a2 f2 in
    let (c, r4, e4, a4, _, f4) = pod-bind 8 _ r3 a3 f3 in ground arith

read_header-AreBytes :
    (frame rest : List ℕ) (h : Header)
    → AreBytes frame
    → read_header frame ≡ some (h, rest)
    → AreBytes rest
unfolding read_header
read_header-AreBytes frame rest h a e = pod-elim 4 _ frame a e λ m r1 e1 a1 h1 f1.
    pod-elim 2 _ r1 a1 f1 λ v r2 e2 a2 h2 f2.
      pod-elim 2 _ r2 a2 f2
        λ n r3 e3 a3 h3 f3. pod-elim 8 _ r3 a3 f3 λ c r4 e4 a4 h4 f4. subst AreBytes (rest-eq f4) a4
  where
    rest-eq :
        {A : Type 0} {x y : A} {r s : List ℕ}
        → ◌≡◌ {A = Option (A × List ℕ)} (some (x, r)) (some (y, s))
        → r ≡ s
    rest-eq q = cc

-- Only what `seal` writes is opened.
pub open_frame-eq_payload :
    (magic version : ℕ) (frame body : List ℕ)
    → AreBytes frame
    → length body < 2 ^ 16
    → open_frame magic version frame ≡ payload body
    → frame ≡ seal magic version body
unfolding seal
open_frame-eq_payload magic version frame body a fits e =
    let (h, rest, p, em, ev, opened) = open_frame-eq_header magic version frame body e in
    let (er, en, ec) = open_payload-eq h rest body opened in
    let split = read_header-eq frame rest h a p in
    let len : length body % 2 ^ 16 ≡ h.len = omega arith in cc

-- What a frame of bytes holds is bytes.
pub open_frame-AreBytes :
    (magic version : ℕ) (frame body : List ℕ)
    → AreBytes frame
    → open_frame magic version frame ≡ payload body
    → AreBytes body
open_frame-AreBytes magic version frame body a e =
    let (h, rest, p, em, ev, opened) = open_frame-eq_header magic version frame body e in
    let (er, en, ec) = open_payload-eq h rest body opened in
    subst AreBytes er (read_header-AreBytes frame rest h a p)
