-- ===== src/Journal/Progress.antt =====
-- The loop over a reader ends on every file.
use exchange_and_feed_handle.Base.{
  ℕ, zero, suc, ◌+◌, ◌≤◌, ◌<◌, ◌≡◌, refl, sym, ap, ◌∙◌, inl, inr, Option, none, some, List, [], ◌∷◌,
  arith, ◌==◌, ltb, length, drop, Bool-cases, Option-cases,
}
use exchange_and_feed_handle.Types.{SequencedCommand}
use exchange_and_feed_handle.Codec.{Reads, ◌>>=◌, pod, bytes}
use exchange_and_feed_handle.Checksum.{fnv1a64}
use exchange_and_feed_handle.Journal.{
  JournalReader, decode_sequenced_command_payload, read_record_header, accept, next_record, next,
  read_all, record_magic,
}

length-drop : (n : ℕ) (r : List ℕ) → n ≤ length r → length (drop n r) + n ≡ length r
length-drop zero r h = omega arith
length-drop (suc n) [] h = omega arith
length-drop (suc n) (b ∷ r) h = omega (arith, length-drop n r (omega arith))

length-pod :
    (k : ℕ) (r rest : List ℕ) (v : ℕ) → pod k r ≡ some (v, rest) → length rest + k ≡ length r
unfolding pod
length-pod k r rest v e = elim (Bool-cases (ltb (length r) k)) [
  | inl short ↦ cc (rw (short, pod) at e)
  | inr fits ↦
      let same : drop k r ≡ rest = cc (rw (fits, pod) at e) in
      ap (λ l. length l + k) (sym same) ∙ length-drop k r (ground arith)
]

length-bytes :
    (n : ℕ) (r rest body : List ℕ) → bytes n r ≡ some (body, rest) → length rest + n ≡ length r
unfolding bytes
length-bytes n r rest body e = elim (Bool-cases (ltb (length r) n)) [
  | inl short ↦ cc (rw (short, bytes) at e)
  | inr fits ↦
      let same : drop n r ≡ rest = cc (rw (fits, bytes) at e) in
      ap (λ l. length l + n) (sym same) ∙ length-drop n r (ground arith)
]

-- A `pod` with what follows it takes its bytes.
length-pod_then :
    {B : Type 0} (k : ℕ) (f : ℕ → Reads B) (r : List ℕ) {b : B × List ℕ}
    → (pod k >>= f) r ≡ some b
    → (v : ℕ) × (rest : List ℕ) × (length rest + k ≡ length r) × (f v rest ≡ some b)
length-pod_then {B} k f r {b} e = go (pod k r) refl e
  where
    go :
        (o : Option (ℕ × List ℕ))
        → pod k r ≡ o
        → ◌≡◌ {A = Option _} (elim o [ none ↦ none | some (a, r') ↦ f a r' ]) (some b)
        → (v : ℕ) × (rest : List ℕ) × (length rest + k ≡ length r) × (f v rest ≡ some b)
    go none p q = cc
    go (some (v, rest)) p q = (v, rest, length-pod k r rest v p, q)

length-read_record_header :
    (r rest : List ℕ) (x : ℕ × ℕ) → read_record_header r ≡ some (x, rest) → length rest ≤ length r
unfolding read_record_header
length-read_record_header r rest x e =
    let (len, r1, first, e1) = length-pod_then 4 _ r e in
    let (checksum, r2, second, e2) = length-pod_then 8 _ r1 e1 in
    let same : r2 ≡ rest = cc in omega (arith, first, second, ap (λ l. length l) same)

accept-rest :
    (body rest : List ℕ) (checksum : ℕ) (sc : SequencedCommand)
    → (accept body checksum rest).1 ≡ some sc
    → (accept body checksum rest).0.rest ≡ rest
unfolding accept
accept-rest body rest checksum sc e = elim (Bool-cases (fnv1a64 body == checksum)) [
  | inr bad ↦ cc
  | inl good ↦ elim (Option-cases (decode_sequenced_command_payload body)) [
    | inl p ↦ cc (rw (good, p, accept) at e)
    | inr (found, p) ↦ rw (good, p, accept) refl
  ]
]

length-next_record :
    (magic : ℕ) (r : List ℕ) (sc : SequencedCommand)
    → (next_record magic r).1 ≡ some sc
    → length (next_record magic r).0.rest ≤ length r
unfolding next_record
length-next_record magic r sc e = elim (Option-cases (read_record_header r)) [
  | inl p ↦ cc (rw (p, next_record) at e)
  | inr (((len, checksum), r1), p) ↦ elim (Bool-cases (magic == record_magic)) [
    | inr bad ↦ cc (rw (p, bad, next_record) at e)
    | inl good ↦ elim (Option-cases (bytes len r1)) [
      | inl q ↦ cc (rw (p, good, q, next_record) at e)
      | inr ((body, r2), q) ↦
          let taken = rw (p, good, q, next_record) at e in
          rw (p, good, q, next_record, accept-rest body r2 checksum sc taken)
            (omega (
              arith,
              length-read_record_header r r1 (len, checksum) p,
              length-bytes len r1 r2 body q,
            ))
    ]
  ]
]

-- A record that is read takes bytes off the file.
length-next :
    (r : JournalReader) (sc : SequencedCommand)
    → (next r).1 ≡ some sc
    → length (next r).0.rest < length r.rest
unfolding next
length-next r sc e = elim (Option-cases r.error) [
  | inr (message, p) ↦ cc (rw (p, next) at e)
  | inl p ↦ elim (Option-cases (pod 4 r.rest)) [
    | inl q ↦ cc (rw (p, q, next) at e)
    | inr ((magic, r1), q) ↦
        rw (p, q, next)
          (omega (
            arith,
            length-pod 4 r.rest r1 magic q,
            length-next_record magic r1 sc (rw (p, q, next) at e),
          ))
  ]
]

-- The loop over a reader ends, whatever bytes it has not read yet, in at most one round more than there
-- are of them.
pub read_all-returns :
    (fuel : ℕ) (r : JournalReader)
    → length r.rest < fuel
    → (scs : List SequencedCommand) × (r' : JournalReader) × (read_all fuel r ≡ some (scs, r'))
unfolding read_all
read_all-returns zero r h = absurd (omega arith)
read_all-returns (suc fuel) r h = elim (Option-cases (next r).1) [
  | inl p ↦ ([], (next r).0, rw (p, read_all) refl)
  | inr (sc, p) ↦
      let (scs, r', e) = read_all-returns fuel (next r).0 (omega (arith, length-next r sc p)) in
      (sc ∷ scs, r', rw (p, e, read_all) refl)
]
