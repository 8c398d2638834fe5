-- ===== src/Journal/Torn.antt =====
-- A journal whose last record was written in part.
use exchange_and_feed_handle.Base.{
  ℕ, zero, suc, ◌+◌, ◌-◌, ◌≤◌, ◌<◌, ◌≡◌, refl, sym, ap, ◌∙◌, true, inl, inr, Option, none, some,
  List, [], ◌∷◌, ◌++◌, arith, ltb, if◌then◌else◌, length, take, append_assoc, append-nil, All,
  Bool-cases,
}
use Prim.Native.String.{String}
use mathlib.Core.List.{foldl}
use exchange_and_feed_handle.Types.{SequencedCommand}
use exchange_and_feed_handle.Codec.{Reads, ◌>>=◌, le_bytes, pod, bytes}
use exchange_and_feed_handle.Codec.Laws.{length-le_bytes, pod-le_bytes, read-pod}
use exchange_and_feed_handle.Checksum.{fnv1a64}
use exchange_and_feed_handle.Checksum.Laws.{fnv1a64-lt}
use exchange_and_feed_handle.Journal.{
  IsSequencedCommand, JournalReader, encode_sequenced_command_payload, encode_record, file_header,
  append, read_record_header, record_magic, next_record, next, open_reader, read_all,
}
use exchange_and_feed_handle.Journal.RoundTrip.{
  encoded, encoded-append, records, foldl-append, next-encoded, open_reader-written, read_all_step,
}

length-take_le : (k : ℕ) (xs : List ℕ) → length (take k xs) ≤ k
length-take_le zero xs = omega arith
length-take_le (suc k) [] = omega arith
length-take_le (suc k) (x ∷ xs) = omega (arith, length-take_le k xs)

take-append_more : (k : ℕ) (xs ys : List ℕ) → take (length xs + k) (xs ++ ys) ≡ xs ++ take k ys
take-append_more k [] ys = ap (λ n. take n ys) (omega arith)
take-append_more k (x ∷ xs) ys =
    let e : suc (length xs) + k ≡ suc (length xs + k) = omega arith in
    rw e (ap (λ r. x ∷ r) (take-append_more k xs ys))

-- The first `w + k` bytes of a value of `w` bytes and what follows it.
take-le_bytes :
    (w v n k : ℕ) (ys : List ℕ)
    → n ≡ w + k
    → take n (le_bytes w v ++ ys) ≡ le_bytes w v ++ take k ys
take-le_bytes w v n k ys e =
    let whole : n ≡ length (le_bytes w v) + k = omega (arith, e, length-le_bytes w v) in
    ap (λ m. take m (le_bytes w v ++ ys)) whole ∙ take-append_more k (le_bytes w v) ys

pod_short : (w : ℕ) (r : List ℕ) → length r < w → pod w r ≡ none
unfolding pod
pod_short w r h = let short : ltb (length r) w ≡ true = ground arith in rw (short, pod) refl

pod_then_short :
    {B : Type 0} (w : ℕ) (f : ℕ → Reads B) (r : List ℕ) → length r < w → (pod w >>= f) r ≡ none
pod_then_short w f r h = rw (pod_short w r h, ◌>>=◌) refl

bytes_short : (n : ℕ) (r : List ℕ) → length r < n → bytes n r ≡ none
unfolding bytes
bytes_short n r h = let short : ltb (length r) n ≡ true = ground arith in rw (short, bytes) refl

-- The error after the first `k` bytes of a record.
abbrev pub torn_error : ℕ → Option String
torn_error k =
    if ltb k 4
    then none
    else if ltb k 16
    then some "short journal record"
    else some "short record payload"

abbrev clean : List ℕ → JournalReader
clean rest = record { rest = rest; error = none }

module _ (sc : SequencedCommand) where
  abbrev body : List ℕ
  body = encode_sequenced_command_payload sc

  abbrev sum : List ℕ
  sum = le_bytes 8 (fnv1a64 body) ++ body

  encoded-eq : encoded sc ≡ le_bytes 4 record_magic ++ (le_bytes 4 71 ++ sum)
  encoded-eq =
      sym (append-nil (encoded sc))
      ∙ encoded-append sc []
      ∙ ap (λ l. le_bytes 4 record_magic ++ (le_bytes 4 71 ++ (le_bytes 8 (fnv1a64 body) ++ l)))
          (append-nil body)

  torn_header : (k : ℕ) → k < 12 → read_record_header (take k (le_bytes 4 71 ++ sum)) ≡ none
  unfolding read_record_header
  torn_header k h = elim (Bool-cases (ltb k 4)) [
    | inl few ↦
        pod_then_short 4 _ (take k (le_bytes 4 71 ++ sum))
          (ground (arith, length-take_le k (le_bytes 4 71 ++ sum)))
    | inr more ↦ rw (take-le_bytes 4 71 k (k - 4) sum (ground arith)) (
        read-pod 4 71 _ (take (k - 4) sum) (omega arith)
        ∙ pod_then_short 8 _ (take (k - 4) sum) (ground (arith, length-take_le (k - 4) sum)))
  ]

  whole_header :
      (k : ℕ)
      → read_record_header (take (12 + k) (le_bytes 4 71 ++ sum))
        ≡ some ((71, fnv1a64 body), take k body)
  unfolding read_record_header
  whole_header k =
      rw
        (
          take-le_bytes 4 71 (12 + k) (8 + k) sum (omega arith),
          take-le_bytes 8 (fnv1a64 body) (8 + k) k body refl,
        )
        (read-pod 4 71 _ (le_bytes 8 (fnv1a64 body) ++ take k body) (omega arith)
          ∙ read-pod 8 (fnv1a64 body) _ (take k body) (fnv1a64-lt body))

  torn_next :
      (k : ℕ)
      → k < 87
      → next (clean (take k (encoded sc))) ≡ (record { rest = []; error = torn_error k }, none)
  unfolding next next_record
  torn_next k h = elim (Bool-cases (ltb k 4)) [
    | inl few ↦
        rw
          (
            few,
            pod_short 4 (take k (encoded sc)) (ground (arith, length-take_le k (encoded sc))),
            next,
          )
          refl
    | inr more ↦
        let rest = take (k - 4) (le_bytes 4 71 ++ sum) in
        let front : take k (encoded sc) ≡ le_bytes 4 record_magic ++ rest =
          ap (λ l. take k l) encoded-eq
          ∙ take-le_bytes 4 record_magic k (k - 4) (le_bytes 4 71 ++ sum) (ground arith) in
        let magic = pod-le_bytes 4 record_magic rest (omega arith) in
        elim (Bool-cases (ltb k 16)) [
          | inl header ↦
              rw (more, header, front, magic, torn_header (k - 4) (ground arith), next, next_record)
                refl
          | inr behind ↦
              let e : k - 4 ≡ 12 + (k - 16) = ground arith in
              let cut = whole_header (k - 16) in
              let short =
                bytes_short 71 (take (k - 16) body)
                  (ground (arith, length-take_le (k - 16) body)) in
              rw (more, behind, front, magic, e, cut, short, next, next_record) refl
        ]
  ]

read_all_end :
    (fuel : ℕ) (r r' : JournalReader) → next r ≡ (r', none) → read_all (suc fuel) r ≡ some ([], r')
unfolding read_all
read_all_end fuel r r' p = ground arith

torn_records :
    (scs : List SequencedCommand) (sc : SequencedCommand) (k fuel : ℕ)
    → All IsSequencedCommand scs
    → k < 87
    → length scs < fuel
    → read_all fuel (clean (records scs ++ take k (encoded sc)))
      ≡ some (scs, record { rest = []; error = torn_error k })
unfolding read_all
torn_records scs sc k zero v h less = absurd (omega arith)
torn_records [] sc k (suc fuel) v h less = read_all_end fuel _ _ (torn_next sc k h)
torn_records (c ∷ scs) sc k (suc fuel) v h less =
    rw (append_assoc (encoded c) (records scs) (take k (encoded sc))) (
      read_all_step fuel _ _ c scs (next-encoded c (records scs ++ take k (encoded sc)) v.0)
        (torn_records scs sc k fuel v.1 h (omega arith)))

-- A journal that got the commands `scs` and then only the first `k` bytes of a record, of the 87 that it
-- has: the reader gives `scs` in order and stops. It reports a short record or a short payload, and
-- nothing when fewer than 4 bytes of the record are there.
pub read_all_torn :
    (scs : List SequencedCommand) (sc : SequencedCommand) (k : ℕ)
    → All IsSequencedCommand scs
    → k < 87
    → read_all (suc (length scs)) (
        open_reader (
          foldl append file_header scs
          ++ take k (encode_record (encode_sequenced_command_payload sc))))
      ≡ some (scs, record { rest = []; error = torn_error k })
read_all_torn scs sc k v h =
    rw
      (
        foldl-append file_header scs,
        append_assoc file_header (records scs) (take k (encoded sc)),
        open_reader-written (records scs ++ take k (encoded sc)),
      )
      (torn_records scs sc k (suc (length scs)) v h (omega arith))
