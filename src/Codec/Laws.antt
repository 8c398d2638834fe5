-- ===== src/Codec/Laws.antt =====
-- What is written is read back, and what is read was written so.
use exchange_and_feed_handle.Base.{
  ℕ, zero, suc, ◌+◌, ◌*◌, ◌/◌, ◌%◌, ◌^◌, ◌<◌, ◌≡◌, refl, sym, ap, inl, inr, false, Option, none,
  some, List, [], ◌∷◌, ◌++◌, arith, ltb, length, take, drop, All-take, All-append, All-drop,
  append-nil, take-append, drop-append, take-append-drop, length-take, length-append, Bool-cases,
}
use native.Mathlib.Nat.{pow-suc}
use exchange_and_feed_handle.Codec.{
  IsByte, AreBytes, le_bytes, of_le, Reads, ◌>>=◌, pod, bytes, at_end,
}

pub length-le_bytes : (k v : ℕ) → length (le_bytes k v) ≡ k
unfolding le_bytes
length-le_bytes zero v = refl
length-le_bytes (suc k) v = ap suc (length-le_bytes k (v / 256))

pub le_bytes-AreBytes : (k v : ℕ) → AreBytes (le_bytes k v)
unfolding le_bytes
le_bytes-AreBytes zero v = tt
le_bytes-AreBytes (suc k) v = (omega arith, le_bytes-AreBytes k (v / 256))

pub le_bytes_then : (k v : ℕ) (r : List ℕ) → AreBytes r → AreBytes (le_bytes k v ++ r)
le_bytes_then k v r h = All-append IsByte (le_bytes k v) r (le_bytes-AreBytes k v) h

pub of_le-le_bytes : (k v : ℕ) → v < 256 ^ k → of_le (le_bytes k v) ≡ v
unfolding of_le le_bytes
of_le-le_bytes zero v h = omega arith
of_le-le_bytes (suc k) v h =
    omega (arith, of_le-le_bytes k (v / 256) (omega (arith, pow-suc 256 k)))

pub le_bytes-of_le : (bs : List ℕ) → AreBytes bs → le_bytes (length bs) (of_le bs) ≡ bs
unfolding of_le le_bytes
le_bytes-of_le [] h = refl
le_bytes-of_le (b ∷ bs) h =
    let low : (b + 256 * of_le bs) % 256 ≡ b = omega arith in
    let high : (b + 256 * of_le bs) / 256 ≡ of_le bs = omega arith in
    rw (low, high, le_bytes-of_le bs h.1)

pub of_le-lt : (bs : List ℕ) → AreBytes bs → of_le bs < 256 ^ length bs
unfolding of_le
of_le-lt [] h = omega arith
of_le-lt (b ∷ bs) h = omega (arith, pow-suc 256 (length bs), of_le-lt bs h.1)

-- `bytes` takes a part of the known length off the front.
pub bytes-append : (xs ys : List ℕ) → bytes (length xs) (xs ++ ys) ≡ some (xs, ys)
unfolding bytes
bytes-append xs ys =
    let fits : ltb (length (xs ++ ys)) (length xs) ≡ false = ground (arith, length-append xs ys) in
    rw (fits, take-append xs ys, drop-append xs ys)

-- `pod` reads the value that a `pod` of the same width wrote.
pub pod-le_bytes :
    (k v : ℕ) (rest : List ℕ) → v < 256 ^ k → pod k (le_bytes k v ++ rest) ≡ some (v, rest)
unfolding pod
pod-le_bytes k v rest h =
    let n : length (le_bytes k v) ≡ k = length-le_bytes k v in
    let fits : ltb (length (le_bytes k v ++ rest)) k ≡ false =
      ground (arith, length-append (le_bytes k v) rest, n) in
    let front : take k (le_bytes k v ++ rest) ≡ le_bytes k v =
      rw n at (take-append (le_bytes k v) rest) in
    let back : drop k (le_bytes k v ++ rest) ≡ rest = rw n at (drop-append (le_bytes k v) rest) in
    rw (fits, front, back, of_le-le_bytes k v h)

-- A `pod` that succeeds splits its input into the bytes of the value and the rest.
pub pod-eq-some :
    (k v : ℕ) (r rest : List ℕ)
    → AreBytes r
    → pod k r ≡ some (v, rest)
    → (r ≡ le_bytes k v ++ rest) × AreBytes rest × (v < 256 ^ k)
unfolding pod
pod-eq-some k v r rest h e = elim (Bool-cases (ltb (length r) k)) [
  | inl short ↦ cc (rw short at e)
  | inr enough ↦
      let n : length (take k r) ≡ k = length-take k r (ground arith) in
      let got : AreBytes (take k r) = All-take IsByte k r h in
      let ev : of_le (take k r) ≡ v = ground arith in
      let er : drop k r ≡ rest = ground arith in
      let written : le_bytes k v ≡ take k r = rw (n, ev) at (le_bytes-of_le (take k r) got) in
      (
        rw (written, ← er) (sym (take-append-drop k r)),
        rw er at (All-drop IsByte k r h),
        rw (n, ev) at (of_le-lt (take k r) got),
      )
]

-- The same for a `pod` with what follows it.
pub pod-bind :
    {B : Type 0} (k : ℕ) (f : ℕ → Reads B) (r : List ℕ) {b : B × List ℕ}
    → AreBytes r
    → (pod k >>= f) r ≡ some b
    → (v : ℕ) × (rest : List ℕ) × (r ≡ le_bytes k v ++ rest)
      × AreBytes rest
      × (v < 256 ^ k)
      × (f v rest ≡ some b)
pod-bind {B} k f r {b} h e = go (pod k r) refl e
  where
    go :
        (o : Option (ℕ × List ℕ))
        → pod k r ≡ o
        → ◌≡◌ {A = Option _} (elim o [ none ↦ none | some (a, r') ↦ f a r' ]) (some b)
        → (v : ℕ) × (rest : List ℕ) × (r ≡ le_bytes k v ++ rest)
          × AreBytes rest
          × (v < 256 ^ k)
          × (f v rest ≡ some b)
    go none p q = cc
    go (some (v, rest)) p q =
        let (split, back, small) = pod-eq-some k v r rest h p in (v, rest, split, back, small, q)

pub at_end-eq-some : (r rest : List ℕ) → at_end r ≡ some (tt, rest) → (r ≡ []) × (rest ≡ [])
unfolding at_end
at_end-eq-some [] rest e = ground arith
at_end-eq-some (b ∷ bs) rest e = cc

pub bytes-eq-some :
    (n : ℕ) (r body left : List ℕ)
    → bytes n r ≡ some (body, left)
    → (r ≡ body ++ left) × (length body ≡ n)
unfolding bytes
bytes-eq-some n r body left e = elim (Bool-cases (ltb (length r) n)) [
  | inl short ↦ cc (rw short at e)
  | inr enough ↦
      let eb : take n r ≡ body = ground arith in
      let el : drop n r ≡ left = ground arith in
      (rw (← eb, ← el) (sym (take-append-drop n r)), rw eb at (length-take n r (ground arith)))
]

-- A written value in front of a reader that begins with the `pod` for it.
pub read-pod :
    {B : Type 0} (k v : ℕ) (f : ℕ → Reads B) (rest : List ℕ)
    → v < 256 ^ k
    → (pod k >>= f) (le_bytes k v ++ rest) ≡ f v rest
read-pod k v f rest h = rw (pod-le_bytes k v rest h, ◌>>=◌)

-- The same where the value is all that is left.
pub read-pod_last :
    {B : Type 0} (k v : ℕ) (f : ℕ → Reads B) → v < 256 ^ k → (pod k >>= f) (le_bytes k v) ≡ f v []
read-pod_last k v f h = rw append-nil at (read-pod k v f [] h)

pub at_end-bind :
    {B : Type 0} (f : Reads B) (r : List ℕ) {b : B × List ℕ}
    → (at_end >>= λ _. f) r ≡ some b
    → (r ≡ []) × (f [] ≡ some b)
unfolding at_end
at_end-bind f [] e = (refl, e)
at_end-bind f (x ∷ r) e = cc

-- The same as a rule: what holds behind every such split holds.
pub pod-elim {ℓ} :
    {P : Type ℓ} {B : Type 0} (k : ℕ) (f : ℕ → Reads B) (r : List ℕ) {b : B × List ℕ}
    → AreBytes r
    → (pod k >>= f) r ≡ some b
    → ((v : ℕ) (rest : List ℕ)
        → r ≡ le_bytes k v ++ rest
        → AreBytes rest
        → v < 256 ^ k
        → f v rest ≡ some b
        → P)
    → P
pod-elim k f r h e next =
    let (v, rest, split, back, small, q) = pod-bind k f r h e in next v rest split back small q

pub pure-eq-some :
    {A : Type 0} {a b : A} {r s : List ℕ}
    → ◌≡◌ {A = Option (A × List ℕ)} (some (a, r)) (some (b, s))
    → a ≡ b
pure-eq-some e = cc
