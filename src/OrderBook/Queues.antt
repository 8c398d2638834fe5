-- ===== src/OrderBook/Queues.antt =====
-- The queues of a book: for each side and level, the indices of its nodes in the order of their arrival.
use exchange_and_feed_handle.Base.{
  ℕ, zero, suc, ◌+◌, ◌≤◌, ◌<◌, ◌≡◌, refl, ap, Bool, true, false, not, ◌&&◌, ◌||◌, inl, inr, List,
  [], ◌∷◌, ◌++◌, arith, ◌==◌, if◌then◌else◌, length, Bool-cases,
}
use exchange_and_feed_handle.OrderBook.Nodes.Chain.{mem, Distinct, first, last}

-- `true` is the side of the bids.
abbrev pub Queues : Type 0
Queues = Bool → ℕ → List ℕ

abbrev pub nonempty : List ℕ → Bool
nonempty [] = false
nonempty (k ∷ q) = true

-- A queue without the node `k`.
abbrev pub without : ℕ → List ℕ → List ℕ
without k [] = []
without k (j ∷ q) = if j == k then without k q else j ∷ without k q

pub mem-without : (k j : ℕ) (q : List ℕ) → mem j (without k q) ≡ (not (j == k) && mem j q)
mem-without k j [] = ground arith
mem-without k j (i ∷ q) = ground (arith, mem-without k j q)

pub without_absent : (k : ℕ) (q : List ℕ) → mem k q ≡ false → without k q ≡ q
without_absent k [] h = refl
without_absent k (j ∷ q) h = ground (arith, without_absent k q)

pub Distinct-without : (k : ℕ) (q : List ℕ) → Distinct q → Distinct (without k q)
Distinct-without k [] d = tt
Distinct-without k (j ∷ q) (out, d) = elim (Bool-cases (j == k)) [
  | inl same ↦ rw same (Distinct-without k q d)
  | inr apart ↦ rw apart (ground (arith, mem-without k j q), Distinct-without k q d)
]

-- A queue is split at each of its nodes.
pub split_at :
    (k : ℕ) (q : List ℕ)
    → mem k q ≡ true
    → Distinct q
    → (xs : List ℕ) × (ys : List ℕ) × (q ≡ xs ++ (k ∷ ys)) × (without k q ≡ xs ++ ys)
split_at k [] m d = cc
split_at k (j ∷ q) m (out, d) = elim (Bool-cases (j == k)) [
  | inl same ↦
      let e : j ≡ k = ground arith in
      let gone : mem k q ≡ false = rw e at out in
      ([], q, ap (λ x. x ∷ q) e, rw (same, without_absent k q gone) refl)
  | inr apart ↦
      let (xs, ys, e, w) = split_at k q (ground arith) d in
      (j ∷ xs, ys, ap (λ r. j ∷ r) e, rw (apart, w) refl)
]

length-without : (k : ℕ) (q : List ℕ) → Distinct q → length q ≤ length (without k q) + 1
length-without k [] d = omega arith
length-without k (j ∷ q) (out, d) = elim (Bool-cases (j == k)) [
  | inl same ↦
      let e : j ≡ k = ground arith in rw (same, without_absent k q (rw e at out)) (omega arith)
  | inr apart ↦ rw apart (omega (arith, length-without k q d))
]

-- A queue of distinct nodes below `n` has at most `n` of them.
pub length-Distinct :
    (n : ℕ) (q : List ℕ) → Distinct q → ((k : ℕ) → mem k q ≡ true → k < n) → length q ≤ n
length-Distinct zero [] d h = omega arith
length-Distinct zero (j ∷ q) d h = absurd (omega (arith, h j (ground arith)))
length-Distinct (suc n) q d h =
    omega
      (arith, length-without n q d, length-Distinct n (without n q) (Distinct-without n q d) below)
  where
    below : (k : ℕ) → mem k (without n q) ≡ true → k < n
    below k m = ground (arith, mem-without n k q, h k)

pub mem-snoc : (j k : ℕ) (q : List ℕ) → mem j (q ++ (k ∷ [])) ≡ ((j == k) || mem j q)
mem-snoc j k [] = ground arith
mem-snoc j k (i ∷ q) = ground (arith, mem-snoc j k q)

pub Distinct-snoc : (k : ℕ) (q : List ℕ) → mem k q ≡ false → Distinct q → Distinct (q ++ (k ∷ []))
Distinct-snoc k [] h d = (refl, tt)
Distinct-snoc k (j ∷ q) h (out, d) =
    (ground (arith, mem-snoc j k q), Distinct-snoc k q (ground arith) d)

pub first-snoc : (k : ℕ) (q : List ℕ) (n : ℕ) → first (q ++ (k ∷ [])) n ≡ first q k
first-snoc k [] n = refl
first-snoc k (j ∷ q) n = refl

pub last-snoc : (p k : ℕ) (q : List ℕ) → last p (q ++ (k ∷ [])) ≡ k
last-snoc p k [] = refl
last-snoc p k (j ∷ q) = last-snoc j k q

-- The queues after the node `k` has joined the back of one.
abbrev pub same_side : Bool → Bool → Bool
same_side true t = t
same_side false t = not t

abbrev pub pushed : Queues → Bool → ℕ → ℕ → Queues
pushed q s i k t j = if same_side s t && (i == j) then q t j ++ (k ∷ []) else q t j

pub same_side_eq : (s t : Bool) → same_side s t ≡ true → t ≡ s
same_side_eq s t h = ground arith

pub same_side_refl : (s : Bool) → same_side s s ≡ true
same_side_refl true = refl
same_side_refl false = refl

-- Every queue of `r` that has a node has one in `q`.
abbrev pub Shrinks : Queues → Queues → Type 0
Shrinks q r = (s : Bool) (i : ℕ) → nonempty (q s i) ≡ false → nonempty (r s i) ≡ false

pub nonempty-without : (k : ℕ) (q : List ℕ) → nonempty q ≡ false → nonempty (without k q) ≡ false
nonempty-without k [] h = refl
nonempty-without k (j ∷ q) h = cc

-- No bid is at the level of an ask or above.
abbrev pub IsUncrossed : Queues → Type 0
IsUncrossed q = (i j : ℕ) → nonempty (q true i) ≡ true → nonempty (q false j) ≡ true → i < j

pub Shrinks-IsUncrossed : (q r : Queues) → Shrinks q r → IsUncrossed q → IsUncrossed r
Shrinks-IsUncrossed q r h u i j bid ask = u i j (was true i bid) (was false j ask)
  where
    was : (s : Bool) (l : ℕ) → nonempty (r s l) ≡ true → nonempty (q s l) ≡ true
    was s l m = elim (Bool-cases (nonempty (q s l))) [ inl e ↦ e | inr e ↦ cc (h s l e) ]
