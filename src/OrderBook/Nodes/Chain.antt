-- ===== src/OrderBook/Nodes/Chain.antt =====
-- The doubly linked list of a price level: node indices joined by `prev` and `next`.
use exchange_and_feed_handle.Base.{
  ℕ, ◌<◌, ◌≡◌, refl, ap, ◌∙◌, Bool, true, false, ◌||◌, inl, inr, List, [], ◌∷◌, ◌++◌, arith, ◌==◌,
  length, get_or, set, get_or-set, Bool-cases,
}
use exchange_and_feed_handle.OrderBook.State.{Node, empty_node, null}

-- `nodes_[i]`
abbrev pub at : List Node → ℕ → Node
at ns i = get_or ns i empty_node

-- The first index of a list that `n` follows, and the last of one that follows `p`.
abbrev pub first : List ℕ → ℕ → ℕ
first [] n = n
first (i ∷ q) n = i

abbrev pub last : ℕ → List ℕ → ℕ
last p [] = p
last p (i ∷ q) = last i q

abbrev pub mem : ℕ → List ℕ → Bool
mem i [] = false
mem i (j ∷ q) = (i == j) || mem i q

abbrev pub Distinct : List ℕ → Type 0
Distinct [] = Unit {0}
Distinct (i ∷ q) = (mem i q ≡ false) × Distinct q

-- The nodes `q` are linked in this order, behind `p` and before `n`.
abbrev pub Seg : List Node → ℕ → List ℕ → ℕ → Type 0
Seg ns p [] n = Unit {0}
Seg ns p (i ∷ q) n = ((at ns i).prev ≡ p) × ((at ns i).next ≡ first q n) × Seg ns i q n

-- The nodes `q` have the same pointers in both pools.
abbrev pub SameLinks : List ℕ → List Node → List Node → Type 0
SameLinks [] ns ms = Unit {0}
SameLinks (i ∷ q) ns ms =
    ((at ms i).prev ≡ (at ns i).prev) × ((at ms i).next ≡ (at ns i).next) × SameLinks q ns ms

pub Seg-same :
    (ns ms : List Node) (p : ℕ) (q : List ℕ) (n : ℕ)
    → SameLinks q ns ms
    → Seg ns p q n
    → Seg ms p q n
Seg-same ns ms p [] n same s = tt
Seg-same ns ms p (i ∷ q) n (ep, en, same) (sp, sn, s) =
    (ep ∙ sp, en ∙ sn, Seg-same ns ms i q n same s)

pub at-set_ne :
    (ns : List Node) (i j : ℕ) (v : Node) → (j == i) ≡ false → at (set ns i v) j ≡ at ns j
at-set_ne ns i j v h = ground (arith, get_or-set ns i j v empty_node)

pub at-set_self : (ns : List Node) (i : ℕ) (v : Node) → i < length ns → at (set ns i v) i ≡ v
at-set_self ns i v h = ground (arith, get_or-set ns i i v empty_node)

-- A write to a node that is not among `q`.
pub SameLinks-set :
    (ns : List Node) (i : ℕ) (v : Node) (q : List ℕ) → mem i q ≡ false → SameLinks q ns (set ns i v)
SameLinks-set ns i v [] h = tt
SameLinks-set ns i v (j ∷ q) h =
    let e : at (set ns i v) j ≡ at ns j = at-set_ne ns i j v (ground arith) in
    (ap (λ x. x.prev) e, ap (λ x. x.next) e, SameLinks-set ns i v q (ground arith))

pub Seg-set :
    (ns : List Node) (i : ℕ) (v : Node) (p : ℕ) (q : List ℕ) (n : ℕ)
    → mem i q ≡ false
    → Seg ns p q n
    → Seg (set ns i v) p q n
Seg-set ns i v p q n h = Seg-same ns (set ns i v) p q n (SameLinks-set ns i v q h)

first-append : (xs : List ℕ) (i : ℕ) (ys : List ℕ) (n : ℕ) → first (xs ++ (i ∷ ys)) n ≡ first xs i
first-append [] i ys n = refl
first-append (x ∷ xs) i ys n = refl

first-append_nil : (xs ys : List ℕ) (n : ℕ) → first (xs ++ ys) n ≡ first xs (first ys n)
first-append_nil [] ys n = refl
first-append_nil (x ∷ xs) ys n = refl

pub Seg-append :
    (ns : List Node) (p : ℕ) (xs ys : List ℕ) (n : ℕ)
    → Seg ns p xs (first ys n)
    → Seg ns (last p xs) ys n
    → Seg ns p (xs ++ ys) n
Seg-append ns p [] ys n s t = t
Seg-append ns p (i ∷ xs) ys n (sp, sn, s) t =
    (sp, rw (first-append_nil xs ys n) sn, Seg-append ns i xs ys n s t)

pub Seg-split :
    (ns : List Node) (p : ℕ) (xs ys : List ℕ) (n : ℕ)
    → Seg ns p (xs ++ ys) n
    → Seg ns p xs (first ys n) × Seg ns (last p xs) ys n
Seg-split ns p [] ys n s = (tt, s)
Seg-split ns p (i ∷ xs) ys n (sp, sn, s) =
    let (front, back) = Seg-split ns i xs ys n s in
    ((sp, rw (first-append_nil xs ys n) at sn, front), back)

pub mem-last : (i : ℕ) (q : List ℕ) → mem (last i q) (i ∷ q) ≡ true
mem-last i [] = ground arith
mem-last i (j ∷ q) = ground (arith, mem-last j q)

pub ne_of_mem : (i k : ℕ) (q : List ℕ) → mem i q ≡ false → mem k q ≡ true → (i == k) ≡ false
ne_of_mem i k [] out h = cc
ne_of_mem i k (j ∷ q) out h = elim (Bool-cases (k == j)) [
  | inl same ↦ let e : k ≡ j = ground arith in rw e (ground arith)
  | inr apart ↦ ne_of_mem i k q (ground arith) (ground arith)
]

-- Every index of `q` is one of the pool, and not `null`.
abbrev pub InPool : List Node → List ℕ → Type 0
InPool ns [] = Unit {0}
InPool ns (i ∷ q) = (i < length ns) × (i < null) × InPool ns q

-- The last node gets another successor.
pub Seg-set_end :
    (ns : List Node) (p i : ℕ) (q : List ℕ) (n n' : ℕ)
    → Distinct (i ∷ q)
    → InPool ns (i ∷ q)
    → Seg ns p (i ∷ q) n
    → Seg (set ns (last i q) (record (at ns (last i q)) { next = n' })) p (i ∷ q) n'
Seg-set_end ns p i [] n n' d b (sp, sn, s) =
    let e = at-set_self ns i (record (at ns i) { next = n' }) b.0 in
    (ap (λ x. x.prev) e ∙ sp, ap (λ x. x.next) e, tt)
Seg-set_end ns p i (j ∷ q) n n' (out, d) (_, _, b) (sp, sn, s) =
    let apart : (i == last j q) ≡ false = ne_of_mem i (last j q) (j ∷ q) out (mem-last j q) in
    let e = at-set_ne ns (last j q) i (record (at ns (last j q)) { next = n' }) apart in
    (ap (λ x. x.prev) e ∙ sp, ap (λ x. x.next) e ∙ sn, Seg-set_end ns i j q n n' d b s)

-- The first node gets another predecessor.
pub Seg-set_start :
    (ns : List Node) (p p' i : ℕ) (q : List ℕ) (n : ℕ)
    → Distinct (i ∷ q)
    → InPool ns (i ∷ q)
    → Seg ns p (i ∷ q) n
    → Seg (set ns i (record (at ns i) { prev = p' })) p' (i ∷ q) n
Seg-set_start ns p p' i q n (out, d) (lt, _, b) (sp, sn, s) =
    let e = at-set_self ns i (record (at ns i) { prev = p' }) lt in
    (
      ap (λ x. x.prev) e,
      ap (λ x. x.next) e ∙ sn,
      Seg-set ns i (record (at ns i) { prev = p' }) i q n out s,
    )
