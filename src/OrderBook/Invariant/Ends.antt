-- ===== src/OrderBook/Invariant/Ends.antt =====
-- The first and the last node of a level after `remove_node`.
use exchange_and_feed_handle.Base.{
  ℕ, ◌-◌, ◌≡◌, refl, true, false, not, List, [], ◌∷◌, ◌++◌, arith, ◌==◌, ltb, if◌then◌else◌, length,
  length-append,
}
use exchange_and_feed_handle.OrderBook.State.{Level, Node, null}
use exchange_and_feed_handle.OrderBook.Nodes.{level_after_remove}
use exchange_and_feed_handle.OrderBook.Nodes.Chain.{
  at, mem, first, last, Distinct, Seg, InPool, Seg-split,
}
use exchange_and_feed_handle.OrderBook.Nodes.Links.{InPool-front, InPool-back}
use exchange_and_feed_handle.OrderBook.Queues.{nonempty, without, split_at}
use exchange_and_feed_handle.OrderBook.Invariant.{IsEnds}

pub nonempty-length : (q : List ℕ) → nonempty q ≡ not (length q == 0)
nonempty-length [] = refl
nonempty-length (k ∷ q) = ground arith

pub nonempty_of_mem : (k : ℕ) (q : List ℕ) → mem k q ≡ true → nonempty q ≡ true
nonempty_of_mem k [] m = cc
nonempty_of_mem k (j ∷ q) m = refl

last_back : (p k : ℕ) (xs ys : List ℕ) → last p (xs ++ (k ∷ ys)) ≡ last k ys
last_back p k [] ys = refl
last_back p k (x ∷ xs) ys = last_back x k xs ys

last_append : (p : ℕ) (xs ys : List ℕ) → last p (xs ++ ys) ≡ last (last p xs) ys
last_append p [] ys = refl
last_append p (x ∷ xs) ys = last_append x xs ys

last_default : (p r x : ℕ) (xs : List ℕ) → last p (x ∷ xs) ≡ last r (x ∷ xs)
last_default p r x xs = refl

pub real_last :
    (ns : List Node) (x : ℕ) (xs : List ℕ) → InPool ns (x ∷ xs) → (last x xs == null) ≡ false
real_last ns x [] (lt, ne, p) = ground arith
real_last ns x (y ∷ xs) (lt, ne, p) = real_last ns y xs p

-- The first and the last of a queue after the node between `xs` and `ys` has left it.
head_after :
    (ns : List Node) (k : ℕ) (xs ys : List ℕ)
    → InPool ns xs
    → (if last null xs == null then first ys null else first (xs ++ (k ∷ ys)) null)
      ≡ first (xs ++ ys) null
head_after ns k [] ys p = ground arith
head_after ns k (x ∷ xs) ys p = rw (real_last ns x xs p) refl

tail_after :
    (ns : List Node) (k : ℕ) (xs ys : List ℕ)
    → InPool ns ys
    → (if first ys null == null then last null xs else last null (xs ++ (k ∷ ys)))
      ≡ last null (xs ++ ys)
tail_after ns k xs [] p = rw (last_append null xs []) (ground arith)
tail_after ns k xs (y ∷ ys) (lt, ne, p) =
    let real : (y == null) ≡ false = ground arith in
    rw (real, last_back null k xs (y ∷ ys), last_append null xs (y ∷ ys)) refl

count_after :
    (k : ℕ) (xs ys : List ℕ)
    → (if ltb 0 (length (xs ++ (k ∷ ys)))
        then length (xs ++ (k ∷ ys)) - 1
        else length (xs ++ (k ∷ ys)))
      ≡ length (xs ++ ys)
count_after k xs ys = rw (length-append xs (k ∷ ys), length-append xs ys) (ground arith)

pub level_after_remove-IsEnds :
    (ns : List Node) (k removed : ℕ) (level : Level) (q : List ℕ)
    → mem k q ≡ true
    → Distinct q
    → InPool ns q
    → Seg ns null q null
    → IsEnds level q
    → IsEnds (level_after_remove level (at ns k) removed) (without k q)
level_after_remove-IsEnds ns k removed level q m d p s v =
    let (xs, ys, e, w) = split_at k q m d in
    let (front, (ep, en, back)) = Seg-split ns null xs (k ∷ ys) null (rw e at s) in
    let px = InPool-front ns xs (k ∷ ys) (rw e at p) in
    let py = (InPool-back ns xs (k ∷ ys) (rw e at p)).2 in
    record {
      head = rw (ep, en, w, v.head, e) (head_after ns k xs ys px);
      tail = rw (ep, en, w, v.tail, e) (tail_after ns k xs ys py);
      count = rw (w, v.count, e) (count_after k xs ys);
    }
