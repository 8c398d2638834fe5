-- ===== src/OrderBook/Nodes/Links.antt =====
-- How `append_to_level` and `remove_node` link and unlink a node of a level's list.
use exchange_and_feed_handle.Base.{
  ℕ, ◌≡◌, refl, sym, true, false, ◌||◌, inl, inr, List, [], ◌∷◌, ◌++◌, arith, ◌==◌, if◌then◌else◌,
  set, length-set, Bool-cases,
}
use mathlib.Core.Path.{subst}
use exchange_and_feed_handle.OrderBook.State.{OrderBook, Node, node, null}
use exchange_and_feed_handle.OrderBook.Nodes.{unlink}
use exchange_and_feed_handle.OrderBook.Nodes.Chain.{
  at, first, last, mem, Distinct, Seg, InPool, Seg-set, Seg-append, Seg-split, Seg-set_end,
  Seg-set_start, mem-last,
}

-- `nodes_[p].next = n` and `nodes_[n].prev = p`, unless the index is `null`.
abbrev pub write_next : List Node → ℕ → ℕ → List Node
write_next ns p n = if p == null then ns else set ns p (record (at ns p) { next = n })

abbrev pub write_prev : List Node → ℕ → ℕ → List Node
write_prev ns n p = if n == null then ns else set ns n (record (at ns n) { prev = p })

pub nodes-unlink :
    (b : OrderBook) (n : Node)
    → (unlink b n).nodes ≡ write_prev (write_next b.nodes n.prev n.next) n.next n.prev
nodes-unlink b n = elim (Bool-cases (n.prev == null)) [
  | inl p ↦ elim (Bool-cases (n.next == null)) [ inl q ↦ rw (p, q) | inr q ↦ rw (p, q) ]
  | inr p ↦ elim (Bool-cases (n.next == null)) [ inl q ↦ rw (p, q) | inr q ↦ rw (p, q) ]
]

pub mem-append : (k : ℕ) (xs ys : List ℕ) → mem k (xs ++ ys) ≡ (mem k xs || mem k ys)
mem-append k [] ys = refl
mem-append k (x ∷ xs) ys = ground (arith, mem-append k xs ys)

pub Distinct-front : (xs ys : List ℕ) → Distinct (xs ++ ys) → Distinct xs
Distinct-front [] ys d = tt
Distinct-front (x ∷ xs) ys (out, d) = (ground (arith, mem-append x xs ys), Distinct-front xs ys d)

pub Distinct-back : (xs ys : List ℕ) → Distinct (xs ++ ys) → Distinct ys
Distinct-back [] ys d = d
Distinct-back (x ∷ xs) ys (out, d) = Distinct-back xs ys d

pub Distinct-apart :
    (xs ys : List ℕ) (k : ℕ) → Distinct (xs ++ ys) → mem k xs ≡ true → mem k ys ≡ false
Distinct-apart [] ys k d h = cc
Distinct-apart (x ∷ xs) ys k (out, d) h = elim (Bool-cases (k == x)) [
  | inl same ↦ let e : k ≡ x = ground arith in rw e (ground (arith, mem-append x xs ys))
  | inr apart ↦ Distinct-apart xs ys k d (ground arith)
]

pub InPool-front : (ns : List Node) (xs ys : List ℕ) → InPool ns (xs ++ ys) → InPool ns xs
InPool-front ns [] ys b = tt
InPool-front ns (x ∷ xs) ys (lt, ne, b) = (lt, ne, InPool-front ns xs ys b)

pub InPool-back : (ns : List Node) (xs ys : List ℕ) → InPool ns (xs ++ ys) → InPool ns ys
InPool-back ns [] ys b = b
InPool-back ns (x ∷ xs) ys (lt, ne, b) = InPool-back ns xs ys b

pub InPool-set :
    (ns : List Node) (i : ℕ) (v : Node) (q : List ℕ) → InPool ns q → InPool (set ns i v) q
InPool-set ns i v [] b = tt
InPool-set ns i v (x ∷ q) (lt, ne, b) = (rw (length-set ns i v) lt, ne, InPool-set ns i v q b)

write_next-real :
    (ns : List Node) (p n : ℕ)
    → (p == null) ≡ false
    → write_next ns p n ≡ set ns p (record (at ns p) { next = n })
write_next-real ns p n h = rw h

write_prev-real :
    (ns : List Node) (n p : ℕ)
    → (n == null) ≡ false
    → write_prev ns n p ≡ set ns n (record (at ns n) { prev = p })
write_prev-real ns n p h = rw h

last-real :
    (ns : List Node) (x : ℕ) (xs : List ℕ) → InPool ns (x ∷ xs) → (last x xs == null) ≡ false
last-real ns x [] (_, ne, _) = ground arith
last-real ns x (y ∷ xs) (_, _, b) = last-real ns y xs b

InPool-write_next :
    (ns : List Node) (p n : ℕ) (q : List ℕ) → InPool ns q → InPool (write_next ns p n) q
InPool-write_next ns p n q b = elim (Bool-cases (p == null)) [
  | inl nil ↦ rw nil b
  | inr real ↦ rw real (InPool-set ns p _ q b)
]

-- A write behind the end of `xs`.
pub write_next-Seg :
    (ns : List Node) (xs : List ℕ) (n n' : ℕ)
    → Distinct xs
    → InPool ns xs
    → Seg ns null xs n
    → Seg (write_next ns (last null xs) n') null xs n'
write_next-Seg ns [] n n' d b s = tt
write_next-Seg ns (x ∷ xs) n n' d b s =
    let real : (last x xs == null) ≡ false = last-real ns x xs b in
    subst (λ ms. Seg ms null (x ∷ xs) n') (sym (write_next-real ns (last x xs) n' real))
      (Seg-set_end ns null x xs n n' d b s)

write_prev-Seg :
    (ns : List Node) (ys : List ℕ) (p p' : ℕ)
    → Distinct ys
    → InPool ns ys
    → Seg ns p ys null
    → Seg (write_prev ns (first ys null) p') p' ys null
write_prev-Seg ns [] p p' d b s = tt
write_prev-Seg ns (y ∷ ys) p p' d b s =
    let real : (y == null) ≡ false = ground arith in
    subst (λ ms. Seg ms p' (y ∷ ys) null) (sym (write_prev-real ns y p' real))
      (Seg-set_start ns p p' y ys null d b s)

-- Neither write touches a list that is disjoint from the one it is made for.
pub write_next-other :
    (ns : List Node) (xs q : List ℕ) (p n n' : ℕ)
    → ((k : ℕ) → mem k xs ≡ true → mem k q ≡ false)
    → Seg ns p q n
    → Seg (write_next ns (last null xs) n') p q n
write_next-other ns [] q p n n' apart s = s
write_next-other ns (x ∷ xs) q p n n' apart s = elim (Bool-cases (last x xs == null)) [
  | inl nil ↦ rw nil s
  | inr real ↦ rw real (Seg-set ns (last x xs) _ p q n (apart (last x xs) (mem-last x xs)) s)
]

pub write_prev-other :
    (ns : List Node) (ys q : List ℕ) (p n p' : ℕ)
    → ((k : ℕ) → mem k ys ≡ true → mem k q ≡ false)
    → Seg ns p q n
    → Seg (write_prev ns (first ys null) p') p q n
write_prev-other ns [] q p n p' apart s = s
write_prev-other ns (y ∷ ys) q p n p' apart s = elim (Bool-cases (y == null)) [
  | inl nil ↦ rw nil s
  | inr real ↦ rw real (Seg-set ns y _ p q n (apart y (ground arith)) s)
]

apart_sym :
    (xs ys : List ℕ)
    → ((k : ℕ) → mem k xs ≡ true → mem k ys ≡ false)
    → (k : ℕ) → mem k ys ≡ true
    → mem k xs ≡ false
apart_sym xs ys h k m = elim (Bool-cases (mem k xs)) [ inl i ↦ cc (h k i) | inr o ↦ o ]

-- For a level's list `xs ++ i ∷ ys` of distinct nodes of the pool, linked from `null` to `null`: after
-- `unlink` of the node `i` the rest, `xs ++ ys`, is linked so.
pub unlink-Seg :
    (b : OrderBook) (i : ℕ) (xs ys : List ℕ)
    → Distinct (xs ++ (i ∷ ys))
    → InPool b.nodes (xs ++ (i ∷ ys))
    → Seg b.nodes null (xs ++ (i ∷ ys)) null
    → Seg (unlink b (node b i)).nodes null (xs ++ ys) null
unlink-Seg b i xs ys d p s =
    let (front, (ep, en, back)) = Seg-split b.nodes null xs (i ∷ ys) null s in
    let ms = write_next b.nodes (last null xs) (first ys null) in
    let apart = λ (k : ℕ) (m : mem k xs ≡ true). tail_out k (Distinct-apart xs (i ∷ ys) k d m) in
    let dy = (Distinct-back xs (i ∷ ys) d).1 in
    let py = (InPool-back b.nodes xs (i ∷ ys) p).2 in
    let front' =
      write_next-Seg b.nodes xs i (first ys null) (Distinct-front xs (i ∷ ys) d)
        (InPool-front b.nodes xs (i ∷ ys) p) front in
    let back' = write_next-other b.nodes xs ys i null (first ys null) apart back in
    rw (nodes-unlink b (node b i), ep, en)
      (Seg-append _ null xs ys null
        (write_prev-other ms ys xs null (first ys null) (last null xs) (apart_sym xs ys apart)
          front')
        (write_prev-Seg ms ys i (last null xs) dy (InPool-write_next b.nodes _ _ ys py) back'))
  where
    tail_out : (k : ℕ) → mem k (i ∷ ys) ≡ false → mem k ys ≡ false
    tail_out k h = ground arith
