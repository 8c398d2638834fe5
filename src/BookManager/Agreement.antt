-- ===== src/BookManager/Agreement.antt =====
-- `order_to_symbol_` of src/order_book.cpp: the symbol of each live order agrees with the books, and one changed book keeps it so.

pub mod Behind
pub mod Commands
pub mod Gone
pub mod Lost
pub mod Open
use exchange_and_feed_handle.Base.{
  ℕ, suc, ◌<◌, ◌≡◌, refl, sym, ap, ◌∙◌, Bool, true, false, ◌&&◌, inl, inr, Option, none, some, List,
  arith, ◌==◌, ltb, if◌then◌else◌, length, length-set, get_or-set, Bool-cases,
}
use exchange_and_feed_handle.Base.Map.{Map, lookup}
use exchange_and_feed_handle.OrderBook.State.{OrderBook, contains}
use exchange_and_feed_handle.BookManager.{BookManager, book_at, put_book, no_book, bad_symbol}

-- The map has an order under a symbol exactly if the symbol's book has the order.
pub record IsAgreed (m : BookManager) : Type 0 where
  pub count : length m.books ≡ suc m.max_symbol
  pub named : (s : ℕ) → bad_symbol m s ≡ false → (book_at m s).symbol_id ≡ s
  pub found :
      (id s : ℕ)
      → lookup id m.order_to_symbol ≡ some s
      → (bad_symbol m s ≡ false) × (contains (book_at m s) id ≡ true)
  pub listed :
      (id s : ℕ)
      → bad_symbol m s ≡ false
      → contains (book_at m s) id ≡ true
      → lookup id m.order_to_symbol ≡ some s

-- The order is under no other symbol.
abbrev pub IsOwn : BookManager → ℕ → ℕ → Type 0
IsOwn m s id = (t : ℕ) → lookup id m.order_to_symbol ≡ some t → t ≡ s

pub book_at-put_book :
    (m : BookManager) (s : ℕ) (b : OrderBook)
    → length m.books ≡ suc m.max_symbol
    → bad_symbol m s ≡ false
    → book_at (put_book m s b) s ≡ b
book_at-put_book m s b count good =
    let here : (s == s && ltb s (length m.books)) ≡ true = ground (arith, count) in
    rw (get_or-set m.books s s b no_book, here) refl

pub book_at-put_book_other :
    (m : BookManager) (s t : ℕ) (b : OrderBook)
    → (s == t) ≡ false
    → book_at (put_book m s b) t ≡ book_at m t
book_at-put_book_other m s t b apart = rw (get_or-set m.books s t b no_book, apart) refl

-- The book of `s` becomes `b`: the map has to have the orders of `b` under `s`, and its orders under other
-- symbols are those of `m`.
module _ (m : BookManager) (s : ℕ) (b : OrderBook) (v : IsAgreed m) (good : bad_symbol m s ≡ false)
    (name : b.symbol_id ≡ s) (symbols : Map ℕ)
    (live_listed : (j : ℕ) → contains b j ≡ true → lookup j symbols ≡ some s)
    (listed_live : (j : ℕ) → lookup j symbols ≡ some s → contains b j ≡ true)
    (was : (j t : ℕ)
      → (s == t) ≡ false
      → lookup j symbols ≡ some t
      → lookup j m.order_to_symbol ≡ some t)
    (stays : (j t : ℕ)
      → (s == t) ≡ false
      → lookup j m.order_to_symbol ≡ some t
      → lookup j symbols ≡ some t) where
  abbrev updated : BookManager
  updated = record (put_book m s b) { order_to_symbol = symbols }

  at_s : book_at updated s ≡ b
  at_s = book_at-put_book m s b v.count good

  at_other : (t : ℕ) → (s == t) ≡ false → book_at updated t ≡ book_at m t
  at_other t apart = book_at-put_book_other m s t b apart

  updated-found :
      (j t : ℕ)
      → lookup j symbols ≡ some t
      → (bad_symbol m t ≡ false) × (contains (book_at updated t) j ≡ true)
  updated-found j t e = elim (Bool-cases (s == t)) [
    | inl here ↦
        let is_s : s ≡ t = ground arith in
        (rw is_s at good, rw (sym is_s, at_s) (listed_live j (e ∙ ap (λ x. some x) (sym is_s))))
    | inr apart ↦
        let (known, there) = v.found j t (was j t apart e) in (known, rw (at_other t apart) there)
  ]

  updated-listed :
      (j t : ℕ)
      → bad_symbol m t ≡ false
      → contains (book_at updated t) j ≡ true
      → lookup j symbols ≡ some t
  updated-listed j t known there = elim (Bool-cases (s == t)) [
    | inl here ↦
        let is_s : s ≡ t = ground arith in
        live_listed j (rw (sym is_s, at_s) at there) ∙ ap (λ x. some x) is_s
    | inr apart ↦ stays j t apart (v.listed j t known (rw (at_other t apart) at there))
  ]

  pub updated-IsAgreed : IsAgreed updated
  updated-IsAgreed = record {
    count = length-set m.books s b ∙ v.count;
    named = λ t known. elim (Bool-cases (s == t)) [
      | inl here ↦ let is_s : s ≡ t = ground arith in rw (sym is_s, at_s) name
      | inr apart ↦ rw (at_other t apart) (v.named t known)
    ];
    found = updated-found;
    listed = updated-listed;
  }

-- The book of `s` becomes `b`, and the map changes for the order `id` alone.
module _ (m : BookManager) (s id : ℕ) (b : OrderBook) (v : IsAgreed m)
    (good : bad_symbol m s ≡ false) (own : IsOwn m s id) (name : b.symbol_id ≡ s)
    (others : (j : ℕ) → (j == id) ≡ false → contains b j ≡ contains (book_at m s) j)
    (symbols : Map ℕ) (mine : lookup id symbols ≡ (if contains b id then some s else none))
    (theirs : (j : ℕ) → (j == id) ≡ false → lookup j symbols ≡ lookup j m.order_to_symbol) where
  live_listed : (j : ℕ) → contains b j ≡ true → lookup j symbols ≡ some s
  live_listed j live = elim (Bool-cases (j == id)) [
    | inr far ↦ theirs j far ∙ v.listed j s good (sym (others j far) ∙ live)
    | inl same ↦ let is_id : j ≡ id = ground arith in rw is_id (rw (rw is_id at live) at mine)
  ]

  -- What the map has for `id`.
  at_id : (t : ℕ) → lookup id symbols ≡ some t → (contains b id ≡ true) × (s ≡ t)
  at_id t e = elim (Bool-cases (contains b id)) [
    | inl live ↦ (live, cc (rw live at mine))
    | inr gone ↦ cc (rw gone at mine)
  ]

  listed_live : (j : ℕ) → lookup j symbols ≡ some s → contains b j ≡ true
  listed_live j e = elim (Bool-cases (j == id)) [
    | inr far ↦ others j far ∙ (v.found j s (sym (theirs j far) ∙ e)).1
    | inl same ↦ let is_id : j ≡ id = ground arith in rw is_id (at_id s (rw is_id at e)).0
  ]

  was :
      (j t : ℕ) → (s == t) ≡ false → lookup j symbols ≡ some t → lookup j m.order_to_symbol ≡ some t
  was j t apart e = elim (Bool-cases (j == id)) [
    | inr far ↦ sym (theirs j far) ∙ e
    | inl same ↦
        let is_id : j ≡ id = ground arith in let is_s = (at_id t (rw is_id at e)).1 in ground arith
  ]

  stays :
      (j t : ℕ) → (s == t) ≡ false → lookup j m.order_to_symbol ≡ some t → lookup j symbols ≡ some t
  stays j t apart e = elim (Bool-cases (j == id)) [
    | inr far ↦ theirs j far ∙ e
    | inl same ↦
        let is_id : j ≡ id = ground arith in let is_s = own t (rw is_id at e) in ground arith
  ]

  pub changed-IsAgreed : IsAgreed (record (put_book m s b) { order_to_symbol = symbols })
  changed-IsAgreed = updated-IsAgreed m s b v good name symbols live_listed listed_live was stays
