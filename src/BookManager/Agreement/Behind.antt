-- ===== src/BookManager/Agreement/Behind.antt =====
-- The map agrees with the books behind a command.
use exchange_and_feed_handle.Base.{
  ℕ, ◌≡◌, refl, sym, ap, ◌∙◌, ◌⊎◌, true, false, inl, inr, none, some, List, [], ◌∷◌, arith, ◌==◌,
  if◌then◌else◌, Bool-cases,
}
use exchange_and_feed_handle.Base.Map.{Map, lookup, insert, lookup-insert}
use exchange_and_feed_handle.Types.{MdEvent}
use exchange_and_feed_handle.OrderBook.State.{OrderBook, contains}
use exchange_and_feed_handle.OrderBook.Feeds.{Feeds, AddsOnly, IsPositive}
use exchange_and_feed_handle.OrderBook.Feeds.Live.{Feeds-absent}
use exchange_and_feed_handle.BookManager.{
  BookManager, book_at, put_book, bad_symbol, remove_gone, refresh_index_after_add,
}
use exchange_and_feed_handle.BookManager.Agreement.{
  IsAgreed, IsOwn, updated-IsAgreed, book_at-put_book, book_at-put_book_other,
}
use exchange_and_feed_handle.BookManager.Agreement.Gone.{
  remove_gone-books, remove_gone-either, remove_gone-kept, remove_gone-gone, remove_gone-other,
}

Feeds-symbol :
    (b : OrderBook) (evs : List MdEvent) (c : OrderBook) → Feeds b evs c → c.symbol_id ≡ b.symbol_id
Feeds-symbol b [] c same = ap (λ x. x.symbol_id) (sym same)
Feeds-symbol b (ev ∷ evs) c (m, fed, rest) = Feeds-symbol m evs c rest ∙ fed.kept

-- A command for the book of `s` that adds no order but `id`: the map agrees with the books behind it, the
-- events lead to the book behind it, and the other books are as they were.
pub record Moves (m : BookManager) (s id : ℕ) (evs : List MdEvent) (m' : BookManager) : Type 0 where
  pub agreed : IsAgreed m'
  pub feeds : Feeds (book_at m s) evs (book_at m' s)
  pub adds : AddsOnly id evs
  pub positive : IsPositive (book_at m' s)
  pub others : (t : ℕ) → (s == t) ≡ false → book_at m' t ≡ book_at m t
  pub max : m'.max_symbol ≡ m.max_symbol

-- The map `start` has, for each order, what the map of `m` has; or it has lost an order of the book, which is
-- `id` or is no longer in the book.
abbrev pub IsStart : BookManager → ℕ → ℕ → OrderBook → Map ℕ → Type 0
IsStart m s id b start =
    (j : ℕ)
    → (lookup j start ≡ lookup j m.order_to_symbol)
      ⊎ ((lookup j start ≡ none)
          × (contains (book_at m s) j ≡ true)
          × ((contains b j ≡ true) → j ≡ id))

-- The book of `s` becomes `b`, to which the events lead.
module _ (m : BookManager) (s id : ℕ) (b : OrderBook) (evs : List MdEvent) (v : IsAgreed m)
    (good : bad_symbol m s ≡ false) (feeds : Feeds (book_at m s) evs b) (adds : AddsOnly id evs)
    (own : IsOwn m s id) (start : Map ℕ) (begins : IsStart m s id b start) where
  abbrev put : BookManager
  put = record (put_book m s b) { order_to_symbol = start }

  abbrev left : Map ℕ
  left = (remove_gone put s evs).order_to_symbol

  abbrev symbols : Map ℕ
  symbols = if contains b id then insert id s left else left

  book_at-put : book_at put s ≡ b
  book_at-put = book_at-put_book m s b v.count good

  abbrev behind : BookManager
  behind = record (put_book m s b) { order_to_symbol = symbols }

  behind-eq : refresh_index_after_add (remove_gone put s evs) s id ≡ behind
  unfolding refresh_index_after_add
  behind-eq = elim (Bool-cases (contains b id)) [
    | inl live ↦ rw (remove_gone-books s evs put, refresh_index_after_add, book_at-put, live) refl
    | inr gone ↦ rw (remove_gone-books s evs put, refresh_index_after_add, book_at-put, gone) refl
  ]

  symbols-same : (j : ℕ) → j ≡ id → contains b id ≡ true → lookup j symbols ≡ some s
  symbols-same j same live = rw (live, lookup-insert id j s left) (ground arith)

  symbols-left :
      (j : ℕ) → ((j == id) ≡ false) ⊎ (contains b id ≡ false) → lookup j symbols ≡ lookup j left
  symbols-left j h = elim (Bool-cases (contains b id)) [
    | inr gone ↦ rw gone refl
    | inl live ↦ rw (live, lookup-insert id j s left) (ground arith)
  ]

  live_listed : (j : ℕ) → contains b j ≡ true → lookup j symbols ≡ some s
  live_listed j live = elim (Bool-cases (j == id)) [
    | inl same ↦ let is_id : j ≡ id = ground arith in symbols-same j is_id (rw is_id at live)
    | inr far ↦
        symbols-left j (inl far)
        ∙ remove_gone-kept s j evs put (ap (λ x. contains x j) book_at-put ∙ live)
        ∙ elim (begins j) [
          | inr (_, _, mine) ↦ let is_id = mine live in ground arith
          | inl same ↦ same ∙ v.listed j s good (before far)
        ]
  ]
    where
      before : (j == id) ≡ false → contains (book_at m s) j ≡ true
      before far = elim (Bool-cases (contains (book_at m s) j)) [
        | inl was ↦ was
        | inr absent ↦ cc (sym live ∙ Feeds-absent (book_at m s) evs b id j feeds adds far absent)
      ]

  -- An entry that is left was in the map of `m`.
  left_was : (j t : ℕ) → lookup j left ≡ some t → lookup j m.order_to_symbol ≡ some t
  left_was j t e = elim (remove_gone-either s j evs put) [
    | inr gone ↦ cc (sym gone ∙ e)
    | inl kept ↦ elim (begins j) [
      | inl same ↦ sym same ∙ sym kept ∙ e
      | inr (lost, _, _) ↦ cc (sym lost ∙ sym kept ∙ e)
    ]
  ]

  listed_live : (j : ℕ) → lookup j symbols ≡ some s → contains b j ≡ true
  listed_live j e = elim (Bool-cases (contains b j)) [
    | inl live ↦ live
    | inr gone ↦
        let e' = sym (symbols-left j (absent gone)) ∙ e in
        let was = (v.found j s (left_was j s e')).1 in
        let erased =
          remove_gone-gone s j evs put (book_at m s) b feeds was gone
            (ap (λ x. contains x j) book_at-put ∙ gone) in
        cc (sym erased ∙ e')
  ]
    where
      absent : contains b j ≡ false → ((j == id) ≡ false) ⊎ (contains b id ≡ false)
      absent gone = elim (Bool-cases (j == id)) [
        | inr far ↦ inl far
        | inl same ↦ let is_id : j ≡ id = ground arith in inr (rw is_id at gone)
      ]

  was :
      (j t : ℕ) → (s == t) ≡ false → lookup j symbols ≡ some t → lookup j m.order_to_symbol ≡ some t
  was j t apart e = elim (Bool-cases (j == id)) [
    | inr far ↦ left_was j t (sym (symbols-left j (inl far)) ∙ e)
    | inl same ↦ elim (Bool-cases (contains b id)) [
      | inr gone ↦ left_was j t (sym (symbols-left j (inr gone)) ∙ e)
      | inl live ↦
          let is_id : j ≡ id = ground arith in
          let is_s : s ≡ t = cc (sym (symbols-same j is_id live) ∙ e) in ground arith
    ]
  ]

  stays :
      (j t : ℕ) → (s == t) ≡ false → lookup j m.order_to_symbol ≡ some t → lookup j symbols ≡ some t
  stays j t apart e = elim (Bool-cases (j == id)) [
    | inl same ↦
        let is_id : j ≡ id = ground arith in let is_s = own t (rw is_id at e) in ground arith
    | inr far ↦ elim (Bool-cases (contains (book_at m s) j)) [
      | inl live ↦ let is_s : s ≡ t = cc (sym (v.listed j s good live) ∙ e) in ground arith
      | inr gone ↦
          symbols-left j (inl far)
          ∙ remove_gone-other s j id evs put (book_at m s) b feeds adds far gone
          ∙ elim (begins j) [ inl same ↦ same ∙ e | inr (_, live, _) ↦ cc (sym gone ∙ live) ]
    ]
  ]

  pub behind-Moves :
      IsPositive b → Moves m s id evs (refresh_index_after_add (remove_gone put s evs) s id)
  behind-Moves pos =
      let name = Feeds-symbol (book_at m s) evs b feeds ∙ v.named s good in
      rw behind-eq (record {
        agreed = updated-IsAgreed m s b v good name symbols live_listed listed_live was stays;
        feeds = rw book_at-put feeds;
        adds = adds;
        positive = rw book_at-put pos;
        others = λ t apart. book_at-put_book_other m s t b apart;
        max = refl;
      })
