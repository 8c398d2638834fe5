-- ===== src/BookManager/Agreement/Gone.antt =====
-- What the loop over the events of a command takes from the map of the live orders.
use exchange_and_feed_handle.Base.{
  ℕ, ◌≡◌, refl, sym, ap, ◌∙◌, ◌⊎◌, true, false, not, ◌&&◌, inl, inr, Option, none, List, [], ◌∷◌,
  arith, ◌==◌, if◌then◌else◌, Bool-cases,
}
use exchange_and_feed_handle.Base.Map.{lookup, lookup-erase}
use exchange_and_feed_handle.Types.{MdEvent}
use exchange_and_feed_handle.OrderBook.State.{OrderBook, contains}
use exchange_and_feed_handle.OrderBook.Feeds.{Feeds, AddsOnly, contains-SameOrders}
use exchange_and_feed_handle.OrderBook.Feeds.Live.{Fed-added, Fed-absent}
use exchange_and_feed_handle.BookManager.{
  BookManager, book_at, remove_index, remove_gone, takes_away,
}

-- The loop changes nothing but the map.
pub remove_gone-books :
    (s : ℕ) (evs : List MdEvent) (m : BookManager)
    → remove_gone m s evs ≡ record m { order_to_symbol = (remove_gone m s evs).order_to_symbol }
unfolding remove_gone remove_index
remove_gone-books s [] m = refl
remove_gone-books s (ev ∷ evs) m =
    elim (Bool-cases (takes_away ev.type && not (contains (book_at m s) ev.order_id))) [
      | inl gone ↦ rw (gone, remove_gone) (remove_gone-books s evs (remove_index m ev.order_id))
      | inr stays ↦ rw (stays, remove_gone) (remove_gone-books s evs m)
    ]

module _ (s j : ℕ) where
  abbrev symbol_of : BookManager → Option ℕ
  symbol_of m = lookup j m.order_to_symbol

  symbol_of-remove_index :
      (m : BookManager) (id : ℕ) → (j == id) ≡ false → symbol_of (remove_index m id) ≡ symbol_of m
  unfolding remove_index
  symbol_of-remove_index m id far = lookup-erase id j m.order_to_symbol ∙ ground arith

  symbol_of-remove_index_same :
      (m : BookManager) (id : ℕ) → (j == id) ≡ true → symbol_of (remove_index m id) ≡ none
  unfolding remove_index
  symbol_of-remove_index_same m id same = lookup-erase id j m.order_to_symbol ∙ ground arith

  -- What one event does to the map's entry of `j`.
  abbrev step : BookManager → MdEvent → BookManager
  step m ev =
      if takes_away ev.type && not (contains (book_at m s) ev.order_id)
      then remove_index m ev.order_id
      else m

  step-far :
      (m : BookManager) (ev : MdEvent)
      → (j == ev.order_id) ≡ false
      → symbol_of (step m ev) ≡ symbol_of m
  step-far m ev far =
      elim (Bool-cases (takes_away ev.type && not (contains (book_at m s) ev.order_id))) [
        | inl gone ↦ rw gone (symbol_of-remove_index m ev.order_id far)
        | inr stays ↦ rw stays refl
      ]

  step-book : (m : BookManager) (ev : MdEvent) → book_at (step m ev) s ≡ book_at m s
  unfolding remove_index
  step-book m ev =
      elim (Bool-cases (takes_away ev.type && not (contains (book_at m s) ev.order_id))) [
        | inl gone ↦ rw gone refl
        | inr stays ↦ rw stays refl
      ]

  step-either :
      (m : BookManager) (ev : MdEvent)
      → (symbol_of (step m ev) ≡ symbol_of m) ⊎ (symbol_of (step m ev) ≡ none)
  step-either m ev = elim (Bool-cases (j == ev.order_id)) [
    | inr far ↦ inl (step-far m ev far)
    | inl same ↦
        elim (Bool-cases (takes_away ev.type && not (contains (book_at m s) ev.order_id))) [
          | inl gone ↦ inr (rw gone (symbol_of-remove_index_same m ev.order_id same))
          | inr stays ↦ inl (rw stays refl)
        ]
  ]

  -- The entry of `j` stays, or goes.
  pub remove_gone-either :
      (evs : List MdEvent) (m : BookManager)
      → (symbol_of (remove_gone m s evs) ≡ symbol_of m) ⊎ (symbol_of (remove_gone m s evs) ≡ none)
  unfolding remove_gone
  remove_gone-either [] m = inl refl
  remove_gone-either (ev ∷ evs) m = elim (remove_gone-either evs (step m ev)) [
    | inr gone ↦ inr gone
    | inl same ↦ elim (step-either m ev) [
      | inl was ↦ inl (same ∙ was)
      | inr gone ↦ inr (same ∙ gone)
    ]
  ]

  -- It stays if the book has the order.
  pub remove_gone-kept :
      (evs : List MdEvent) (m : BookManager)
      → contains (book_at m s) j ≡ true
      → symbol_of (remove_gone m s evs) ≡ symbol_of m
  unfolding remove_gone
  remove_gone-kept [] m live = refl
  remove_gone-kept (ev ∷ evs) m live =
      remove_gone-kept evs (step m ev) (ap (λ b. contains b j) (step-book m ev) ∙ live)
      ∙ elim (Bool-cases (j == ev.order_id)) [
        | inr far ↦ step-far m ev far
        | inl same ↦
            let is_ev : j ≡ ev.order_id = ground arith in
            let here = rw is_ev at live in
            let stays : (takes_away ev.type && not (contains (book_at m s) ev.order_id)) ≡ false =
              ground arith in
            rw stays refl
      ]

  -- It goes if the events take the order out of the book.
  pub remove_gone-gone :
      (evs : List MdEvent) (m : BookManager) (b c : OrderBook)
      → Feeds b evs c
      → contains b j ≡ true
      → contains c j ≡ false
      → contains (book_at m s) j ≡ false
      → symbol_of (remove_gone m s evs) ≡ none
  unfolding remove_gone
  remove_gone-gone [] m b c same live gone here =
      cc (sym live ∙ contains-SameOrders b c j same ∙ gone)
  remove_gone-gone (ev ∷ evs) m b c (d, fed, rest) live gone here =
      let here' = ap (λ x. contains x j) (step-book m ev) ∙ here in
      elim (Bool-cases (contains d j)) [
        | inl still ↦ remove_gone-gone evs (step m ev) d c rest still gone here'
        | inr left ↦ elim (Bool-cases (j == ev.order_id)) [
          | inr far ↦ cc (sym live ∙ sym (fed.others j far) ∙ left)
          | inl same ↦
              let is_ev : j ≡ ev.order_id = ground arith in
              elim (Bool-cases (takes_away ev.type)) [
                | inr adds ↦ cc (sym (Fed-added b ev d fed adds).1 ∙ rw is_ev at left)
                | inl takes ↦
                    let out = rw is_ev at here in
                    let erased : symbol_of (step m ev) ≡ none =
                      rw (takes, out) (symbol_of-remove_index_same m ev.order_id same) in
                    elim (remove_gone-either evs (step m ev)) [
                      | inl kept ↦ kept ∙ erased
                      | inr none_left ↦ none_left
                    ]
              ]
        ]
      ]

  -- It stays if the order is not in the book before the events, nor added by them.
  pub remove_gone-other :
      (id : ℕ) (evs : List MdEvent) (m : BookManager) (b c : OrderBook)
      → Feeds b evs c
      → AddsOnly id evs
      → (j == id) ≡ false
      → contains b j ≡ false
      → symbol_of (remove_gone m s evs) ≡ symbol_of m
  unfolding remove_gone
  remove_gone-other id [] m b c same adds far gone = refl
  remove_gone-other id (ev ∷ evs) m b c (d, fed, rest) (add, adds) far gone =
      let (gone', apart) = Fed-absent b ev d id j fed add far gone in
      remove_gone-other id evs (step m ev) d c rest adds far gone' ∙ step-far m ev apart
