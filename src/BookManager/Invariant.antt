-- ===== src/BookManager/Invariant.antt =====
-- Every book of the manager is settled, and its operations return.
use exchange_and_feed_handle.Base.{
  ℕ, suc, ◌≤◌, ◌<◌, ◌≡◌, refl, ◌∙◌, false, not, ◌&&◌, inl, inr, Option, none, some, List, [], ◌∷◌,
  arith, ◌==◌, ltb, length, length-set, get_or-set, Bool-cases, Option-cases,
}
use exchange_and_feed_handle.Base.Map.{lookup, lookup-insert, lookup-erase}
use exchange_and_feed_handle.Base.Run.{ok}
use exchange_and_feed_handle.Types.{ClientCommand, MdEvent, RejectReason}
use exchange_and_feed_handle.OrderBook.State.{OrderBook, MatchOutput, null, contains}
use exchange_and_feed_handle.OrderBook as Book
use exchange_and_feed_handle.OrderBook.{empty_output}
use exchange_and_feed_handle.OrderBook.Invariant.AddOrder.{IsSettled}
use exchange_and_feed_handle.OrderBook.Invariant.Settled.{
  add_order-IsSettled, cancel_order-IsSettled, replace_order-IsSettled,
}
use exchange_and_feed_handle.BookManager.{
  BookManager, book, book_at, put_book, no_book, bad_symbol, order_symbol, refresh_index_after_add,
  remove_index, remove_gone, takes_away, add_order, cancel_order, cancelled, replace_order,
}

-- Each symbol's book is settled and has at most `n` nodes, and each live order is under a symbol.
pub record IsManager (max n : ℕ) (m : BookManager) : Type 0 where
  pub top : m.max_symbol ≡ max
  pub count : length m.books ≡ suc m.max_symbol
  pub books : (s : ℕ) → s ≤ m.max_symbol → IsSettled (book_at m s)
  pub pools : (s : ℕ) → s ≤ m.max_symbol → length (book_at m s).nodes ≤ n
  pub symbols : (id s : ℕ) → lookup id m.order_to_symbol ≡ some s → s ≤ m.max_symbol

put_book-IsManager :
    {max : ℕ} (n s : ℕ) (m : BookManager) (b : OrderBook)
    → IsManager max n m
    → IsSettled b
    → length b.nodes ≤ suc n
    → IsManager max (suc n) (put_book m s b)
put_book-IsManager n s m b v w pool = record {
  top = v.top;
  count = length-set m.books s b ∙ v.count;
  books = λ t le. elim (Bool-cases (s == t && ltb s (length m.books))) [
    | inl same ↦ rw (get_or-set m.books s t b no_book, same) w
    | inr apart ↦ rw (get_or-set m.books s t b no_book, apart) (v.books t le)
  ];
  pools = λ t le. elim (Bool-cases (s == t && ltb s (length m.books))) [
    | inl same ↦ rw (get_or-set m.books s t b no_book, same) pool
    | inr apart ↦ rw (get_or-set m.books s t b no_book, apart) (omega (arith, v.pools t le))
  ];
  symbols = v.symbols;
}

pub later : {max : ℕ} (n : ℕ) (m : BookManager) → IsManager max n m → IsManager max (suc n) m
later n m v = record {
  top = v.top;
  count = v.count;
  books = v.books;
  pools = λ t le. omega (arith, v.pools t le);
  symbols = v.symbols;
}

remove_index-IsManager :
    {max : ℕ} (n id : ℕ) (m : BookManager) → IsManager max n m → IsManager max n (remove_index m id)
unfolding remove_index
remove_index-IsManager n id m v = record {
  top = v.top;
  count = v.count;
  books = v.books;
  pools = v.pools;
  symbols = λ j s e. elim (Bool-cases (id == j)) [
    | inl same ↦ cc (rw (lookup-erase id j m.order_to_symbol, same) at e)
    | inr apart ↦ v.symbols j s (rw (lookup-erase id j m.order_to_symbol, apart) at e)
  ];
}

refresh_index_after_add-IsManager :
    {max : ℕ} (n s id : ℕ) (m : BookManager)
    → s ≤ m.max_symbol
    → IsManager max n m
    → IsManager max n (refresh_index_after_add m s id)
unfolding refresh_index_after_add
refresh_index_after_add-IsManager n s id m le v = elim (Bool-cases (contains (book_at m s) id)) [
  | inr gone ↦ rw (gone, refresh_index_after_add) v
  | inl live ↦
      rw (live, refresh_index_after_add)
        (record {
          top = v.top;
          count = v.count;
          books = v.books;
          pools = v.pools;
          symbols = λ j t e. elim (Bool-cases (id == j)) [
            | inl same ↦
                let at_s : s ≡ t = cc (rw (lookup-insert id j s m.order_to_symbol, same) at e) in
                omega arith
            | inr apart ↦ v.symbols j t (rw (lookup-insert id j s m.order_to_symbol, apart) at e)
          ];
        })
]

remove_gone-IsManager :
    {max : ℕ} (n s : ℕ) (evs : List MdEvent) (m : BookManager)
    → IsManager max n m
    → IsManager max n (remove_gone m s evs)
unfolding remove_gone
remove_gone-IsManager n s [] m v = v
remove_gone-IsManager n s (ev ∷ evs) m v =
    elim (Bool-cases (takes_away ev.type && not (contains (book_at m s) ev.order_id))) [
      | inl gone ↦
          rw (gone, remove_gone)
            (remove_gone-IsManager n s evs (remove_index m ev.order_id)
              (remove_index-IsManager n ev.order_id m v))
      | inr stays ↦ rw (stays, remove_gone) (remove_gone-IsManager n s evs m v)
    ]

remove_gone-max :
    (s : ℕ) (evs : List MdEvent) (m : BookManager) → (remove_gone m s evs).max_symbol ≡ m.max_symbol
unfolding remove_gone remove_index
remove_gone-max s [] m = refl
remove_gone-max s (ev ∷ evs) m =
    elim (Bool-cases (takes_away ev.type && not (contains (book_at m s) ev.order_id))) [
      | inl gone ↦ rw (gone, remove_gone) (remove_gone-max s evs (remove_index m ev.order_id))
      | inr stays ↦ rw (stays, remove_gone) (remove_gone-max s evs m)
    ]

-- On a manager whose books are settled and have at most `n` nodes, fewer than `null`, an order for one of
-- its symbols returns, and the manager is such a one again, with at most `n + 1` nodes.
pub add_order-IsManager :
    {max : ℕ} (n seq : ℕ) (m : BookManager) (cmd : ClientCommand)
    → IsManager max n m
    → n < null
    → bad_symbol m cmd.symbol_id ≡ false
    → (m' : BookManager) × (out : MatchOutput) × (add_order m seq cmd ≡ ok (m', out))
      × IsManager max (suc n) m'
unfolding add_order book
add_order-IsManager n seq m cmd v room good =
    let le : cmd.symbol_id ≤ m.max_symbol = ground arith in
    let (b, out, ran, w, pool) =
      add_order-IsSettled (book_at m cmd.symbol_id) seq cmd.order_id cmd.account_id cmd.side
        cmd.price cmd.qty cmd.tif (v.books cmd.symbol_id le)
        (omega (arith, v.pools cmd.symbol_id le)) in
    let put = put_book m cmd.symbol_id b in
    let v' =
      put_book-IsManager n cmd.symbol_id m b v w (omega (arith, pool, v.pools cmd.symbol_id le)) in
    (
      _,
      out,
      rw (good, add_order, book, ran) refl,
      refresh_index_after_add-IsManager (suc n) cmd.symbol_id cmd.order_id
          (remove_gone put cmd.symbol_id out.md_events)
          (rw (remove_gone-max cmd.symbol_id out.md_events put) le)
          (remove_gone-IsManager (suc n) cmd.symbol_id out.md_events put v'),
    )

order_symbol-IsManager :
    {max : ℕ} (n id : ℕ) (m : BookManager) → IsManager max n m → order_symbol m id ≤ m.max_symbol
unfolding order_symbol
order_symbol-IsManager n id m v = elim (Option-cases (lookup id m.order_to_symbol)) [
  | inl p ↦ rw (p, order_symbol) (omega arith)
  | inr (s, p) ↦ rw (p, order_symbol) (v.symbols id s p)
]

-- A cancel keeps a manager whose books are settled.
pub cancel_order-IsManager :
    {max : ℕ} (n seq id : ℕ) (m : BookManager)
    → IsManager max n m
    → IsManager max (suc n) (cancel_order m seq id).0
unfolding cancel_order
cancel_order-IsManager n seq id m v = elim (Bool-cases (order_symbol m id == 0)) [
  | inl unknown ↦ rw (unknown, cancel_order) (later n m v)
  | inr known ↦
      let s = order_symbol m id in
      let le = order_symbol-IsManager n id m v in
      let (w, same, _) = cancel_order-IsSettled (book_at m s) seq id (v.books s le) in
      let (b, ev) = Book.cancel_order (book_at m s) seq id in
      let put = put_book-IsManager n s m b v w (omega (arith, same, v.pools s le)) in
      rw (known, cancel_order) (erased ev s b put)
]
  where
    erased :
        {max : ℕ} (ev : Option MdEvent) (s : ℕ) (b : OrderBook)
        → IsManager max (suc n) (put_book m s b)
        → IsManager max (suc n) (cancelled m s id (b, ev)).0
    erased none s b w = w
    erased (some ev) s b w = remove_index-IsManager (suc n) id (put_book m s b) w

-- The same as `add_order-IsManager`, for a replace of any order.
pub replace_order-IsManager :
    {max : ℕ} (n seq : ℕ) (m : BookManager) (cmd : ClientCommand)
    → IsManager max n m
    → n < null
    → (m' : BookManager) × (out : MatchOutput) × (replace_order m seq cmd ≡ ok (m', out))
      × IsManager max (suc n) m'
unfolding replace_order remove_index
replace_order-IsManager n seq m cmd v room =
    elim (Bool-cases (order_symbol m cmd.cancel_order_id == 0)) [
      | inl unknown ↦ (
        m,
        record empty_output { reject = RejectReason.unknown_order },
        rw (unknown, replace_order) refl,
        later n m v,
      )
      | inr known ↦
          let s = order_symbol m cmd.cancel_order_id in
          let le = order_symbol-IsManager n cmd.cancel_order_id m v in
          let (b, out, ran, w, pool) =
            replace_order-IsSettled (book_at m s) seq cmd.cancel_order_id cmd.order_id
              cmd.account_id cmd.side cmd.price cmd.qty cmd.tif (v.books s le)
              (omega (arith, v.pools s le)) in
          let put = put_book m s b in
          let v' = put_book-IsManager n s m b v w (omega (arith, pool, v.pools s le)) in
          let erased = remove_index put cmd.cancel_order_id in
          (
            _,
            out,
            rw (known, replace_order, ran) refl,
            refresh_index_after_add-IsManager (suc n) s cmd.order_id
                (remove_gone erased s out.md_events)
                (rw (remove_gone-max s out.md_events erased) le)
                (remove_gone-IsManager (suc n) s out.md_events erased
                  (remove_index-IsManager (suc n) cmd.cancel_order_id put v')),
          )
    ]
