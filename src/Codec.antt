-- ===== src/Codec.antt =====
-- `Writer` and `Reader` of include/exsim/util/codec.hpp, on a little-endian host (on any other `pod`
-- throws). A byte is a number below 256. A `Reader` is what it has not read yet: `in_` from `pos_` on.
pub mod Laws
use exchange_and_feed_handle.Base.{
  ℕ, zero, suc, ◌+◌, ◌*◌, ◌/◌, ◌%◌, ◌<◌, Option, none, some, List, [], ◌∷◌, ltb, if◌then◌else◌,
  length, take, drop, All,
}

abbrev pub IsByte : ℕ → Type 0
IsByte b = b < 256

abbrev pub AreBytes : List ℕ → Type 0
AreBytes bs = All IsByte bs

-- The bytes that `Writer::pod` appends for an unsigned value of `k` bytes.
unfoldable pub le_bytes : ℕ → ℕ → List ℕ
le_bytes zero v = []
le_bytes (suc k) v = (v % 256) ∷ le_bytes k (v / 256)

-- The value whose bytes are copied by `memcpy`.
unfoldable pub of_le : List ℕ → ℕ
of_le [] = 0
of_le (b ∷ bs) = b + 256 * of_le bs

-- A method of `Reader` gives nothing, or its result and the reader behind it.
abbrev pub Reads : Type 0 → Type 0
Reads A = List ℕ → Option (A × List ℕ)

infixl 5 ◌>>=◌ ◌>>◌
abbrev pub ◌>>=◌ : {A B : Type 0} → Reads A → (A → Reads B) → Reads B
◌>>=◌ m f r = elim (m r) [ none ↦ none | some (a, r') ↦ f a r' ]

abbrev pub ◌>>◌ : {B : Type 0} → Reads (Unit {0}) → Reads B → Reads B
m >> n = m >>= λ _. n

abbrev pub pure : {A : Type 0} → A → Reads A
pure a r = some (a, r)

-- `bytes(n)`
unfoldable pub bytes : ℕ → Reads (List ℕ)
bytes n r = if ltb (length r) n then none else some (take n r, drop n r)

-- `pod<T>()` for an unsigned `T` of `k` bytes
unfoldable pub pod : ℕ → Reads ℕ
unfolding of_le
pod k r = if ltb (length r) k then none else some (of_le (take k r), drop k r)

-- `remaining() == 0`
unfoldable pub at_end : Reads (Unit {0})
at_end [] = some (tt, [])
at_end (b ∷ bs) = none
