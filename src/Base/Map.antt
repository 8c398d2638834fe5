-- ===== src/Base/Map.antt =====
-- `std::unordered_map` with number keys: an association list with at most one entry for a key.
use Prim.Native.Nat.{ℕ, ◌≤◌, ◌<◌}
use mathlib.Core.Path.{◌≡◌}
use mathlib.Core.Bool.{Bool, true, false}
use mathlib.Core.List.{List, [], ◌∷◌}
use mathlib.Core.Option.{Option, none, some}
use native.Mathlib.Omega.{arith}
use exchange_and_feed_handle.Base.Tests.{◌==◌, if◌then◌else◌}
use exchange_and_feed_handle.Base.Lists.{length}

abbrev pub Map {ℓ} : Type ℓ → Type ℓ
Map V = List (ℕ × V)

module _ {ℓ} {V : Type ℓ} where
  unfoldable pub lookup : ℕ → Map V → Option V
  lookup k [] = none
  lookup k ((j, v) ∷ m) = if j == k then some v else lookup k m

  -- `m.erase(k)`
  unfoldable pub erase : ℕ → Map V → Map V
  erase k [] = []
  erase k ((j, v) ∷ m) = let rest = erase k m in if j == k then rest else (j, v) ∷ rest

  -- `m[k] = v`
  unfoldable pub insert : ℕ → V → Map V → Map V
  unfolding erase
  insert k v m = (k, v) ∷ erase k m

  unfoldable pub contains : ℕ → Map V → Bool
  unfolding lookup
  contains k m = elim (lookup k m) [ none ↦ false | some _ ↦ true ]

  abbrev pub size : Map V → ℕ
  size m = length m

  pub lookup-erase :
      (k j : ℕ) (m : Map V) → lookup j (erase k m) ≡ (if k == j then none else lookup j m)
  unfolding lookup erase
  lookup-erase k j [] = ground arith
  lookup-erase k j ((i, v) ∷ m) = ground (arith, lookup-erase k j m)

  pub lookup-insert :
      (k j : ℕ) (v : V) (m : Map V)
      → lookup j (insert k v m) ≡ (if k == j then some v else lookup j m)
  unfolding insert lookup
  lookup-insert k j v m = ground (arith, lookup-erase k j m)

  size-erase_le : (k : ℕ) (m : Map V) → length (erase k m) ≤ length m
  unfolding erase
  size-erase_le k [] = omega arith
  size-erase_le k ((j, v) ∷ m) = ground (arith, size-erase_le k m)

  pub size-erase_lt :
      (k : ℕ) (v : V) (m : Map V) → lookup k m ≡ some v → length (erase k m) < length m
  unfolding lookup erase
  size-erase_lt k v [] e = cc
  size-erase_lt k v ((j, w) ∷ m) e = ground (arith, size-erase_le k m, size-erase_lt k v m)

  pub contains-erase :
      (k j : ℕ) (m : Map V) → contains j (erase k m) ≡ (if k == j then false else contains j m)
  unfolding contains
  contains-erase k j m = rw (contains, lookup-erase k j m) (ground arith)

  pub contains-insert :
      (k j : ℕ) (v : V) (m : Map V)
      → contains j (insert k v m) ≡ (if k == j then true else contains j m)
  unfolding contains
  contains-insert k j v m = rw (contains, lookup-insert k j v m) (ground arith)
