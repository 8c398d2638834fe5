-- ===== src/Base/Run.antt =====
-- The outcome of code that can throw, or whose loop the model gives only so many rounds.
use mathlib.Core.Path.{◌≡◌, refl}

pub data Exception : Type 0 where
  invalid_argument out_of_range : Exception

pub data Run {ℓ} (A : Type ℓ) : Type ℓ where
  ok : A → Run A
  throws : Exception → Run A
  out_of_fuel : Run A

infixl 5 ◌>>=◌
abbrev pub ◌>>=◌ {ℓ κ} : {A : Type ℓ} {B : Type κ} → Run A → (A → Run B) → Run B
ok a >>= f = f a
throws e >>= f = throws e
out_of_fuel >>= f = out_of_fuel

-- A chain that returns had a first part that returned.
pub >>=-returns {ℓ κ} :
    {A : Type ℓ} {B : Type κ} (run : Run A) (rest : A → Run B) (b : B)
    → (run >>= rest) ≡ ok b
    → (mid : A) × (rest mid ≡ ok b) × (run ≡ ok mid)
>>=-returns (ok mid) rest b e = (mid, e, refl)
>>=-returns (throws x) rest b e = cc
>>=-returns out_of_fuel rest b e = cc
