-- ===== src/Base/Bits.antt =====
-- The bit operations on numbers of any width, by the value of each binary digit.
use Prim.Native.Nat.{
  ℕ, zero, suc, ◌+◌, ◌-◌, ◌*◌, ◌/◌, ◌%◌, ◌^◌, ◌≤◌, ◌<◌, min, max, digits, differ, bit_and, bit_or,
  bit_xor, bit_and-bitwise, bit_or-bitwise, bit_xor-bitwise,
}
use mathlib.Core.Path.{◌≡◌, refl, ap}
use native.Mathlib.Omega.{arith}
use native.Mathlib.Nat.{pow-suc, one-le-pow}
use native.Mathlib.Numerals.{add-one}
use exchange_and_feed_handle.Base.Tests.{◌==◌, if◌then◌else◌}

-- Digit `i` of `x`.
unfoldable pub bit : ℕ → ℕ → ℕ
bit x zero = x % 2
bit x (suc i) = bit (x / 2) i

-- The native operations are recursions on digits with fuel, which any bound on the first argument
-- can stand for.
module _ (z : ℕ → ℕ) (f : ℕ → ℕ → ℕ) where
  any_fuel : (n m a b : ℕ) → a ≤ n → a ≤ m → digits z f n a b ≡ digits z f m a b
  any_fuel zero zero a b p q = refl
  any_fuel (suc n) zero zero b p q = refl
  any_fuel (suc n) zero (suc a) b p q = absurd (omega arith)
  any_fuel zero (suc m) zero b p q = refl
  any_fuel zero (suc m) (suc a) b p q = absurd (omega arith)
  any_fuel (suc n) (suc m) zero b p q = refl
  any_fuel (suc n) (suc m) (suc a) b p q =
      rw (any_fuel n m (suc a / 2) (b / 2) (omega arith) (omega arith))

halve-bit_and : (x y : ℕ) → min (x % 2) (y % 2) + 2 * bit_and (x / 2) (y / 2) ≡ bit_and x y
halve-bit_and zero y = simp bit_and-bitwise (omega arith)
halve-bit_and (suc x) y = omega (
  arith,
  bit_and-bitwise (suc x) y,
  bit_and-bitwise (suc x / 2) (y / 2),
  any_fuel (λ _. 0) min x (suc x / 2) (suc x / 2) (y / 2) (omega arith) (omega arith),
)

halve-bit_or : (x y : ℕ) → max (x % 2) (y % 2) + 2 * bit_or (x / 2) (y / 2) ≡ bit_or x y
halve-bit_or zero y = simp bit_or-bitwise (omega arith)
halve-bit_or (suc x) y = omega (
  arith,
  bit_or-bitwise (suc x) y,
  bit_or-bitwise (suc x / 2) (y / 2),
  any_fuel (λ y. y) max x (suc x / 2) (suc x / 2) (y / 2) (omega arith) (omega arith),
)

pub bit-lt : (x i : ℕ) → bit x i < 2
unfolding bit
bit-lt x zero = omega arith
bit-lt x (suc i) = bit-lt (x / 2) i

pub bit-bit_and : (a b i : ℕ) → bit (bit_and a b) i ≡ min (bit a i) (bit b i)
unfolding bit
bit-bit_and a b zero = omega (arith, halve-bit_and a b)
bit-bit_and a b (suc i) =
    let half : bit_and a b / 2 ≡ bit_and (a / 2) (b / 2) = omega (arith, halve-bit_and a b) in
    rw half (bit-bit_and (a / 2) (b / 2) i)

pub bit-bit_or : (a b i : ℕ) → bit (bit_or a b) i ≡ max (bit a i) (bit b i)
unfolding bit
bit-bit_or a b zero = omega (arith, halve-bit_or a b)
bit-bit_or a b (suc i) =
    let half : bit_or a b / 2 ≡ bit_or (a / 2) (b / 2) = omega (arith, halve-bit_or a b) in
    rw half (bit-bit_or (a / 2) (b / 2) i)

pub bit-zero : (i : ℕ) → bit 0 i ≡ 0
unfolding bit
bit-zero zero = refl
bit-zero (suc i) = bit-zero i

pub bit-pow : (b i : ℕ) → bit (2 ^ b) i ≡ (if b == i then 1 else 0)
unfolding bit
bit-pow zero zero = refl
bit-pow zero (suc i) = ground (arith, bit-zero i)
bit-pow (suc b) zero = ground (arith, pow-suc 2 b)
bit-pow (suc b) (suc i) =
    let half : 2 ^ suc b / 2 ≡ 2 ^ b = omega (arith, pow-suc 2 b) in
    rw half (ground (arith, bit-pow b i))

-- A number below `2 ^ w` has no digit from place `w` on.
pub bit-high : (w x i : ℕ) → x < 2 ^ w → w ≤ i → bit x i ≡ 0
unfolding bit
bit-high zero x i h p = let e : x ≡ 0 = omega arith in rw e (bit-zero i)
bit-high (suc w) x zero h p = absurd (omega arith)
bit-high (suc w) x (suc i) h p = bit-high w (x / 2) i (omega (arith, pow-suc 2 w)) (omega arith)

differ_digits : (x y : ℕ) → x < 2 → y < 2 → differ x y ≡ (x + y) % 2
differ_digits zero y p q = omega arith
differ_digits (suc zero) zero p q = refl
differ_digits (suc zero) (suc zero) p q = refl
differ_digits (suc zero) (suc (suc y)) p q = absurd (omega arith)
differ_digits (suc (suc x)) y p q = absurd (omega arith)

bit_xor_step : (a b : ℕ) → bit_xor a b ≡ bit_xor (a / 2) (b / 2) * 2 + (a % 2 + b % 2) % 2
bit_xor_step zero b = simp bit_xor-bitwise (omega arith)
bit_xor_step (suc a) b = omega (
  arith,
  bit_xor-bitwise (suc a) b,
  bit_xor-bitwise (suc a / 2) (b / 2),
  any_fuel (λ y. y) differ a (suc a / 2) (suc a / 2) (b / 2) (omega arith) (omega arith),
  differ_digits (suc a % 2) (b % 2) (omega arith) (omega arith),
)

-- `c` determines `a` from `a ^ c`.
bit_xor-cancel_fuel : (n a b c : ℕ) → a ≤ n → b ≤ n → bit_xor a c ≡ bit_xor b c → a ≡ b
bit_xor-cancel_fuel zero a b c p q e = omega arith
bit_xor-cancel_fuel (suc n) a b c p q e = omega (
  arith,
  bit_xor_step a c,
  bit_xor_step b c,
  bit_xor-cancel_fuel n (a / 2) (b / 2) (c / 2) (omega arith) (omega arith)
      (omega (arith, bit_xor_step a c, bit_xor_step b c)),
)

pub bit_xor-cancel : (a b c : ℕ) → bit_xor a c ≡ bit_xor b c → a ≡ b
bit_xor-cancel a b c e = bit_xor-cancel_fuel (a + b) a b c (omega arith) (omega arith) e

bit_xor-cancel_left_fuel : (n a b c : ℕ) → b ≤ n → c ≤ n → bit_xor a b ≡ bit_xor a c → b ≡ c
bit_xor-cancel_left_fuel zero a b c p q e = omega arith
bit_xor-cancel_left_fuel (suc n) a b c p q e = omega (
  arith,
  bit_xor_step a b,
  bit_xor_step a c,
  bit_xor-cancel_left_fuel n (a / 2) (b / 2) (c / 2) (omega arith) (omega arith)
      (omega (arith, bit_xor_step a b, bit_xor_step a c)),
)

pub bit_xor-cancel_left : (a b c : ℕ) → bit_xor a b ≡ bit_xor a c → b ≡ c
bit_xor-cancel_left a b c e = bit_xor-cancel_left_fuel (b + c) a b c (omega arith) (omega arith) e

pub bit_xor-lt : (w a b : ℕ) → a < 2 ^ w → b < 2 ^ w → bit_xor a b < 2 ^ w
bit_xor-lt zero a b p q =
    let ea : a ≡ 0 = omega arith in let eb : b ≡ 0 = omega arith in rw (ea, eb) (omega arith)
bit_xor-lt (suc w) a b p q = omega (
  arith,
  bit_xor_step a b,
  pow-suc 2 w,
  bit_xor-lt w (a / 2) (b / 2) (omega (arith, pow-suc 2 w)) (omega (arith, pow-suc 2 w)),
)

bit_and-zero_fuel : (n a : ℕ) → a ≤ n → bit_and a 0 ≡ 0
bit_and-zero_fuel zero a h = let e : a ≡ 0 = omega arith in rw e
bit_and-zero_fuel (suc n) zero h = refl
bit_and-zero_fuel (suc n) (suc a) h =
    omega (arith, halve-bit_and (suc a) 0, bit_and-zero_fuel n (suc a / 2) (omega arith))

-- `x & (1 << b)`
pub bit_and-pow : (x b : ℕ) → bit_and x (2 ^ b) ≡ bit x b * 2 ^ b
unfolding bit
bit_and-pow x zero =
    omega (arith, halve-bit_and x 1, bit_and-zero_fuel (x / 2) (x / 2) (omega arith))
bit_and-pow x (suc b) =
    let half : 2 ^ suc b / 2 ≡ 2 ^ b = omega (arith, pow-suc 2 b) in
    let twice : bit (x / 2) b * 2 ^ suc b ≡ bit (x / 2) b * 2 ^ b * 2 =
      omega (arith, ap (λ (t : ℕ). bit (x / 2) b * t) (pow-suc 2 b)) in
    omega (
      arith,
      halve-bit_and x (2 ^ suc b),
      pow-suc 2 b,
      twice,
      ap (λ (t : ℕ). bit_and (x / 2) t) half,
      bit_and-pow (x / 2) b,
    )

bit-ones : (w i : ℕ) → i < w → bit (2 ^ w - 1) i ≡ 1
unfolding bit
bit-ones zero i h = absurd (omega arith)
bit-ones (suc w) zero h = omega (arith, pow-suc 2 w, one-le-pow w 2)
bit-ones (suc w) (suc i) h =
    let half : (2 ^ suc w - 1) / 2 ≡ 2 ^ w - 1 = omega (arith, pow-suc 2 w) in
    rw half (bit-ones w i (omega arith))

pub pow-lt : (b w : ℕ) → b < w → 2 ^ b < 2 ^ w
pow-lt b zero h = absurd (omega arith)
pow-lt zero (suc w) h = omega (arith, pow-suc 2 w, one-le-pow w 2)
pow-lt (suc b) (suc w) h = omega (arith, pow-suc 2 w, pow-suc 2 b, pow-lt b w (omega arith))

-- The digits of `~(1 << b)` in a word of `w` digits.
pub bit-mask : (w b i : ℕ) → b < w → i < w → bit (2 ^ w - 1 - 2 ^ b) i ≡ (if b == i then 0 else 1)
unfolding bit
bit-mask zero b i p q = absurd (omega arith)
bit-mask (suc w) zero zero p q = omega (arith, pow-suc 2 w)
bit-mask (suc w) zero (suc i) p q =
    let half : (2 ^ suc w - 1 - 2 ^ 0) / 2 ≡ 2 ^ w - 1 = omega (arith, pow-suc 2 w) in
    rw half (ground (arith, bit-ones w i))
bit-mask (suc w) (suc b) zero p q = ground (arith, pow-suc 2 w, pow-suc 2 b, pow-lt b w)
bit-mask (suc w) (suc b) (suc i) p q =
    let half : (2 ^ suc w - 1 - 2 ^ suc b) / 2 ≡ 2 ^ w - 1 - 2 ^ b =
      omega (arith, pow-suc 2 w, pow-suc 2 b) in
    rw half (ground (arith, bit-mask w b i))

pub bit_or-lt : (w a b : ℕ) → a < 2 ^ w → b < 2 ^ w → bit_or a b < 2 ^ w
bit_or-lt zero a b p q =
    let ea : a ≡ 0 = omega arith in let eb : b ≡ 0 = omega arith in rw (ea, eb) (omega arith)
bit_or-lt (suc w) a b p q = omega (
  arith,
  halve-bit_or a b,
  pow-suc 2 w,
  bit_or-lt w (a / 2) (b / 2) (omega (arith, pow-suc 2 w)) (omega (arith, pow-suc 2 w)),
)

pub bit_and-le : (n a b : ℕ) → a ≤ n → bit_and a b ≤ a
bit_and-le zero a b h = let e : a ≡ 0 = omega arith in rw e (omega (arith, bit_and-bitwise 0 b))
bit_and-le (suc n) zero b h = omega (arith, bit_and-bitwise 0 b)
bit_and-le (suc n) (suc a) b h =
    omega (arith, halve-bit_and (suc a) b, bit_and-le n (suc a / 2) (b / 2) (omega arith))

pub bit-add_one : (x i : ℕ) → bit x (i + 1) ≡ bit (x / 2) i
unfolding bit
bit-add_one x i = rw add-one
