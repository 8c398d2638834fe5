-- ===== src/Checksum/Laws.antt =====
-- `fnv1a64` as a map: each round is injective in the hash and in the byte.
use exchange_and_feed_handle.Base.{
  ℕ, ◌*◌, ◌%◌, ◌^◌, ◌<◌, ◌≡◌, ◌≢◌, sym, ◌∙◌, ap, List, [], ◌∷◌, ◌++◌, arith,
}
use exchange_and_feed_handle.Base.Bits.{bit_xor-cancel, bit_xor-cancel_left, bit_xor-lt}
use exchange_and_feed_handle.Codec.{AreBytes}
use exchange_and_feed_handle.Checksum.{fnv_prime, fnv_step, fnv_loop, fnv1a64, fnv_offset}

-- The inverse of `fnv_prime` modulo 2 ^ 64.
abbrev unprime : ℕ
unprime = 14886173955864302971

undo : (x : ℕ) → x < 2 ^ 64 → x * fnv_prime % 2 ^ 64 * unprime % 2 ^ 64 ≡ x
undo x h = omega arith

cancel_prime :
    (x y : ℕ) → x < 2 ^ 64 → y < 2 ^ 64 → x * fnv_prime % 2 ^ 64 ≡ y * fnv_prime % 2 ^ 64 → x ≡ y
cancel_prime x y p q e = sym (undo x p) ∙ ap (λ (t : ℕ). t * unprime % 2 ^ 64) e ∙ undo y q

fnv_step-lt : (h b : ℕ) → fnv_step h b < 2 ^ 64
unfolding fnv_step
fnv_step-lt h b = omega arith

fnv_step-cancel :
    (g h b : ℕ) → g < 2 ^ 64 → h < 2 ^ 64 → b < 256 → fnv_step g b ≡ fnv_step h b → g ≡ h
unfolding fnv_step
fnv_step-cancel g h b p q r e =
    bit_xor-cancel g h b
      (cancel_prime _ _ (bit_xor-lt 64 g b p (omega arith)) (bit_xor-lt 64 h b q (omega arith)) e)

fnv_step-cancel_byte :
    (h b c : ℕ) → h < 2 ^ 64 → b < 256 → c < 256 → fnv_step h b ≡ fnv_step h c → b ≡ c
unfolding fnv_step
fnv_step-cancel_byte h b c p q r e =
    bit_xor-cancel_left h b c
      (cancel_prime _ _ (bit_xor-lt 64 h b p (omega arith)) (bit_xor-lt 64 h c p (omega arith)) e)

fnv_loop-cancel :
    (g h : ℕ) (bs : List ℕ)
    → g < 2 ^ 64
    → h < 2 ^ 64
    → AreBytes bs
    → fnv_loop g bs ≡ fnv_loop h bs
    → g ≡ h
unfolding fnv_loop
fnv_loop-cancel g h [] p q r e = e
fnv_loop-cancel g h (b ∷ bs) p q r e =
    fnv_step-cancel g h b p q r.0
      (fnv_loop-cancel (fnv_step g b) (fnv_step h b) bs (fnv_step-lt g b) (fnv_step-lt h b) r.1 e)

fnv_loop-cancel_byte :
    (h b c : ℕ) (xs ys : List ℕ)
    → h < 2 ^ 64
    → b < 256
    → c < 256
    → AreBytes ys
    → fnv_loop h (xs ++ (b ∷ ys)) ≡ fnv_loop h (xs ++ (c ∷ ys))
    → b ≡ c
unfolding fnv_loop
fnv_loop-cancel_byte h b c [] ys p q r w e =
    fnv_step-cancel_byte h b c p q r
      (fnv_loop-cancel (fnv_step h b) (fnv_step h c) ys (fnv_step-lt h b) (fnv_step-lt h c) w e)
fnv_loop-cancel_byte h b c (x ∷ xs) ys p q r w e =
    fnv_loop-cancel_byte (fnv_step h x) b c xs ys (fnv_step-lt h x) q r w e

pub fnv1a64-cancel_byte :
    (b c : ℕ) (xs ys : List ℕ)
    → b < 256
    → c < 256
    → AreBytes ys
    → fnv1a64 (xs ++ (b ∷ ys)) ≡ fnv1a64 (xs ++ (c ∷ ys))
    → b ≡ c
unfolding fnv1a64
fnv1a64-cancel_byte b c xs ys q r w e =
    fnv_loop-cancel_byte fnv_offset b c xs ys (omega arith) q r w e

-- Two byte strings that differ in exactly one byte have different hashes.
pub fnv1a64_one_byte :
    (b c : ℕ) (xs ys : List ℕ)
    → b < 256
    → c < 256
    → AreBytes ys
    → b ≢ c
    → fnv1a64 (xs ++ (b ∷ ys)) ≢ fnv1a64 (xs ++ (c ∷ ys))
fnv1a64_one_byte b c xs ys q r w ne e = ne (fnv1a64-cancel_byte b c xs ys q r w e)

fnv_loop-lt : (h : ℕ) (bs : List ℕ) → h < 2 ^ 64 → fnv_loop h bs < 2 ^ 64
unfolding fnv_loop
fnv_loop-lt h [] p = p
fnv_loop-lt h (b ∷ bs) p = fnv_loop-lt (fnv_step h b) bs (fnv_step-lt h b)

pub fnv1a64-lt : (bs : List ℕ) → fnv1a64 bs < 2 ^ 64
unfolding fnv1a64
fnv1a64-lt bs = fnv_loop-lt fnv_offset bs (omega arith)
