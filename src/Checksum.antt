-- ===== src/Checksum.antt =====
-- include/exsim/util/checksum.hpp. Arithmetic is in `std::uint64_t`.
pub mod Laws
use exchange_and_feed_handle.Base.{ℕ, ◌+◌, ◌*◌, ◌/◌, ◌%◌, ◌^◌, List, [], ◌∷◌, bit_xor}

abbrev pub fnv_offset : ℕ
fnv_offset = 1469598103934665603

abbrev pub fnv_prime : ℕ
fnv_prime = 1099511628211

-- One round of the loop of `fnv1a64`.
unfoldable pub fnv_step : ℕ → ℕ → ℕ
fnv_step h b = bit_xor h b * fnv_prime % 2 ^ 64

unfoldable pub fnv_loop : ℕ → List ℕ → ℕ
fnv_loop h [] = h
fnv_loop h (b ∷ bs) = fnv_loop (fnv_step h b) bs

unfoldable pub fnv1a64 : List ℕ → ℕ
unfolding fnv_loop fnv_step
fnv1a64 bs = fnv_loop fnv_offset bs

abbrev pub shr : ℕ → ℕ → ℕ
shr x k = x / 2 ^ k

unfoldable pub mix64 : ℕ → ℕ
mix64 x =
    let a : ℕ = (x + 0x9e37_79b9_7f4a_7c15) % 2 ^ 64 in
    let b : ℕ = bit_xor a (shr a 30) * 0xbf58_476d_1ce4_e5b9 % 2 ^ 64 in
    let c : ℕ = bit_xor b (shr b 27) * 0x94d0_49bb_1331_11eb % 2 ^ 64 in bit_xor c (shr c 31)

-- The new value of `h`; `(h << 6)` drops what leaves the word.
unfoldable pub hash_combine : ℕ → ℕ → ℕ
unfolding mix64
hash_combine h v =
    bit_xor h (mix64 ((v + 0x9e37_79b9_7f4a_7c15 + h * 2 ^ 6 % 2 ^ 64 + shr h 2) % 2 ^ 64))
