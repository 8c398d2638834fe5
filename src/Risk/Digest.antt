-- ===== src/Risk/Digest.antt =====
-- `RiskEngine::checksum` of src/risk.cpp. It goes through an `std::unordered_map`, whose order the code
-- does not choose: that order is a parameter.
use exchange_and_feed_handle.Base.{ℕ, List, [], ◌∷◌}
use exchange_and_feed_handle.Base.Map.{Map}
use exchange_and_feed_handle.Checksum.{hash_combine}
use exchange_and_feed_handle.Risk.{AccountState, RiskEngine}

unfoldable pub hash_accounts : List (ℕ × AccountState) → ℕ → ℕ
hash_accounts [] h = h
hash_accounts ((acct, s) ∷ accounts) h =
    hash_accounts accounts
      (hash_combine (hash_combine (hash_combine h acct) s.open_orders) s.open_notional)

unfoldable pub checksum : (Map AccountState → List (ℕ × AccountState)) → RiskEngine → ℕ
checksum order r = hash_accounts (order r.accounts) 0x5249_534b_4348_4b53
