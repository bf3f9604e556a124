-- ===== src/Transaction/Dedup/Keys.antt =====
-- Cache keys: `generateCacheKey` of transaction-deduplication.service.ts.
use v2_xrpl_tools.Prelude.{◌≡◌}
use v2_xrpl_tools.Prelude.Decimal.{show-IsPlain, show-injective, marked-injective}
use v2_xrpl_tools.Transaction.Dedup.{DeduplicationKey, generate_cache_key}

-- Two deduplication keys have the same cache key only if they are the same key, whatever characters
-- stand in the transaction hashes.
pub generate_cache_key-injective :
    (j k : DeduplicationKey) → generate_cache_key j ≡ generate_cache_key k → j ≡ k
unfolding generate_cache_key
generate_cache_key-injective j k e =
    let (hashes, shown) =
      marked-injective j.transaction_hash k.transaction_hash (show-IsPlain j.ledger_index)
        (show-IsPlain k.ledger_index) e in
    let indices = show-injective j.ledger_index k.ledger_index shown in
    λ i. record { transaction_hash = hashes i; ledger_index = indices i }
