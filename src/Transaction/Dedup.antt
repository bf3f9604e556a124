-- ===== src/Transaction/Dedup.antt =====
-- src/features/transaction-processing/services/transaction-deduplication.service.ts: the cache of
-- transactions that were seen. Times are milliseconds; `new Date()` and `Date.now()` are the
-- argument `now`. Log lines are left out.
pub mod Keys
pub mod Sorting
pub mod Bounds
pub mod Eviction
pub mod Lookup
mod Tests
use Prim.Native.String.{◌++◌}
use v2_xrpl_tools.Prelude.{
  ℕ, ◌+◌, ◌-◌, ◌*◌, ◌/◌, Bool, true, false, not, Option, none, some, List, [], ◌∷◌, map, String,
  ltb, leb, if◌then◌else◌, length, take,
}
use v2_xrpl_tools.Prelude.Map
use v2_xrpl_tools.Prelude.Map.{Map}
use v2_xrpl_tools.Prelude.Decimal.{show}

pub record DeduplicationKey : Type 0 where
  pub transaction_hash : String
  pub ledger_index : ℕ

pub record ProcessedTransaction : Type 0 where
  pub id : String
  pub processed : Bool
  pub processed_at : Option ℕ
  pub errors : Option (List String)

abbrev pub Cache : Type 0
Cache = Map ProcessedTransaction

pub record Deduplication : Type 0 where
  pub cache : Cache
  pub cleanup_running : Bool

-- DEDUPLICATION_CACHE_MAX_SIZE
abbrev pub max_size : ℕ
max_size = 10000

-- DEDUPLICATION_CACHE_TTL * 1000
abbrev pub ttl_ms : ℕ
ttl_ms = 3600 * 1000

-- Math.floor(DEDUPLICATION_CACHE_MAX_SIZE * 0.8)
abbrev pub target_size : ℕ
target_size = max_size * 8 / 10

unfoldable pub generate_cache_key : DeduplicationKey → String
generate_cache_key key = key.transaction_hash ++ ("_" ++ show key.ledger_index)

unfoldable pub is_duplicate : Deduplication → DeduplicationKey → Bool
is_duplicate s key = Map.has (generate_cache_key key) s.cache

-- `value.processedAt?.getTime() || 0`
unfoldable pub time_of : ProcessedTransaction → ℕ
time_of p = elim p.processed_at [ none ↦ 0 | some t ↦ t ]

-- `Array.prototype.sort` is stable: an entry goes in front of the first one that is not older.
unfoldable pub insert_by_time : String × ProcessedTransaction → Cache → Cache
insert_by_time e [] = e ∷ []
insert_by_time e (d ∷ es) =
    if leb (time_of e.1) (time_of d.1) then e ∷ d ∷ es else d ∷ insert_by_time e es

unfoldable pub sort_by_time : Cache → Cache
sort_by_time [] = []
sort_by_time (e ∷ es) = insert_by_time e (sort_by_time es)

unfoldable pub delete_entries : Cache → Cache → Cache
delete_entries [] m = m
delete_entries (e ∷ es) m = delete_entries es (Map.delete e.0 m)

-- `entriesToRemove <= 0` is `cache.size <= targetSize`: the subtraction is exact after the test.
unfoldable pub evict_to : ℕ → Cache → Cache
evict_to target m =
    if leb (length m) target
    then m
    else delete_entries (take (length m - target) (sort_by_time m)) m

unfoldable pub evict_oldest_entries : Cache → Cache
unfolding evict_to
evict_oldest_entries m = evict_to target_size m

unfoldable pub enforce_limit : Cache → Cache
enforce_limit m = if ltb max_size (length m) then evict_oldest_entries m else m

abbrev pub processed_entry : String → ℕ → ProcessedTransaction
processed_entry key now = record {
  id = key;
  processed = true;
  processed_at = some now;
  errors = none;
}

abbrev pub failed_entry : String → ℕ → List String → ProcessedTransaction
failed_entry key now errors = record {
  id = key;
  processed = false;
  processed_at = some now;
  errors = some errors;
}

unfoldable pub mark_as_processed : ℕ → DeduplicationKey → Deduplication → Deduplication
mark_as_processed now key s =
    let k = generate_cache_key key in
    record s { cache = enforce_limit (Map.set k (processed_entry k now) s.cache) }

unfoldable pub mark_as_failed : ℕ → DeduplicationKey → List String → Deduplication → Deduplication
mark_as_failed now key errors s =
    let k = generate_cache_key key in
    record s { cache = Map.set k (failed_entry k now errors) s.cache }

unfoldable pub get_processed_transaction :
    Deduplication → DeduplicationKey → Option ProcessedTransaction
get_processed_transaction s key = Map.get (generate_cache_key key) s.cache

unfoldable pub clear_cache : Deduplication → Deduplication
clear_cache s = record s { cache = [] }

pub record CacheStats : Type 0 where
  pub size : ℕ
  pub max_size : ℕ
  pub hit_rate : ℕ
  pub memory_usage : ℕ

unfoldable pub get_cache_stats : Deduplication → CacheStats
get_cache_stats s = record {
  size = length s.cache;
  max_size = max_size;
  hit_rate = 0;
  memory_usage = length s.cache * (64 + 200);
}

-- `age > ttlMs`; a time in the future has a negative age and is kept.
unfoldable pub is_expired : ℕ → ProcessedTransaction → Bool
is_expired now p = elim p.processed_at [ none ↦ false | some t ↦ ltb ttl_ms (now - t) ]

-- the loop over `cache.entries()`, which deletes the entry that it stands at
unfoldable pub cleanup_loop : ℕ → Cache → Cache → Cache
cleanup_loop now [] m = m
cleanup_loop now ((k, v) ∷ es) m =
    cleanup_loop now es (if is_expired now v then Map.delete k m else m)

unfoldable pub cleanup_expired_entries : ℕ → Deduplication → Deduplication
cleanup_expired_entries now s = record s { cache = cleanup_loop now s.cache s.cache }

unfoldable pub is_duplicate_batch : Deduplication → List DeduplicationKey → List Bool
is_duplicate_batch s keys = map (λ key. Map.has (generate_cache_key key) s.cache) keys

unfoldable pub set_all : ℕ → List DeduplicationKey → Cache → Cache
set_all now [] m = m
set_all now (key ∷ keys) m =
    let k = generate_cache_key key in set_all now keys (Map.set k (processed_entry k now) m)

unfoldable pub mark_batch_as_processed : ℕ → List DeduplicationKey → Deduplication → Deduplication
mark_batch_as_processed now keys s = record s { cache = enforce_limit (set_all now keys s.cache) }

-- the constructor, with `startCacheCleanup`
abbrev pub new_deduplication : Deduplication
new_deduplication = record { cache = []; cleanup_running = true }

unfoldable pub destroy : Deduplication → Deduplication
destroy s = record { cache = []; cleanup_running = false }
