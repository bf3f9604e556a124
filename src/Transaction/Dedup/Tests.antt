-- ===== src/Transaction/Dedup/Tests.antt =====
-- The deduplication cache at concrete inputs.
use v2_xrpl_tools.Prelude.{◌≤◌, ◌≡◌, refl, List, [], ◌∷◌, arith, true, false}
use v2_xrpl_tools.Prelude.Map
use v2_xrpl_tools.Prelude.Map.{IsMap, nil-IsMap, set-IsMap}
use v2_xrpl_tools.Prelude.Decimal.{show}
use v2_xrpl_tools.Transaction.Dedup.{
  DeduplicationKey, Cache, Deduplication, new_deduplication, processed_entry, generate_cache_key,
  is_duplicate, cleanup_expired_entries, evict_to, time_of, insert_by_time, sort_by_time,
  delete_entries, is_expired, cleanup_loop,
}
use v2_xrpl_tools.Transaction.Dedup.Bounds.{
  IsBounded, Operation, processed, batch, cleanup, apply_all, run-IsBounded,
}
use v2_xrpl_tools.Transaction.Dedup.Eviction.{evict_to_oldest}

abbrev mint_key : DeduplicationKey
mint_key = record { transaction_hash = "A1_7"; ledger_index = 42 }

abbrev burn_key : DeduplicationKey
burn_key = record { transaction_hash = "B2"; ledger_index = 43 }

mint_key_text : generate_cache_key mint_key ≡ "A1_7_42"
unfolding generate_cache_key show
mint_key_text = refl

abbrev three_operations : List Operation
three_operations = processed 5 mint_key ∷ batch 6 (burn_key ∷ mint_key ∷ []) ∷ cleanup 3600007 ∷ []

run-IsBounded_example : IsBounded (apply_all three_operations new_deduplication)
run-IsBounded_example = run-IsBounded three_operations

abbrev two_entries : Cache
two_entries = Map.set "old" (processed_entry "old" 4) (Map.set "new" (processed_entry "new" 9) [])

two_entries-IsMap : IsMap two_entries
two_entries-IsMap = set-IsMap _ _ _ (set-IsMap _ _ _ (nil-IsMap _))

evict_to_oldest_example : time_of (processed_entry "old" 4) ≤ time_of (processed_entry "new" 9)
unfolding evict_to delete_entries insert_by_time sort_by_time time_of Map.get Map.set Map.delete
evict_to_oldest_example =
    evict_to_oldest 1 two_entries two_entries-IsMap "new" "old" (processed_entry "new" 9)
      (processed_entry "old" 4) refl refl refl

abbrev one_mark : Deduplication
one_mark = record { cache = Map.set "B2_43" (processed_entry "B2_43" 4) []; cleanup_running = true }

one_mark-IsBounded : IsBounded one_mark
unfolding Map.set
one_mark-IsBounded = record { distinct = set-IsMap _ _ _ (nil-IsMap _); within = omega arith }

-- One millisecond past the hour the entry is gone.
cleanup_drops : is_duplicate (cleanup_expired_entries 3600005 one_mark) burn_key ≡ false
unfolding is_duplicate cleanup_expired_entries cleanup_loop is_expired Map.get Map.set Map.delete
    generate_cache_key show
cleanup_drops = refl
