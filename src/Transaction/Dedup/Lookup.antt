-- ===== src/Transaction/Dedup/Lookup.antt =====
-- What a lookup finds after the cache's operations.
use v2_xrpl_tools.Prelude.{
  ℕ, ◌-◌, ◌≤◌, ◌≡◌, refl, sym, ap, ◌∙◌, inl, inr, Bool, true, false, Option, none, some, [], ◌∷◌,
  ◌++◌, String, arith, str_eq, leb, ltb, ◌||◌, ◌&&◌, if◌then◌else◌, Bool-cases, length,
  length-append, take, take-append,
}
use mathlib.Core.Option
use text.Mathlib.TextPositions.{eq_refl}
use v2_xrpl_tools.Prelude.Map
use v2_xrpl_tools.Prelude.Map.{occurs, IsMap, get-set, get-delete, get-none, set-new, length-set}
use v2_xrpl_tools.Transaction.Dedup.{
  DeduplicationKey, ProcessedTransaction, Cache, Deduplication, max_size, target_size, time_of,
  sort_by_time, evict_oldest_entries, enforce_limit, generate_cache_key, processed_entry,
  mark_as_processed, is_expired, cleanup_loop, cleanup_expired_entries, get_processed_transaction,
}
use v2_xrpl_tools.Transaction.Dedup.Sorting.{
  IsUntil, sort_by_time-append, occurs-sort_by_time, length-sort_by_time,
}
use v2_xrpl_tools.Transaction.Dedup.Bounds.{IsBounded, occurs-take}
use v2_xrpl_tools.Transaction.Dedup.Eviction.{get-delete_entries}

occurs_of_new : (k : String) (m : Cache) → Map.get k m ≡ none → occurs k m ≡ 0
unfolding occurs Map.get
occurs_of_new k [] h = refl
occurs_of_new k ((j, v) ∷ m) h = ground (arith, occurs_of_new k m)

-- The newest entry survives an eviction.
evict-newest :
    (k : String) (v : ProcessedTransaction) (m : Cache)
    → Map.get k m ≡ none
    → IsUntil m (time_of v)
    → Map.get k (evict_oldest_entries (m ++ (k, v) ∷ [])) ≡ Map.get k (m ++ (k, v) ∷ [])
unfolding evict_oldest_entries
evict-newest k v m h t = elim (Bool-cases (leb (length (m ++ (k, v) ∷ [])) target_size)) [
  | inl e ↦ rw e
  | inr e ↦
      let n : ℕ = length (m ++ (k, v) ∷ []) - target_size in
      let short : n ≤ length (sort_by_time m) =
        omega (arith, length-sort_by_time m, length-append m ((k, v) ∷ [])) in
      let old : take n (sort_by_time (m ++ (k, v) ∷ [])) ≡ take n (sort_by_time m) =
        ap (take n) (sort_by_time-append m (k, v) t)
        ∙ take-append n (sort_by_time m) ((k, v) ∷ []) short in
      let kept : occurs k (take n (sort_by_time (m ++ (k, v) ∷ []))) ≡ 0 = omega (
        arith,
        ap (occurs k) old,
        occurs-take k n (sort_by_time m),
        occurs-sort_by_time k m,
        occurs_of_new k m h,
      ) in
      rw e (
        rw (get-delete_entries k (take n (sort_by_time (m ++ (k, v) ∷ [])))) (ground (arith, kept)))
]

get-set_self :
    (k : String) (v : ProcessedTransaction) (m : Cache) → Map.get k (Map.set k v m) ≡ some v
get-set_self k v m = rw get-set (rw (eq_refl k))

-- Past the limit the key was new, and stands last.
get-evict-set :
    (k : String) (v : ProcessedTransaction) (m : Cache)
    → length m ≤ max_size
    → ltb max_size (length (Map.set k v m)) ≡ true
    → IsUntil m (time_of v)
    → Map.get k (evict_oldest_entries (Map.set k v m)) ≡ some v
get-evict-set k v m h e t =
    let new : Map.get k m ≡ none = ground (arith, length-set k v m) in
    let last : Map.set k v m ≡ m ++ (k, v) ∷ [] = set-new k v m new in
    ap (λ x. Map.get k (evict_oldest_entries x)) last
    ∙ evict-newest k v m new t
    ∙ ap (Map.get k) (sym last)
    ∙ get-set_self k v m

get-enforce_limit-set :
    (k : String) (v : ProcessedTransaction) (m : Cache)
    → length m ≤ max_size
    → IsUntil m (time_of v)
    → Map.get k (enforce_limit (Map.set k v m)) ≡ some v
unfolding enforce_limit
get-enforce_limit-set k v m h t = elim (Bool-cases (ltb max_size (length (Map.set k v m)))) [
  | inl e ↦ rw e (get-evict-set k v m h e t)
  | inr e ↦ rw e (get-set_self k v m)
]

-- A key that is marked as processed at a time no earlier than any entry of a bounded cache is found
-- afterwards, with its new entry, whether or not the mark evicts other entries.
pub get_processed_transaction-mark_as_processed :
    (now : ℕ) (key : DeduplicationKey) (s : Deduplication)
    → IsBounded s
    → IsUntil s.cache now
    → get_processed_transaction (mark_as_processed now key s) key
      ≡ some (processed_entry (generate_cache_key key) now)
unfolding get_processed_transaction mark_as_processed time_of
get_processed_transaction-mark_as_processed now key s h t =
    let k = generate_cache_key key in
    get-enforce_limit-set k (processed_entry k now) s.cache h.within t

-- some entry of the key in the list has expired
expired_in : ℕ → String → Cache → Bool
expired_in now k [] = false
expired_in now k ((j, v) ∷ es) = str_eq j k && is_expired now v || expired_in now k es

get-cleanup_loop :
    (now : ℕ) (k : String) (es m : Cache)
    → Map.get k (cleanup_loop now es m) ≡ (if expired_in now k es then none else Map.get k m)
unfolding cleanup_loop expired_in
get-cleanup_loop now k [] m = refl
get-cleanup_loop now k ((j, v) ∷ es) m = elim (Bool-cases (is_expired now v)) [
  | inl e ↦ rw e (ground (arith, get-cleanup_loop now k es (Map.delete j m), get-delete j k m))
  | inr e ↦ rw e (ground (arith, get-cleanup_loop now k es m))
]

-- what the loop decides of the entry that a lookup finds
abbrev pub unexpired : ℕ → ProcessedTransaction → Option ProcessedTransaction
unexpired now v = if is_expired now v then none else some v

expired_in_absent : (now : ℕ) (k : String) (m : Cache) → occurs k m ≡ 0 → expired_in now k m ≡ false
unfolding expired_in occurs
expired_in_absent now k [] h = refl
expired_in_absent now k ((j, v) ∷ m) h = ground (arith, expired_in_absent now k m)

expired_in_once :
    (now : ℕ) (k : String) (m : Cache)
    → occurs k m ≤ 1
    → (if expired_in now k m then none else Map.get k m) ≡ Option.bind (Map.get k m) (unexpired now)
unfolding expired_in occurs Map.get Option.bind
expired_in_once now k [] h = refl
expired_in_once now k ((j, v) ∷ m) h = elim (Bool-cases (str_eq j k)) [
  | inl e ↦ let rest = expired_in_absent now k m (ground arith) in ground (arith, rest)
  | inr e ↦ ground (arith, expired_in_once now k m)
]

-- The hourly cleanup removes exactly the entries older than the time to live: every other key has
-- the entry that it had.
pub get_processed_transaction-cleanup_expired_entries :
    (now : ℕ) (key : DeduplicationKey) (s : Deduplication)
    → IsMap s.cache
    → get_processed_transaction (cleanup_expired_entries now s) key
      ≡ Option.bind (get_processed_transaction s key) (unexpired now)
unfolding get_processed_transaction cleanup_expired_entries
get_processed_transaction-cleanup_expired_entries now key s h =
    let k = generate_cache_key key in
    get-cleanup_loop now k s.cache s.cache ∙ expired_in_once now k s.cache (h k)
