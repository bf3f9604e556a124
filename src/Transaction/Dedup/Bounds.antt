-- ===== src/Transaction/Dedup/Bounds.antt =====
-- The size of the deduplication cache.
use v2_xrpl_tools.Prelude.{
  ℕ, zero, suc, ◌+◌, ◌-◌, ◌≤◌, ◌<◌, ◌≡◌, List, [], ◌∷◌, String, arith, min, length, take,
  length-take, leb, ltb, Bool-cases, inl, inr, false,
}
use text.Mathlib.TextPositions.{eq_refl}
use v2_xrpl_tools.Prelude.Map
use v2_xrpl_tools.Prelude.Map.{
  occurs, IsMap, occurs-delete, length-delete, delete-IsMap, set-IsMap, length-set, nil-IsMap,
}
use v2_xrpl_tools.Transaction.Dedup.{
  Cache, Deduplication, DeduplicationKey, max_size, target_size, sort_by_time, delete_entries,
  evict_oldest_entries, enforce_limit, generate_cache_key, mark_as_processed, mark_as_failed,
  set_all, mark_batch_as_processed, cleanup_loop, cleanup_expired_entries, clear_cache, destroy,
  is_expired, processed_entry, failed_entry, new_deduplication, is_duplicate,
}
use v2_xrpl_tools.Transaction.Dedup.Sorting.{occurs-sort_by_time, length-sort_by_time}

pub occurs-take : (k : String) (n : ℕ) (m : Cache) → occurs k (take n m) ≤ occurs k m
unfolding occurs
occurs-take k zero m = omega arith
occurs-take k (suc n) [] = omega arith
occurs-take k (suc n) (e ∷ m) = ground (arith, occurs-take k n m)

occurs_head : (e : String × _) (m : Cache) → 0 < occurs e.0 (e ∷ m)
unfolding occurs
occurs_head e m = ground (arith, eq_refl e.0)

occurs_tail :
    (k : String) (e : String × _) (es m : Cache)
    → occurs k (e ∷ es) ≤ occurs k m
    → occurs k m ≤ 1
    → occurs k es ≤ occurs k (Map.delete e.0 m)
unfolding occurs
occurs_tail k e es m h u = ground (arith, occurs-delete e.0 k m)

-- Deleting distinct entries that are there frees one place for each.
length-delete_entries :
    (es m : Cache)
    → ((k : String) → occurs k es ≤ occurs k m)
    → IsMap m
    → length (delete_entries es m) + length es ≡ length m
unfolding delete_entries
length-delete_entries [] m h u = omega arith
length-delete_entries (e ∷ es) m h u =
    let once : occurs e.0 m ≡ 1 = omega (arith, occurs_head e es, h e.0, u e.0) in
    omega (
      arith,
      length-delete e.0 m,
      length-delete_entries es (Map.delete e.0 m) (λ k. occurs_tail k e es m (h k) (u k))
          (delete-IsMap e.0 m u),
      once,
    )

delete_entries-IsMap : (es m : Cache) → IsMap m → IsMap (delete_entries es m)
unfolding delete_entries
delete_entries-IsMap [] m u = u
delete_entries-IsMap (e ∷ es) m u =
    delete_entries-IsMap es (Map.delete e.0 m) (delete-IsMap e.0 m u)

pub evict_oldest_entries-IsMap : (m : Cache) → IsMap m → IsMap (evict_oldest_entries m)
unfolding evict_oldest_entries
evict_oldest_entries-IsMap m u = elim (Bool-cases (leb (length m) target_size)) [
  | inl e ↦ rw e u
  | inr e ↦ rw e (delete_entries-IsMap _ m u)
]

-- Eviction leaves exactly the target size, or what there was if that is less.
pub length-evict_oldest_entries :
    (m : Cache) → IsMap m → length (evict_oldest_entries m) ≡ min target_size (length m)
unfolding evict_oldest_entries
length-evict_oldest_entries m u = elim (Bool-cases (leb (length m) target_size)) [
  | inl e ↦ rw e (ground arith)
  | inr e ↦
      let n : ℕ = length m - target_size in
      let freed =
        length-delete_entries (take n (sort_by_time m)) m
          (λ k. omega (arith, occurs-take k n (sort_by_time m), occurs-sort_by_time k m)) u in
      rw e (ground (arith, freed, length-take n (sort_by_time m), length-sort_by_time m))
]

enforce_limit-IsMap : (m : Cache) → IsMap m → IsMap (enforce_limit m)
unfolding enforce_limit
enforce_limit-IsMap m u = elim (Bool-cases (ltb max_size (length m))) [
  | inl e ↦ rw e (evict_oldest_entries-IsMap m u)
  | inr e ↦ rw e u
]

length-enforce_limit : (m : Cache) → IsMap m → length (enforce_limit m) ≤ max_size
unfolding enforce_limit
length-enforce_limit m u = ground (arith, length-evict_oldest_entries m u)

pub set_all-IsMap :
    (now : ℕ) (keys : List DeduplicationKey) (m : Cache) → IsMap m → IsMap (set_all now keys m)
unfolding set_all
set_all-IsMap now [] m u = u
set_all-IsMap now (key ∷ keys) m u = set_all-IsMap now keys _ (set-IsMap _ _ m u)

cleanup_loop-IsMap : (now : ℕ) (es m : Cache) → IsMap m → IsMap (cleanup_loop now es m)
unfolding cleanup_loop
cleanup_loop-IsMap now [] m u = u
cleanup_loop-IsMap now ((k, v) ∷ es) m u = elim (Bool-cases (is_expired now v)) [
  | inl e ↦ rw e (cleanup_loop-IsMap now es (Map.delete k m) (delete-IsMap k m u))
  | inr e ↦ rw e (cleanup_loop-IsMap now es m u)
]

length-cleanup_loop : (now : ℕ) (es m : Cache) → length (cleanup_loop now es m) ≤ length m
unfolding cleanup_loop
length-cleanup_loop now [] m = omega arith
length-cleanup_loop now ((k, v) ∷ es) m = elim (Bool-cases (is_expired now v)) [
  | inl e ↦ rw e (omega (arith, length-cleanup_loop now es (Map.delete k m), length-delete k m))
  | inr e ↦ rw e (length-cleanup_loop now es m)
]

-- The cache holds one entry for each key, and no more entries than the limit.
pub record IsBounded (s : Deduplication) : Type 0 where
  pub distinct : IsMap s.cache
  pub within : length s.cache ≤ max_size

-- the operations of the service, but `markAsFailed`
pub data Operation : Type 0 where
  processed : ℕ → DeduplicationKey → Operation
  batch : ℕ → List DeduplicationKey → Operation
  cleanup : ℕ → Operation
  clear stop : Operation

unfoldable pub apply : Operation → Deduplication → Deduplication
apply (processed now key) s = mark_as_processed now key s
apply (batch now keys) s = mark_batch_as_processed now keys s
apply (cleanup now) s = cleanup_expired_entries now s
apply clear s = clear_cache s
apply stop s = destroy s

pub apply-IsBounded : (o : Operation) (s : Deduplication) → IsBounded s → IsBounded (apply o s)
unfolding apply mark_as_processed mark_batch_as_processed cleanup_expired_entries clear_cache
    destroy
apply-IsBounded (processed now key) s h =
    let k = generate_cache_key key in
    let u = set-IsMap k (processed_entry k now) s.cache h.distinct in
    record { distinct = enforce_limit-IsMap _ u; within = length-enforce_limit _ u }
apply-IsBounded (batch now keys) s h =
    let u = set_all-IsMap now keys s.cache h.distinct in
    record { distinct = enforce_limit-IsMap _ u; within = length-enforce_limit _ u }
apply-IsBounded (cleanup now) s h = record {
  distinct = cleanup_loop-IsMap now s.cache s.cache h.distinct;
  within = omega (arith, length-cleanup_loop now s.cache s.cache, h.within);
}
apply-IsBounded clear s h = record { distinct = nil-IsMap _; within = omega arith }
apply-IsBounded stop s h = record { distinct = nil-IsMap _; within = omega arith }

unfoldable pub apply_all : List Operation → Deduplication → Deduplication
apply_all [] s = s
apply_all (o ∷ os) s = apply_all os (apply o s)

pub apply_all-IsBounded :
    (os : List Operation) (s : Deduplication) → IsBounded s → IsBounded (apply_all os s)
unfolding apply_all
apply_all-IsBounded [] s h = h
apply_all-IsBounded (o ∷ os) s h = apply_all-IsBounded os (apply o s) (apply-IsBounded o s h)

-- Through any sequence of processed marks, batch marks, cleanups, clears and shutdowns of a new
-- service the cache keeps one entry for each key and never passes 10000 entries.
pub run-IsBounded : (os : List Operation) → IsBounded (apply_all os new_deduplication)
run-IsBounded os =
    apply_all-IsBounded os new_deduplication
      (record { distinct = nil-IsMap _; within = omega arith })

-- A failure mark is never followed by an eviction: on a key that is not in the cache it adds an
-- entry, also to a full cache.
pub length-mark_as_failed :
    (now : ℕ) (key : DeduplicationKey) (errors : List String) (s : Deduplication)
    → is_duplicate s key ≡ false
    → length (mark_as_failed now key errors s).cache ≡ suc (length s.cache)
unfolding mark_as_failed is_duplicate
length-mark_as_failed now key errors s h =
    let k = generate_cache_key key in
    ground (arith, length-set k (failed_entry k now errors) s.cache)
