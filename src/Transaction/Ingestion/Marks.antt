-- ===== src/Transaction/Ingestion/Marks.antt =====
-- A committed batch against the deduplication cache.
use v2_xrpl_tools.Prelude.{ℕ, ◌+◌, ◌≤◌, ◌≡◌, ap, Bool, true, List, [], ◌∷◌, arith, length, All}
use text.Mathlib.TextPositions.{eq_refl}
use v2_xrpl_tools.Prelude.Map
use v2_xrpl_tools.Prelude.Map.{get-set, length-set}
use v2_xrpl_tools.Transaction.Data.{NftTransactionData}
use v2_xrpl_tools.Transaction.Dedup.{
  Deduplication, max_size, generate_cache_key, processed_entry, is_duplicate, mark_as_processed,
  enforce_limit,
}
use v2_xrpl_tools.Transaction.Ingestion.{
  writing, Ingestion, finish, commit, key_of, commit_flight, finish_flight, step, run, mark_all,
}

mark_within :
    (now : ℕ) (t : NftTransactionData) (d : Deduplication)
    → length d.cache + 1 ≤ max_size
    → (mark_as_processed now (key_of t) d).cache
      ≡ Map.set
          (generate_cache_key (key_of t))
          (processed_entry (generate_cache_key (key_of t)) now)
          d.cache
unfolding mark_as_processed enforce_limit
mark_within now t d h =
    let k = generate_cache_key (key_of t) in
    ground (arith, length-set k (processed_entry k now) d.cache)

length-mark_within :
    (now : ℕ) (t : NftTransactionData) (d : Deduplication)
    → length d.cache + 1 ≤ max_size
    → length (mark_as_processed now (key_of t) d).cache ≤ length d.cache + 1
length-mark_within now t d h =
    let k = generate_cache_key (key_of t) in
    ground (arith, ap length (mark_within now t d h), length-set k (processed_entry k now) d.cache)

-- A key that is marked stays marked while there is room.
mark_keeps :
    (now : ℕ) (t u : NftTransactionData) (d : Deduplication)
    → length d.cache + 1 ≤ max_size
    → is_duplicate d (key_of u) ≡ true
    → is_duplicate (mark_as_processed now (key_of t) d) (key_of u) ≡ true
unfolding is_duplicate
mark_keeps now t u d h e =
    let k = generate_cache_key (key_of t) in
    let j = generate_cache_key (key_of u) in
    ground
      (arith, ap (Map.get j) (mark_within now t d h), get-set k j (processed_entry k now) d.cache)

mark_marks :
    (now : ℕ) (t : NftTransactionData) (d : Deduplication)
    → length d.cache + 1 ≤ max_size
    → is_duplicate (mark_as_processed now (key_of t) d) (key_of t) ≡ true
unfolding is_duplicate
mark_marks now t d h =
    let k = generate_cache_key (key_of t) in
    ground (
      arith,
      ap (Map.get k) (mark_within now t d h),
      get-set k k (processed_entry k now) d.cache,
      eq_refl k,
    )

mark_all_keeps :
    (now : ℕ) (ts : List NftTransactionData) (u : NftTransactionData) (d : Deduplication)
    → length d.cache + length ts ≤ max_size
    → is_duplicate d (key_of u) ≡ true
    → is_duplicate (mark_all now ts d) (key_of u) ≡ true
unfolding mark_all
mark_all_keeps now [] u d h e = e
mark_all_keeps now (t ∷ ts) u d h e =
    mark_all_keeps now ts u (mark_as_processed now (key_of t) d)
      (omega (arith, length-mark_within now t d (omega arith)))
      (mark_keeps now t u d (omega arith) e)

mark_all_marks :
    (now : ℕ) (ts : List NftTransactionData) (d : Deduplication)
    → length d.cache + length ts ≤ max_size
    → All (λ t. is_duplicate (mark_all now ts d) (key_of t) ≡ true) ts
unfolding mark_all
mark_all_marks now [] d h = tt
mark_all_marks now (t ∷ ts) d h =
    let room : length (mark_as_processed now (key_of t) d).cache + length ts ≤ max_size =
      omega (arith, length-mark_within now t d (omega arith)) in
    (
      mark_all_keeps now ts t (mark_as_processed now (key_of t) d) room
          (mark_marks now t d (omega arith)),
      mark_all_marks now ts (mark_as_processed now (key_of t) d) room,
    )

-- A committed batch is not taken again: where the cache has room for it, every transaction of a
-- batch whose write has succeeded is a duplicate from then on.
pub commit-is_duplicate :
    (s : Ingestion) (batch : List NftTransactionData) (c : Bool) (now : ℕ)
    → s.flight ≡ writing batch c
    → length s.deduplication.cache + length batch ≤ max_size
    → All
        (λ t. is_duplicate (run (commit now ∷ finish ∷ []) s).deduplication (key_of t) ≡ true)
        batch
unfolding run step commit_flight finish_flight
commit-is_duplicate s batch c now f h = rw f (mark_all_marks now batch s.deduplication h)
