-- ===== src/Transaction/Dedup/Eviction.antt =====
-- Which entries `evictOldestEntries` removes.
use v2_xrpl_tools.Prelude.{
  ℕ, zero, suc, ◌+◌, ◌-◌, ◌≤◌, ◌<◌, ◌≡◌, ◌≢◌, refl, sym, ap, subst, ◌⊎◌, inl, inr, true, false,
  none, some, [], ◌∷◌, String, arith, eq_iff, leb, ◌==◌, if◌then◌else◌, Bool-cases, length, take,
  drop, take-append-drop,
}
use v2_xrpl_tools.Prelude.Map
use v2_xrpl_tools.Prelude.Map.{occurs, IsMap, get-delete, occurs-append}
use v2_xrpl_tools.Transaction.Dedup.{
  ProcessedTransaction, Cache, time_of, sort_by_time, insert_by_time, delete_entries, evict_to,
}
use v2_xrpl_tools.Transaction.Dedup.Sorting.{
  occurs-sort_by_time, IsSince, IsSorted, sort_by_time-IsSorted,
}

-- The entry stands in the list.
abbrev pub Holds : String → ProcessedTransaction → Cache → Type 0
Holds k v [] = ⊥
Holds k v (e ∷ m) = ((e.0 ≡ k) × (e.1 ≡ v)) ⊎ Holds k v m

pub get-Holds :
    (k : String) (v : ProcessedTransaction) (m : Cache) → Map.get k m ≡ some v → Holds k v m
unfolding Map.get
get-Holds k v [] h = cc
get-Holds k v ((j, w) ∷ m) h = ground (arith, eq_iff j k, get-Holds k v m)

Holds-insert_by_time :
    (k : String) (v : ProcessedTransaction) (e : String × ProcessedTransaction) (m : Cache)
    → Holds k v (e ∷ m)
    → Holds k v (insert_by_time e m)
unfolding insert_by_time
Holds-insert_by_time k v e [] h = h
Holds-insert_by_time k v e (d ∷ m) h = ground (arith, Holds-insert_by_time k v e m)

Holds-sort_by_time :
    (k : String) (v : ProcessedTransaction) (m : Cache) → Holds k v m → Holds k v (sort_by_time m)
unfolding sort_by_time
Holds-sort_by_time k v [] h = elim h [ ]
Holds-sort_by_time k v (e ∷ m) (inl h) = Holds-insert_by_time k v e (sort_by_time m) (inl h)
Holds-sort_by_time k v (e ∷ m) (inr h) =
    Holds-insert_by_time k v e (sort_by_time m) (inr (Holds-sort_by_time k v m h))

occurs_of_Holds : (k : String) (v : ProcessedTransaction) (m : Cache) → Holds k v m → 0 < occurs k m
unfolding occurs
occurs_of_Holds k v [] h = elim h [ ]
occurs_of_Holds k v (e ∷ m) (inl h) = ground (arith, eq_iff e.0 k)
occurs_of_Holds k v (e ∷ m) (inr h) = ground (arith, occurs_of_Holds k v m h)

Holds-split :
    (k : String) (v : ProcessedTransaction) (n : ℕ) (m : Cache)
    → Holds k v m
    → Holds k v (take n m) ⊎ Holds k v (drop n m)
Holds-split k v zero m h = inr h
Holds-split k v (suc n) [] h = elim h [ ]
Holds-split k v (suc n) (e ∷ m) (inl h) = inl (inl h)
Holds-split k v (suc n) (e ∷ m) (inr h) = elim (Holds-split k v n m h) [
  | inl p ↦ inl (inr p)
  | inr p ↦ inr p
]

IsSince-Holds :
    (t : ℕ) (k : String) (v : ProcessedTransaction) (n : ℕ) (m : Cache)
    → IsSince t m
    → Holds k v (drop n m)
    → t ≤ time_of v
IsSince-Holds t k v zero [] p h = elim h [ ]
IsSince-Holds t k v (suc n) [] p h = elim h [ ]
IsSince-Holds t k v zero (e ∷ m) (p, q) (inl h) = subst (λ w. t ≤ time_of w) h.1 p
IsSince-Holds t k v zero (e ∷ m) (p, q) (inr h) = IsSince-Holds t k v zero m q h
IsSince-Holds t k v (suc n) (e ∷ m) (p, q) h = IsSince-Holds t k v n m q h

-- In a sorted list what is taken is no newer than what is left.
take-le-drop :
    (j k : String) (w v : ProcessedTransaction) (n : ℕ) (m : Cache)
    → IsSorted m
    → Holds j w (take n m)
    → Holds k v (drop n m)
    → time_of w ≤ time_of v
take-le-drop j k w v zero m p h d = elim h [ ]
take-le-drop j k w v (suc n) [] p h d = elim h [ ]
take-le-drop j k w v (suc n) (e ∷ m) (p, q) (inl h) d =
    subst (λ x. time_of x ≤ time_of v) h.1 (IsSince-Holds (time_of e.1) k v n m p d)
take-le-drop j k w v (suc n) (e ∷ m) (p, q) (inr h) d = take-le-drop j k w v n m q h d

pub get-delete_entries :
    (k : String) (es m : Cache)
    → Map.get k (delete_entries es m) ≡ (if occurs k es == 0 then Map.get k m else none)
unfolding delete_entries occurs
get-delete_entries k [] m = refl
get-delete_entries k (e ∷ es) m =
    ground (arith, get-delete_entries k es (Map.delete e.0 m), get-delete e.0 k m)

occurs_split :
    (k : String) (n : ℕ) (m : Cache)
    → occurs k (take n (sort_by_time m)) + occurs k (drop n (sort_by_time m)) ≡ occurs k m
occurs_split k n m = omega (
  arith,
  occurs-append k (take n (sort_by_time m)) (drop n (sort_by_time m)),
  ap (occurs k) (take-append-drop n (sort_by_time m)),
  occurs-sort_by_time k m,
)

removed : Cache → ℕ → Cache
removed m n = take n (sort_by_time m)

module _ (m : Cache) (u : IsMap m) (n : ℕ) where
  kept-Holds :
      (k : String) (v : ProcessedTransaction)
      → Map.get k (delete_entries (removed m n) m) ≡ some v
      → Holds k v (drop n (sort_by_time m))
  unfolding removed
  kept-Holds k v h =
      let gone : occurs k (removed m n) ≡ 0 =
        ground (arith, get-delete_entries k (removed m n) m) in
      let found : Map.get k m ≡ some v = ground (arith, get-delete_entries k (removed m n) m) in
      elim (Holds-split k v n (sort_by_time m) (Holds-sort_by_time k v m (get-Holds k v m found))) [
        | inl p ↦ absurd (omega (arith, occurs_of_Holds k v (removed m n) p, gone))
        | inr p ↦ p
      ]

  removed-Holds :
      (k : String) (v : ProcessedTransaction)
      → Map.get k m ≡ some v
      → Map.get k (delete_entries (removed m n) m) ≡ none
      → Holds k v (removed m n)
  unfolding removed
  removed-Holds k v h g =
      let there : occurs k (removed m n) ≢ 0 =
        λ e. ground (arith, get-delete_entries k (removed m n) m) in
      elim (Holds-split k v n (sort_by_time m) (Holds-sort_by_time k v m (get-Holds k v m h))) [
        | inl p ↦ p
        | inr p ↦ absurd (
            omega (
              arith,
              occurs_of_Holds k v (drop n (sort_by_time m)) p,
              occurs_split k n m,
              u k,
              there,
            ))
      ]

  delete_entries_oldest :
      (k j : String) (v w : ProcessedTransaction)
      → Map.get k (delete_entries (removed m n) m) ≡ some v
      → Map.get j m ≡ some w
      → Map.get j (delete_entries (removed m n) m) ≡ none
      → time_of w ≤ time_of v
  delete_entries_oldest k j v w a b c =
      take-le-drop j k w v n (sort_by_time m) (sort_by_time-IsSorted m)
        (unfold removed in removed-Holds j w b c) (kept-Holds k v a)

evict_small : (n : ℕ) (m : Cache) → leb (length m) n ≡ true → evict_to n m ≡ m
unfolding evict_to
evict_small n m e = rw e

evict_large :
    (n : ℕ) (m : Cache)
    → leb (length m) n ≡ false
    → evict_to n m ≡ delete_entries (removed m (length m - n)) m
unfolding evict_to removed
evict_large n m e = rw e

-- Eviction, to any target size, removes the oldest: in a cache with one entry for each key, an
-- entry that it removes was processed no later than any entry that it keeps.
pub evict_to_oldest :
    (n : ℕ) (m : Cache)
    → IsMap m
    → (k j : String) (v w : ProcessedTransaction) → Map.get k (evict_to n m) ≡ some v
    → Map.get j m ≡ some w
    → Map.get j (evict_to n m) ≡ none
    → time_of w ≤ time_of v
evict_to_oldest n m u k j v w a b c = elim (Bool-cases (leb (length m) n)) [
  | inl e ↦ cc (sym b, ap (Map.get j) (evict_small n m e), c)
  | inr e ↦
      delete_entries_oldest m u (length m - n) k j v w (rw (evict_large n m e) at a) b
        (rw (evict_large n m e) at c)
]
