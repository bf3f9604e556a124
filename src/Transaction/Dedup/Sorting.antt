-- ===== src/Transaction/Dedup/Sorting.antt =====
-- The order of eviction: `sort` by `processedAt` in `evictOldestEntries`.
use v2_xrpl_tools.Prelude.{
  ℕ, suc, ◌≤◌, ◌≡◌, refl, ap, ◌∙◌, inl, inr, [], ◌∷◌, ◌++◌, String, arith, leb, leb→le, Bool-cases,
  length, All,
}
use v2_xrpl_tools.Prelude.Map.{occurs}
use v2_xrpl_tools.Transaction.Dedup.{
  ProcessedTransaction, Cache, time_of, insert_by_time, sort_by_time,
}

pub occurs-insert_by_time :
    (k : String) (e : String × ProcessedTransaction) (m : Cache)
    → occurs k (insert_by_time e m) ≡ occurs k (e ∷ m)
unfolding occurs insert_by_time
occurs-insert_by_time k e [] = refl
occurs-insert_by_time k e (d ∷ m) = ground (arith, occurs-insert_by_time k e m)

pub occurs-sort_by_time : (k : String) (m : Cache) → occurs k (sort_by_time m) ≡ occurs k m
unfolding sort_by_time occurs
occurs-sort_by_time k [] = refl
occurs-sort_by_time k (e ∷ m) =
    ground (arith, occurs-insert_by_time k e (sort_by_time m), occurs-sort_by_time k m)

pub length-insert_by_time :
    (e : String × ProcessedTransaction) (m : Cache) → length (insert_by_time e m) ≡ suc (length m)
unfolding insert_by_time
length-insert_by_time e [] = refl
length-insert_by_time e (d ∷ m) = ground (arith, length-insert_by_time e m)

pub length-sort_by_time : (m : Cache) → length (sort_by_time m) ≡ length m
unfolding sort_by_time
length-sort_by_time [] = refl
length-sort_by_time (e ∷ m) =
    length-insert_by_time e (sort_by_time m) ∙ ap suc (length-sort_by_time m)

-- Every entry of the list is at least as new as `t`.
abbrev pub IsSince : ℕ → Cache → Type 0
IsSince t = All (λ e. t ≤ time_of e.1)

abbrev pub IsSorted : Cache → Type 0
IsSorted [] = Unit
IsSorted (e ∷ m) = IsSince (time_of e.1) m × IsSorted m

IsSince-mono : (t u : ℕ) (m : Cache) → t ≤ u → IsSince u m → IsSince t m
IsSince-mono t u [] h k = tt
IsSince-mono t u (e ∷ m) h (p, k) = (omega arith, IsSince-mono t u m h k)

IsSince-insert_by_time :
    (t : ℕ) (e : String × ProcessedTransaction) (m : Cache)
    → t ≤ time_of e.1
    → IsSince t m
    → IsSince t (insert_by_time e m)
unfolding insert_by_time
IsSince-insert_by_time t e [] h k = (h, tt)
IsSince-insert_by_time t e (d ∷ m) h (p, k) = ground (arith, IsSince-insert_by_time t e m h k)

insert_by_time-IsSorted :
    (e : String × ProcessedTransaction) (m : Cache) → IsSorted m → IsSorted (insert_by_time e m)
unfolding insert_by_time
insert_by_time-IsSorted e [] h = (tt, tt)
insert_by_time-IsSorted e (d ∷ m) (p, h) = elim (Bool-cases (leb (time_of e.1) (time_of d.1))) [
  | inl b ↦
      let le = leb→le _ _ b in rw b ((le, IsSince-mono (time_of e.1) (time_of d.1) m le p), (p, h))
  | inr b ↦
      rw b
        (IsSince-insert_by_time (time_of d.1) e m (ground arith) p, insert_by_time-IsSorted e m h)
]

pub sort_by_time-IsSorted : (m : Cache) → IsSorted (sort_by_time m)
unfolding sort_by_time
sort_by_time-IsSorted [] = tt
sort_by_time-IsSorted (e ∷ m) = insert_by_time-IsSorted e (sort_by_time m) (sort_by_time-IsSorted m)

abbrev pub IsUntil : Cache → ℕ → Type 0
IsUntil m t = All (λ e. time_of e.1 ≤ t) m

insert_by_time-append :
    (e d : String × ProcessedTransaction) (m : Cache)
    → time_of e.1 ≤ time_of d.1
    → insert_by_time e (m ++ d ∷ []) ≡ insert_by_time e m ++ d ∷ []
unfolding insert_by_time
insert_by_time-append e d [] h = ground arith
insert_by_time-append e d (c ∷ m) h = ground (arith, insert_by_time-append e d m h)

-- The newest entry, added last, is sorted last.
pub sort_by_time-append :
    (m : Cache) (d : String × ProcessedTransaction)
    → IsUntil m (time_of d.1)
    → sort_by_time (m ++ d ∷ []) ≡ sort_by_time m ++ d ∷ []
unfolding sort_by_time
sort_by_time-append [] d h = unfold insert_by_time in refl
sort_by_time-append (e ∷ m) d (p, h) =
    ap (insert_by_time e) (sort_by_time-append m d h) ∙ insert_by_time-append e d (sort_by_time m) p
