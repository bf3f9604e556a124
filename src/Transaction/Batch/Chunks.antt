-- ===== src/Transaction/Batch/Chunks.antt =====
-- What a batch writes, and what it calls the alerts with.
use mathlib.Core.List.{append_assoc, map-append, append-nil}
use v2_xrpl_tools.Prelude.{
  ℕ, zero, suc, ◌+◌, ◌*◌, ◌≤◌, ◌<◌, ◌≡◌, refl, sym, ap, ◌∙◌, Bool, true, false, Option, none, some,
  List, [], ◌∷◌, ◌++◌, map, String, take, drop, length, take-append-drop, take-add, length-drop,
  arith, subst,
}
use v2_xrpl_tools.Prelude.Map.{Map}
use v2_xrpl_tools.Prelude.Outcome.{done, raised}
use v2_xrpl_tools.Transaction.Data.{NftTransactionData}
use v2_xrpl_tools.Transaction.Batch.{
  save_nft, with_collection, create_new_nft, change_owner, touch_nft, update_nft,
  process_nft_update, first_pass, save_collections, update_nfts, create_activities,
  process_transaction_chunk, BatchRun, called, after, process_chunks,
}
use v2_xrpl_tools.Transaction.Tables.{
  NftEntity, CollectionEntity, NftActivityEntity, Database, Chunk, queue_metadata_enrichment,
}

drop_rest {ℓ} : {A : Type ℓ} (n : ℕ) (xs : List A) → length xs ≤ n + length (drop n xs)
drop_rest zero xs = omega arith
drop_rest (suc n) [] = omega arith
drop_rest (suc n) (x ∷ xs) = omega (arith, drop_rest n xs)

times_suc : (k n : ℕ) → suc k * n ≡ n + k * n
times_suc k n = omega arith

times_zero : (n : ℕ) → zero ≡ zero * n
times_zero n = omega arith

abbrev pub flat : List (List NftActivityEntity) → List NftActivityEntity
flat [] = []
flat (call ∷ calls) = call ++ flat calls

flat-called :
    (sent : List NftActivityEntity) (calls : List (List NftActivityEntity))
    → flat (called sent calls) ≡ sent ++ flat calls
flat-called [] calls = refl
flat-called (a ∷ more) calls = refl

abbrev pub written : Database → List NftTransactionData
written db = map (λ a. a.transaction) db.activities

module _ (name_of : String → Option String) where
  save_nft-activities :
      (t : NftTransactionData) (nft_id : String) (k : Option ℕ) (db : Database)
      → (save_nft t nft_id k db).activities ≡ db.activities
  unfolding save_nft queue_metadata_enrichment
  save_nft-activities t nft_id k db = ground arith

  with_collection-activities :
      (t : NftTransactionData) (nft_id issuer taxon : String) (c : Chunk)
      → (with_collection name_of t nft_id issuer taxon c).db.activities ≡ c.db.activities
  unfolding with_collection
  with_collection-activities t nft_id issuer taxon c = grind (arith, save_nft-activities)

  create_new_nft-activities :
      (t : NftTransactionData) (nft_id : String) (c : Chunk)
      → (create_new_nft name_of t nft_id c).db.activities ≡ c.db.activities
  unfolding create_new_nft
  create_new_nft-activities t nft_id c = grind (arith, with_collection-activities)

  process_nft_update-activities :
      (t : NftTransactionData) (c : Chunk)
      → (process_nft_update name_of t c).db.activities ≡ c.db.activities
  unfolding process_nft_update update_nft change_owner touch_nft
  process_nft_update-activities t c = grind (arith, create_new_nft-activities)

  pub first_pass-activities :
      (ts : List NftTransactionData) (c : Chunk)
      → (first_pass name_of ts c).db.activities ≡ c.db.activities
  unfolding first_pass
  first_pass-activities [] c = refl
  first_pass-activities (t ∷ ts) c =
      first_pass-activities ts (process_nft_update name_of t c) ∙ process_nft_update-activities t c

  pub save_collections-activities :
      (m : Map CollectionEntity) (db : Database)
      → (save_collections m db).activities ≡ db.activities
  unfolding save_collections
  save_collections-activities [] db = refl
  save_collections-activities ((k, c) ∷ m) db = save_collections-activities m _

  create_activities-transactions :
      (id : ℕ) (ts : List NftTransactionData) (ns : List NftEntity)
      → map (λ a. a.transaction) (create_activities id ts ns) ≡ ts
  unfolding create_activities
  create_activities-transactions id [] ns = refl
  create_activities-transactions id (t ∷ ts) ns =
      ap (λ (rest : List NftTransactionData). t ∷ rest)
        (create_activities-transactions (suc id) ts ns)

  -- A chunk adds one activity for each of its transactions, in order, and calls the alerts
  -- with these.
  process_transaction_chunk-written :
      (ts : List NftTransactionData) (db : Database)
      → let (db', sent) = process_transaction_chunk name_of ts db in
        (written db' ≡ written db ++ ts) × (map (λ a. a.transaction) sent ≡ ts)
  unfolding process_transaction_chunk
  process_transaction_chunk-written ts db =
      let c =
        first_pass name_of ts
          (record { nfts_to_update = []; collections_to_create = []; db = db }) in
      let saved = save_collections c.collections_to_create c.db in
      let kept : saved.activities ≡ db.activities =
        save_collections-activities c.collections_to_create c.db ∙ first_pass-activities ts _ in
      let named =
        create_activities-transactions saved.next_id ts (update_nfts c.nfts_to_update saved.nfts) in
      (
        ap
              (λ l.
                map (λ a. a.transaction)
                  (l
                    ++ create_activities saved.next_id ts
                        (update_nfts c.nfts_to_update saved.nfts)))
              kept
            ∙ map-append (λ (a : NftActivityEntity). a.transaction) db.activities _
            ∙ ap (λ l. written db ++ l) named,
        named,
      )

  -- what a run without failures leaves
  abbrev pub IsComplete : List NftTransactionData → Database → Option BatchRun → Type 0
  IsComplete ts db none = ⊥
  IsComplete ts db (some r) =
      (db' : Database) × ((r.result ≡ done db')
        × ((written db' ≡ written db ++ ts) × (map (λ a. a.transaction) (flat r.alert_calls) ≡ ts)))

  after-IsComplete :
      (ts us : List NftTransactionData) (db mid : Database) (sent : List NftActivityEntity)
      (o : Option BatchRun)
      → written mid ≡ written db ++ ts
      → map (λ a. a.transaction) sent ≡ ts
      → IsComplete us mid o
      → IsComplete (ts ++ us) db (after sent o)
  after-IsComplete ts us db mid sent none w s x = elim x [ ]
  after-IsComplete ts us db mid sent (some r) w s (db', (e, (v, a))) = (
    db',
    (
      e,
      (
        v ∙ ap (λ l. l ++ us) w ∙ append_assoc (written db) ts us,
        ap (λ l. map (λ (x : NftActivityEntity). x.transaction) l) (flat-called sent r.alert_calls)
            ∙ map-append (λ (x : NftActivityEntity). x.transaction) sent (flat r.alert_calls)
            ∙ ap (λ l. l ++ map (λ a. a.transaction) (flat r.alert_calls)) s
            ∙ ap (λ l. ts ++ l) a,
      ),
    ),
  )

  pub process_chunks-IsComplete :
      (size fuel i : ℕ) (ts : List NftTransactionData) (db : Database)
      → 0 < size
      → length ts < fuel
      → IsComplete ts db (process_chunks name_of (λ k. false) size fuel i ts db)
  unfolding process_chunks
  process_chunks-IsComplete size zero i ts db s h = absurd (omega arith)
  process_chunks-IsComplete size (suc fuel) i [] db s h =
      (db, (refl, (sym (append-nil (written db)), refl)))
  process_chunks-IsComplete zero (suc fuel) i (t ∷ ts) db s h = elim s [ ]
  process_chunks-IsComplete (suc size) (suc fuel) i (t ∷ ts) db s h =
      let (w, sent) = process_transaction_chunk-written (take (suc size) (t ∷ ts)) db in
      subst
        (λ l.
          IsComplete l db (process_chunks name_of (λ k. false) (suc size) (suc fuel) i (t ∷ ts) db))
        (take-append-drop (suc size) (t ∷ ts))
        (after-IsComplete (take (suc size) (t ∷ ts)) (drop (suc size) (t ∷ ts)) db
          (process_transaction_chunk name_of (take (suc size) (t ∷ ts)) db).0
          (process_transaction_chunk name_of (take (suc size) (t ∷ ts)) db).1 _ w sent
          (process_chunks-IsComplete (suc size) fuel (suc i) (drop size ts) _ s
            (omega (arith, length-drop size ts))))

  -- a run that fails, after the alerts were called with `ts`
  abbrev pub IsAlerted : List NftTransactionData → Option BatchRun → Type 0
  IsAlerted ts o =
      (calls : List (List NftActivityEntity)) × ((o
          ≡ some (record { result = raised "Batch processing failed"; alert_calls = calls }))
        × (map (λ a. a.transaction) (flat calls) ≡ ts))

  after-IsAlerted :
      (ts us : List NftTransactionData) (sent : List NftActivityEntity) (o : Option BatchRun)
      → map (λ a. a.transaction) sent ≡ ts
      → IsAlerted us o
      → IsAlerted (ts ++ us) (after sent o)
  after-IsAlerted ts us sent o s (more, (e, a)) = (
    called sent more,
    (
      ap (after sent) e,
      ap (λ l. map (λ (x : NftActivityEntity). x.transaction) l) (flat-called sent more)
          ∙ map-append (λ (x : NftActivityEntity). x.transaction) sent (flat more)
          ∙ ap (λ l. l ++ map (λ a. a.transaction) (flat more)) s
          ∙ ap (λ l. ts ++ l) a,
    ),
  )

  pub process_chunks-IsAlerted :
      (fails : ℕ → Bool) (size fuel i k : ℕ) (ts : List NftTransactionData) (db : Database)
      → ((j : ℕ) → i ≤ j → j < i + k → fails j ≡ false)
      → fails (i + k) ≡ true
      → k * size < length ts
      → k < fuel
      → IsAlerted (take (k * size) ts) (process_chunks name_of fails size fuel i ts db)
  unfolding process_chunks
  process_chunks-IsAlerted fails size zero i k ts db ok bad l h = absurd (omega arith)
  process_chunks-IsAlerted fails size (suc fuel) i k [] db ok bad l h = absurd (omega arith)
  process_chunks-IsAlerted fails size (suc fuel) i zero (t ∷ ts) db ok bad l h =
      let here : fails i ≡ true = subst (λ j. fails j ≡ true) (omega arith) bad in
      ([], (rw here refl, ap (λ n. take n (t ∷ ts)) (times_zero size)))
  process_chunks-IsAlerted fails size (suc fuel) i (suc k) (t ∷ ts) db ok bad l h =
      let here : fails i ≡ false = ok i (omega arith) (omega arith) in
      let (w, sent) = process_transaction_chunk-written (take size (t ∷ ts)) db in
      let rest =
        process_chunks-IsAlerted fails size fuel (suc i) k (drop size (t ∷ ts))
          (process_transaction_chunk name_of (take size (t ∷ ts)) db).0
          (λ j a b. ok j (omega arith) (omega arith))
          (subst (λ j. fails j ≡ true) (omega arith) bad)
          (omega (arith, l, times_suc k size, drop_rest size (t ∷ ts))) (omega arith) in
      subst
        (λ n.
          IsAlerted (take n (t ∷ ts)) (process_chunks name_of fails size (suc fuel) i (t ∷ ts) db))
        (sym (times_suc k size))
        (subst (λ us. IsAlerted us (process_chunks name_of fails size (suc fuel) i (t ∷ ts) db))
          (sym (take-add size (k * size) (t ∷ ts)))
          (rw here (
            after-IsAlerted (take size (t ∷ ts)) (take (k * size) (drop size (t ∷ ts)))
              (process_transaction_chunk name_of (take size (t ∷ ts)) db).1
              (process_chunks name_of fails size fuel (suc i) (drop size (t ∷ ts))
                (process_transaction_chunk name_of (take size (t ∷ ts)) db).0)
              sent rest)))
