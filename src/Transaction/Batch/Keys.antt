-- ===== src/Transaction/Batch/Keys.antt =====
-- The keys that a chunk gives to its activities.
use v2_xrpl_tools.Prelude.{
  ℕ, suc, ◌+◌, ◌≤◌, ◌<◌, ◌≡◌, ap, ◌∙◌, Option, some, List, [], ◌∷◌, ◌++◌, String, length, arith,
}
use v2_xrpl_tools.Prelude.Map.{Map}
use v2_xrpl_tools.Transaction.Data.{NftTransactionData}
use v2_xrpl_tools.Transaction.Batch.{
  save_nft, with_collection, create_new_nft, change_owner, touch_nft, update_nft,
  process_nft_update, first_pass, save_collections, update_nfts, create_activities,
  process_transaction_chunk,
}
use v2_xrpl_tools.Transaction.Batch.Chunks.{save_collections-activities, first_pass-activities}
use v2_xrpl_tools.Transaction.Tables.{
  NftEntity, CollectionEntity, Database, Chunk, queue_metadata_enrichment,
}
use v2_xrpl_tools.Transaction.Batch.Lookup.{All-weaken, IsFrom, IsBelow}

module _ (name_of : String → Option String) where
  save_nft-next :
      (t : NftTransactionData) (nft_id : String) (k : Option ℕ) (db : Database)
      → db.next_id ≤ (save_nft t nft_id k db).next_id
  unfolding save_nft queue_metadata_enrichment
  save_nft-next t nft_id k db = ground arith

  with_collection-next :
      (t : NftTransactionData) (nft_id issuer taxon : String) (c : Chunk)
      → c.db.next_id ≤ (with_collection name_of t nft_id issuer taxon c).db.next_id
  unfolding with_collection
  with_collection-next t nft_id issuer taxon c = grind (arith, save_nft-next)

  create_new_nft-next :
      (t : NftTransactionData) (nft_id : String) (c : Chunk)
      → c.db.next_id ≤ (create_new_nft name_of t nft_id c).db.next_id
  unfolding create_new_nft
  create_new_nft-next t nft_id c = grind (arith, with_collection-next)

  process_nft_update-next :
      (t : NftTransactionData) (c : Chunk)
      → c.db.next_id ≤ (process_nft_update name_of t c).db.next_id
  unfolding process_nft_update update_nft change_owner touch_nft
  process_nft_update-next t c = grind (arith, create_new_nft-next)

  first_pass-next :
      (ts : List NftTransactionData) (c : Chunk)
      → c.db.next_id ≤ (first_pass name_of ts c).db.next_id
  unfolding first_pass
  first_pass-next [] c = omega arith
  first_pass-next (t ∷ ts) c =
      omega
        (arith, first_pass-next ts (process_nft_update name_of t c), process_nft_update-next t c)

  save_collections-next :
      (m : Map CollectionEntity) (db : Database) → db.next_id ≤ (save_collections m db).next_id
  unfolding save_collections
  save_collections-next [] db = omega arith
  save_collections-next ((k, c) ∷ m) db =
      let db' : Database = record db {
        next_id = suc db.next_id;
        collections = db.collections ++ record c { id = some db.next_id } ∷ [];
      } in
      omega (arith, save_collections-next m db')

  create_activities-ids :
      (id : ℕ) (ts : List NftTransactionData) (ns : List NftEntity)
      → IsFrom id (create_activities id ts ns)
        × IsBelow (id + length ts) (create_activities id ts ns)
  unfolding create_activities
  create_activities-ids id [] ns = (tt, tt)
  create_activities-ids id (t ∷ ts) ns =
      let (f, b) = create_activities-ids (suc id) ts ns in
      let rest = create_activities (suc id) ts ns in
      (
        (omega arith, All-weaken (λ a. suc id ≤ a.id) (λ a. id ≤ a.id) (λ a h. omega arith) rest f),
        (
          omega arith,
          All-weaken (λ a. a.id < suc id + length ts) (λ a. a.id < id + suc (length ts))
              (λ a h. omega arith) rest b,
        ),
      )

  -- A chunk adds the activities it sends, with keys of its own.
  pub process_transaction_chunk-ids :
      (ts : List NftTransactionData) (db : Database)
      → let (db', sent) = process_transaction_chunk name_of ts db in
        (db'.activities ≡ db.activities ++ sent)
        × (IsFrom db.next_id sent × (IsBelow db'.next_id sent × (db.next_id ≤ db'.next_id)))
  unfolding process_transaction_chunk
  process_transaction_chunk-ids ts db =
      let c =
        first_pass name_of ts
          (record { nfts_to_update = []; collections_to_create = []; db = db }) in
      let saved = save_collections c.collections_to_create c.db in
      let sent = create_activities saved.next_id ts (update_nfts c.nfts_to_update saved.nfts) in
      let grown : db.next_id ≤ saved.next_id = omega (
        arith,
        first_pass-next ts (record { nfts_to_update = []; collections_to_create = []; db = db }),
        save_collections-next c.collections_to_create c.db,
      ) in
      let (f, b) =
        create_activities-ids saved.next_id ts (update_nfts c.nfts_to_update saved.nfts) in
      (
        ap (λ l. l ++ sent)
            (save_collections-activities name_of c.collections_to_create c.db
              ∙ first_pass-activities name_of ts _),
        (
          All-weaken (λ a. saved.next_id ≤ a.id) (λ a. db.next_id ≤ a.id) (λ a h. omega arith) sent
              f,
          (b, omega arith),
        ),
      )
