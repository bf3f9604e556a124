-- ===== src/Transaction/Batch.antt =====
-- src/features/transaction-processing/services/transaction-batch-processor.service.ts. The database
-- is a record of tables; it numbers its keys, and finds in a transaction what was written in it.
-- Apart from a chunk that is said to fail, its calls succeed.
pub mod Chunks
pub mod Lookup
pub mod Keys
pub mod Alerts
pub mod Nfts
pub mod Orders
mod Tests
use v2_xrpl_tools.Prelude.{
  ℕ, zero, suc, ◌+◌, min, Bool, true, false, not, ◌&&◌, Option, none, some, List, [], ◌∷◌, ◌++◌,
  map, String, str_eq, if◌then◌else◌, find?, take, drop, any, length, filter, ◌==◌,
}
use v2_xrpl_tools.Prelude.Map
use v2_xrpl_tools.Prelude.Map.{Map}
use v2_xrpl_tools.Prelude.Outcome.{Outcome, done, raised}
use v2_xrpl_tools.Prelude.Json.{Json, field_of, text_value, number_text}
use v2_xrpl_tools.Prelude.Words.{words}
use v2_xrpl_tools.Transaction.Data.{
  NftActivityType, mint, burn, sale, offer_created, offer_accepted, offer_cancelled, transfer,
  NftTransactionData,
}
use v2_xrpl_tools.Transaction.Tables.{
  NftEntity, CollectionEntity, NftActivityEntity, Database, NftUpdate, Chunk, find_nft,
  find_collection, queue_metadata_enrichment, or_text, text_or,
}

-- The part of `createNewNFT` after the collection is known: the row, and its place in the queue.
unfoldable pub save_nft : NftTransactionData → String → Option ℕ → Database → Database
unfolding queue_metadata_enrichment
save_nft t nft_id collection db =
    let uri = text_value (field_of "uri" t.metadata) in
    let nft : NftEntity = record {
      id = db.next_id;
      nft_id = nft_id;
      collection_id = collection;
      owner_address = text_or (or_text t.to_address t.from_address) "";
      metadata_uri_hex = text_value (field_of "uriHex" t.metadata);
      metadata_uri = uri;
      last_activity_at = t.timestamp;
    } in
    let db' : Database = record db { next_id = suc db.next_id; nfts = db.nfts ++ nft ∷ [] } in
    elim uri [ none ↦ db' | some u ↦ queue_metadata_enrichment nft_id db' ]

-- `name_of` finds the name in a numbered title such as `Cats #12`.
unfoldable pub extract_collection_name : (String → Option String) → Option Json → Option String
extract_collection_name name_of metadata =
    elim (text_value (field_of "name" (field_of "collection" metadata))) [
      | some n ↦ some n
      | none ↦ elim (text_value (field_of "name" metadata)) [ none ↦ none | some n ↦ name_of n ]
    ]

unfoldable pub new_collection :
    (String → Option String) → NftTransactionData → String → String → CollectionEntity
unfolding extract_collection_name
new_collection name_of t issuer taxon = record {
  id = none;
  issuer_address = issuer;
  taxon = taxon;
  name = extract_collection_name name_of t.metadata;
  first_mint_transaction = t.transaction_hash;
}

unfoldable pub collection_key : String → String → String
collection_key issuer taxon = words (issuer ∷ "_" ∷ taxon ∷ [])

-- The collection of a new NFT: from the database, or of this chunk, or new.
unfoldable pub with_collection :
    (String → Option String) → NftTransactionData → String → String → String → Chunk → Chunk
unfolding find_collection new_collection collection_key save_nft
with_collection name_of t nft_id issuer taxon c =
    elim (find_collection issuer taxon c.db.collections) [
      | some found ↦ record c { db = save_nft t nft_id found.id c.db }
      | none ↦ elim (Map.get (collection_key issuer taxon) c.collections_to_create) [
        | some waiting ↦ record c { db = save_nft t nft_id waiting.id c.db }
        | none ↦
            let fresh = new_collection name_of t issuer taxon in
            record c {
              collections_to_create =
                  Map.set (collection_key issuer taxon) fresh c.collections_to_create;
              db = save_nft t nft_id fresh.id c.db;
            }
      ]
    ]

unfoldable pub create_new_nft :
    (String → Option String) → NftTransactionData → String → Chunk → Chunk
unfolding with_collection
create_new_nft name_of t nft_id c = elim t.metadata [
  | none ↦ c
  | some m ↦ elim (or_text (text_value (field_of "minter" (some m))) t.from_address) [
    | none ↦ c
    | some issuer ↦
        with_collection name_of t nft_id issuer
          (text_or (number_text (field_of "taxon" (some m))) "0") c
  ]
]

-- A sale sets the owner where the transaction names one; each call replaces an update that waits.
unfoldable pub change_owner : NftTransactionData → String → Chunk → Chunk
change_owner t nft_id c = elim t.to_address [
  | none ↦ c
  | some to ↦ record c {
    nfts_to_update =
        Map.set nft_id (record { owner_address = some to; last_activity_at = t.timestamp })
          c.nfts_to_update;
  }
]

unfoldable pub touch_nft : NftTransactionData → String → Chunk → Chunk
touch_nft t nft_id c = record c {
  nfts_to_update =
      Map.set nft_id (record { owner_address = none; last_activity_at = t.timestamp })
        c.nfts_to_update;
}

-- `processNFTUpdate` by the type of the activity, and by whether the NFT is in the database
unfoldable pub update_nft :
    (String → Option String)
    → NftActivityType
    → Option NftEntity
    → NftTransactionData
    → String
    → Chunk
    → Chunk
unfolding create_new_nft change_owner touch_nft
update_nft name_of mint none t nft_id c = create_new_nft name_of t nft_id c
update_nft name_of transfer (some n) t nft_id c = change_owner t nft_id c
update_nft name_of sale (some n) t nft_id c = change_owner t nft_id c
update_nft name_of offer_accepted (some n) t nft_id c = change_owner t nft_id c
update_nft name_of burn (some n) t nft_id c = touch_nft t nft_id c
update_nft name_of _ _ t nft_id c = c

unfoldable pub process_nft_update : (String → Option String) → NftTransactionData → Chunk → Chunk
unfolding update_nft find_nft
process_nft_update name_of t c = elim t.nft_token_id [
  | none ↦ c
  | some nft_id ↦ update_nft name_of t.activity_type (find_nft nft_id c.db.nfts) t nft_id c
]

unfoldable pub first_pass : (String → Option String) → List NftTransactionData → Chunk → Chunk
unfolding process_nft_update
first_pass name_of [] c = c
first_pass name_of (t ∷ ts) c = first_pass name_of ts (process_nft_update name_of t c)

-- `save(CollectionEntity, …)`: each collection gets its key
unfoldable pub save_collections : Map CollectionEntity → Database → Database
save_collections [] db = db
save_collections ((k, c) ∷ m) db = save_collections m (record db {
  next_id = suc db.next_id;
  collections = db.collections ++ record c { id = some db.next_id } ∷ [];
})

unfoldable pub updated_nft : NftUpdate → NftEntity → NftEntity
updated_nft u n = record n {
  owner_address = text_or u.owner_address n.owner_address;
  last_activity_at = u.last_activity_at;
}

unfoldable pub update_row : String → NftUpdate → NftEntity → NftEntity
unfolding updated_nft
update_row nft_id u n = if str_eq n.nft_id nft_id then updated_nft u n else n

unfoldable pub update_nfts : Map NftUpdate → List NftEntity → List NftEntity
unfolding update_row
update_nfts [] ns = ns
update_nfts ((nft_id, u) ∷ m) ns = update_nfts m (map (update_row nft_id u) ns)

unfoldable pub create_nft_activity : ℕ → NftTransactionData → List NftEntity → NftActivityEntity
unfolding find_nft
create_nft_activity id t ns = record {
  id = id;
  nft_id = elim t.nft_token_id [
    | none ↦ none
    | some nft_id ↦ elim (find_nft nft_id ns) [ none ↦ none | some n ↦ some n.id ]
  ];
  transaction = t;
}

unfoldable pub create_activities :
    ℕ → List NftTransactionData → List NftEntity → List NftActivityEntity
unfolding create_nft_activity
create_activities id [] ns = []
create_activities id (t ∷ ts) ns = create_nft_activity id t ns ∷ create_activities (suc id) ts ns

-- The saved activities go to `processAlertsAsync`, before the transaction is committed.
unfoldable pub process_transaction_chunk :
    (String → Option String)
    → List NftTransactionData
    → Database
    → Database × List NftActivityEntity
unfolding first_pass save_collections update_nfts create_activities
process_transaction_chunk name_of ts db =
    let c =
      first_pass name_of ts (record { nfts_to_update = []; collections_to_create = []; db = db }) in
    let saved = save_collections c.collections_to_create c.db in
    let db' : Database = record saved { nfts = update_nfts c.nfts_to_update saved.nfts } in
    let activities = create_activities db'.next_id ts db'.nfts in
    (
      record db' { next_id = db'.next_id + length ts; activities = db'.activities ++ activities },
      activities,
    )

abbrev pub default_batch_size : ℕ
default_batch_size = 50

-- What a run leaves: the transaction's end, and the activities that each call of `processAlertsAsync` got.
pub record BatchRun : Type 0 where
  pub result : Outcome Database
  pub alert_calls : List (List NftActivityEntity)

-- without saved activities there is no call
abbrev pub called :
    List NftActivityEntity → List (List NftActivityEntity) → List (List NftActivityEntity)
called [] calls = calls
called (a ∷ more) calls = (a ∷ more) ∷ calls

abbrev pub after : List NftActivityEntity → Option BatchRun → Option BatchRun
after sent none = none
after sent (some r) = some (record r { alert_calls = called sent r.alert_calls })

-- The rows that a call of `processAlertsAsync` finds and gives to the alerts, among those that its own
-- connection sees then: rows of a transaction that is not committed are not among them.
unfoldable pub process_alerts_async :
    List NftActivityEntity → List NftActivityEntity → List NftActivityEntity
process_alerts_async visible activities =
    filter (λ row. any (λ a. a.id == row.id) activities) visible

-- The loop over the chunks, on fuel; `fails` says of which chunk a database call throws.
unfoldable pub process_chunks :
    (String → Option String)
    → (ℕ → Bool)
    → ℕ
    → ℕ
    → ℕ
    → List NftTransactionData
    → Database
    → Option BatchRun
unfolding process_transaction_chunk
process_chunks name_of fails size zero i ts db = none
process_chunks name_of fails size (suc fuel) i [] db =
    some (record { result = done db; alert_calls = [] })
process_chunks name_of fails size (suc fuel) i (t ∷ ts) db =
    let (db', activities) = process_transaction_chunk name_of (take size (t ∷ ts)) db in
    let rest = process_chunks name_of fails size fuel (suc i) (drop size (t ∷ ts)) db' in
    if fails i
    then some (record { result = raised "Batch processing failed"; alert_calls = [] })
    else after activities rest

unfoldable pub chunk_size : ℕ → ℕ
chunk_size batch_size = min default_batch_size batch_size

-- After a failure the transaction is rolled back.
unfoldable pub process_batch_internal :
    (String → Option String)
    → (ℕ → Bool)
    → ℕ
    → ℕ
    → List NftTransactionData
    → Database
    → Option BatchRun
unfolding process_chunks chunk_size
process_batch_internal name_of fails batch_size fuel ts db =
    process_chunks name_of fails (chunk_size batch_size) fuel 0 ts db

unfoldable pub committed : Database → BatchRun → Database
committed before r = elim r.result [ raised e ↦ before | done db ↦ db ]
