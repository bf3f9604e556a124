-- ===== src/Transaction/Batch/Orders.antt =====
-- The order of the writes of a chunk: a collection is saved after the NFTs of it, and an update of an
-- NFT waits until the end of the chunk.
use v2_xrpl_tools.Prelude.{
  ℕ, ◌≡◌, refl, ap, ◌∙◌, true, Option, none, some, List, [], ◌∷◌, ◌++◌, map, String, str_eq, arith,
  eq_iff,
}
use v2_xrpl_tools.Prelude.Map
use v2_xrpl_tools.Prelude.Map.{Map}
use v2_xrpl_tools.Prelude.Json.{Json, field_of, text_value, number_text}
use v2_xrpl_tools.Transaction.Data.{mint, burn, transfer, NftTransactionData}
use v2_xrpl_tools.Transaction.Batch.{
  save_nft, with_collection, create_new_nft, change_owner, touch_nft, update_nft,
  process_nft_update, first_pass, save_collections, updated_nft, update_row, update_nfts,
  process_transaction_chunk, collection_key, new_collection,
}
use v2_xrpl_tools.Transaction.Tables.{
  text_or, or_text, NftEntity, CollectionEntity, Database, Chunk, find_nft, find_collection,
  queue_metadata_enrichment,
}
use v2_xrpl_tools.Transaction.Batch.Nfts.{save_nft-row}

save_nft-collections :
    (t : NftTransactionData) (nft_id : String) (k : Option ℕ) (db : Database)
    → (save_nft t nft_id k db).collections ≡ db.collections
unfolding save_nft queue_metadata_enrichment
save_nft-collections t nft_id k db = ground arith

abbrev taxon_of : Json → String
taxon_of m = text_or (number_text (field_of "taxon" (some m))) "0"

module _ (name_of : String → Option String) where
  mint-create :
      (t : NftTransactionData) (nft_id : String) (c : Chunk)
      → t.activity_type ≡ mint
      → t.nft_token_id ≡ some nft_id
      → find_nft nft_id c.db.nfts ≡ none
      → process_nft_update name_of t c ≡ create_new_nft name_of t nft_id c
  unfolding process_nft_update update_nft
  mint-create t nft_id c a k f = grind arith

  create-with :
      (t : NftTransactionData) (nft_id issuer : String) (m : Json) (c : Chunk)
      → t.metadata ≡ some m
      → or_text (text_value (field_of "minter" (some m))) t.from_address ≡ some issuer
      → create_new_nft name_of t nft_id c ≡ with_collection name_of t nft_id issuer (taxon_of m) c
  unfolding create_new_nft
  create-with t nft_id issuer m c d i = grind arith

  with-fresh :
      (t : NftTransactionData) (nft_id issuer taxon : String) (db : Database)
      → find_collection issuer taxon db.collections ≡ none
      → with_collection name_of t nft_id issuer taxon
          (record { nfts_to_update = []; collections_to_create = []; db = db })
        ≡ record {
          nfts_to_update = [];
          collections_to_create =
              (collection_key issuer taxon, new_collection name_of t issuer taxon) ∷ [];
          db = save_nft t nft_id none db;
        }
  unfolding with_collection new_collection Map.get Map.set
  with-fresh t nft_id issuer taxon db g = rw (with_collection, g) refl

  first_mint-chunk :
      (t : NftTransactionData) (nft_id issuer : String) (m : Json) (db : Database)
      → t.activity_type ≡ mint
      → t.nft_token_id ≡ some nft_id
      → t.metadata ≡ some m
      → or_text (text_value (field_of "minter" (some m))) t.from_address ≡ some issuer
      → find_nft nft_id db.nfts ≡ none
      → find_collection issuer (taxon_of m) db.collections ≡ none
      → process_nft_update name_of t
          (record { nfts_to_update = []; collections_to_create = []; db = db })
        ≡ record {
          nfts_to_update = [];
          collections_to_create =
              (collection_key issuer (taxon_of m), new_collection name_of t issuer (taxon_of m))
              ∷ [];
          db = save_nft t nft_id none db;
        }
  first_mint-chunk t nft_id issuer m db a k d i f g =
      let c : Chunk = record { nfts_to_update = []; collections_to_create = []; db = db } in
      mint-create t nft_id c a k f
      ∙ create-with t nft_id issuer m c d i
      ∙ with-fresh t nft_id issuer (taxon_of m) db g

  -- The first mint of a collection saves its NFT without a collection, although the same chunk saves
  -- the collection: the key of the collection is only known once it is saved.
  pub process_transaction_chunk-first_mint :
      (t : NftTransactionData) (nft_id issuer : String) (m : Json) (db : Database)
      → t.activity_type ≡ mint
      → t.nft_token_id ≡ some nft_id
      → t.metadata ≡ some m
      → or_text (text_value (field_of "minter" (some m))) t.from_address ≡ some issuer
      → find_nft nft_id db.nfts ≡ none
      → find_collection issuer (taxon_of m) db.collections ≡ none
      → (n : NftEntity) × (c : CollectionEntity) × (((process_transaction_chunk name_of
              (t ∷ [])
              db).0.nfts
            ≡ db.nfts ++ n ∷ [])
          × (((process_transaction_chunk name_of (t ∷ []) db).0.collections
                ≡ db.collections ++ c ∷ [])
              × (((n.nft_id ≡ nft_id) × (n.collection_id ≡ none)) × (c.issuer_address ≡ issuer))))
  unfolding process_transaction_chunk first_pass save_collections update_nfts new_collection
  process_transaction_chunk-first_mint t nft_id issuer m db a k d i f g =
      let e = first_mint-chunk t nft_id issuer m db a k d i f g in
      let (n, (row, (same, unlinked))) = save_nft-row t nft_id none db in
      (
        n,
        record (new_collection name_of t issuer (taxon_of m)) {
          id = some (save_nft t nft_id none db).next_id;
        },
        (rw e row, (rw (e, save_nft-collections t nft_id none db) refl, ((same, unlinked), refl))),
      )

  transfer-waits :
      (t : NftTransactionData) (nft_id b : String) (n : NftEntity) (c : Chunk)
      → t.activity_type ≡ transfer
      → t.nft_token_id ≡ some nft_id
      → t.to_address ≡ some b
      → find_nft nft_id c.db.nfts ≡ some n
      → process_nft_update name_of t c ≡ record c {
        nfts_to_update =
            Map.set nft_id
              (record { owner_address = some b; last_activity_at = t.timestamp })
              c.nfts_to_update;
      }
  unfolding process_nft_update update_nft change_owner
  transfer-waits t nft_id b n c a k d f = grind arith

  burn-waits :
      (t : NftTransactionData) (nft_id : String) (n : NftEntity) (c : Chunk)
      → t.activity_type ≡ burn
      → t.nft_token_id ≡ some nft_id
      → find_nft nft_id c.db.nfts ≡ some n
      → process_nft_update name_of t c ≡ record c {
        nfts_to_update =
            Map.set nft_id
              (record { owner_address = none; last_activity_at = t.timestamp })
              c.nfts_to_update;
      }
  unfolding process_nft_update update_nft touch_nft
  burn-waits t nft_id n c a k f = grind arith

  touched-owner :
      (nft_id : String) (at : ℕ) (ns : List NftEntity)
      → map
          (λ x. x.owner_address)
          (map (update_row nft_id (record { owner_address = none; last_activity_at = at })) ns)
        ≡ map (λ x. x.owner_address) ns
  unfolding update_row updated_nft
  touched-owner nft_id at [] = refl
  touched-owner nft_id at (x ∷ ns) = grind (arith, touched-owner nft_id at ns)

  -- Within a chunk an update of an NFT replaces the one that waits: after a transfer to `b`, a burn of the
  -- same NFT in the same chunk only sets the time of the last activity, and leaves every owner as it was before the
  -- chunk.
  pub process_transaction_chunk-replaced :
      (t u : NftTransactionData) (nft_id b : String) (n : NftEntity) (db : Database)
      → t.activity_type ≡ transfer
      → t.nft_token_id ≡ some nft_id
      → t.to_address ≡ some b
      → u.activity_type ≡ burn
      → u.nft_token_id ≡ some nft_id
      → find_nft nft_id db.nfts ≡ some n
      → ((process_transaction_chunk name_of (t ∷ u ∷ []) db).0.nfts
          ≡ map
              (update_row nft_id (record { owner_address = none; last_activity_at = u.timestamp }))
              db.nfts)
        × (map (λ x. x.owner_address) (process_transaction_chunk name_of (t ∷ u ∷ []) db).0.nfts
            ≡ map (λ x. x.owner_address) db.nfts)
  unfolding process_transaction_chunk first_pass update_nfts save_collections Map.set
  process_transaction_chunk-replaced t u nft_id b n db a k d e l f =
      let same : str_eq nft_id nft_id ≡ true = grind (arith, eq_iff nft_id nft_id) in
      let start : Chunk = record { nfts_to_update = []; collections_to_create = []; db = db } in
      let both : process_nft_update name_of u (process_nft_update name_of t start) ≡ record start {
        nfts_to_update =
            (nft_id, record { owner_address = none; last_activity_at = u.timestamp }) ∷ [];
      } =
        rw (transfer-waits t nft_id b n start a k d f)
          (burn-waits u nft_id n _ e l f ∙ rw same refl) in
      let kept =
        ap
          (λ (c : Chunk).
            update_nfts c.nfts_to_update (save_collections c.collections_to_create c.db).nfts)
          both in
      (kept, ap (map (λ x. x.owner_address)) kept ∙ touched-owner nft_id u.timestamp db.nfts)
