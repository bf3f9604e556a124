-- ===== src/Transaction/Batch/Tests.antt =====
-- Batches at concrete inputs.
use v2_xrpl_tools.Prelude.Map
use v2_xrpl_tools.Prelude.Json.{field_of}
use v2_xrpl_tools.Prelude.Json.{text_value}
use v2_xrpl_tools.Prelude.{
  ℕ, ◌≡◌, refl, Bool, none, some, List, [], ◌∷◌, map, String, arith, ltb, not, Option,
}
use v2_xrpl_tools.Prelude.Json.{Json, text, number, object, field, closed}
use v2_xrpl_tools.Transaction.Data.{NftTransactionData, mint, burn, transfer}
use v2_xrpl_tools.Transaction.Batch.{process_transaction_chunk}
use v2_xrpl_tools.Transaction.Tables.{NftEntity, Database}
use v2_xrpl_tools.Transaction.Batch.Nfts.{IsUnique, process_transaction_chunk-IsUnique}

abbrev no_name : String → Option String
no_name s = none

abbrev mint_json : Json
mint_json = object (field "taxon" (number "5") (field "uri" (text "ipfs://a") closed))

abbrev mint_cat : NftTransactionData
mint_cat = record {
  transaction_hash = "M1";
  ledger_index = 7;
  timestamp = 100;
  activity_type = mint;
  nft_token_id = some "CAT";
  from_address = some "rMinter";
  to_address = some "rMinter";
  price_drops = none;
  currency = none;
  issuer = none;
  metadata = some mint_json;
}

abbrev transfer_cat : NftTransactionData
transfer_cat = record mint_cat {
  transaction_hash = "T2";
  timestamp = 200;
  activity_type = transfer;
  to_address = some "rBob";
  metadata = none;
}

abbrev burn_cat : NftTransactionData
burn_cat = record transfer_cat {
  transaction_hash = "B3";
  timestamp = 300;
  activity_type = burn;
  to_address = none;
}

abbrev empty_db : Database
empty_db = record {
  next_id = 1;
  nfts = [];
  collections = [];
  activities = [];
  enrichment_queue = [];
}

abbrev cat_row : NftEntity
cat_row = record {
  id = 1;
  nft_id = "CAT";
  collection_id = none;
  owner_address = "rMinter";
  metadata_uri_hex = none;
  metadata_uri = none;
  last_activity_at = 100;
}

abbrev cat_db : Database
cat_db = record empty_db { next_id = 2; nfts = cat_row ∷ [] }

-- a mint is put into the queue for its metadata
mint_queued :
    (process_transaction_chunk no_name (mint_cat ∷ []) empty_db).0.enrichment_queue ≡ "CAT" ∷ []
unfolding process_transaction_chunk text_value field_of Map.get Map.set
mint_queued = refl

-- a transfer in a chunk of its own changes the owner
transfer_changes_owner :
    map (λ n. n.owner_address) (process_transaction_chunk no_name (transfer_cat ∷ []) cat_db).0.nfts
    ≡ "rBob" ∷ []
unfolding process_transaction_chunk Map.set
transfer_changes_owner = refl

abbrev three : List NftTransactionData
three = mint_cat ∷ transfer_cat ∷ burn_cat ∷ []

abbrev second_fails : ℕ → Bool
second_fails k = not (ltb k 1)

empty-IsUnique : IsUnique empty_db.nfts
empty-IsUnique k = omega arith

process_transaction_chunk-IsUnique_example :
    IsUnique (process_transaction_chunk no_name (mint_cat ∷ mint_cat ∷ []) empty_db).0.nfts
process_transaction_chunk-IsUnique_example =
    process_transaction_chunk-IsUnique no_name (mint_cat ∷ mint_cat ∷ []) empty_db empty-IsUnique
