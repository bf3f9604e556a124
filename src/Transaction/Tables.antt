-- ===== src/Transaction/Tables.antt =====
-- The rows that the batch processor writes: the entities of src/database/entities, and the database as
-- a record of tables. It numbers its keys.
use v2_xrpl_tools.Prelude.{
  ℕ, ◌&&◌, Option, none, some, List, [], ◌∷◌, ◌++◌, String, str_eq, if◌then◌else◌, find?, any,
}
use v2_xrpl_tools.Prelude.Map.{Map}
use v2_xrpl_tools.Transaction.Data.{NftTransactionData}

-- NftEntity; what the enrichment fills in later is null.
pub record NftEntity : Type 0 where
  pub id : ℕ
  pub nft_id : String
  pub collection_id : Option ℕ
  pub owner_address : String
  pub metadata_uri_hex : Option String
  pub metadata_uri : Option String
  pub last_activity_at : ℕ

-- CollectionEntity; an entity that is not saved has no key.
pub record CollectionEntity : Type 0 where
  pub id : Option ℕ
  pub issuer_address : String
  pub taxon : String
  pub name : Option String
  pub first_mint_transaction : String

pub record NftActivityEntity : Type 0 where
  pub id : ℕ
  pub nft_id : Option ℕ
  pub transaction : NftTransactionData

pub record Database : Type 0 where
  pub next_id : ℕ
  pub nfts : List NftEntity
  pub collections : List CollectionEntity
  pub activities : List NftActivityEntity
  pub enrichment_queue : List String

pub record NftUpdate : Type 0 where
  pub owner_address : Option String
  pub last_activity_at : ℕ

-- the maps of `processTransactionChunk`, with the transaction's view of the database
pub record Chunk : Type 0 where
  pub nfts_to_update : Map NftUpdate
  pub collections_to_create : Map CollectionEntity
  pub db : Database

unfoldable pub find_nft : String → List NftEntity → Option NftEntity
find_nft nft_id ns = find? (λ n. str_eq n.nft_id nft_id) ns

unfoldable pub find_collection : String → String → List CollectionEntity → Option CollectionEntity
find_collection issuer taxon cs =
    find? (λ c. str_eq c.issuer_address issuer && str_eq c.taxon taxon) cs

-- `ON CONFLICT (nft_id) DO NOTHING`
unfoldable pub queue_metadata_enrichment : String → Database → Database
queue_metadata_enrichment nft_id db =
    if any (λ q. str_eq q nft_id) db.enrichment_queue
    then db
    else record db { enrichment_queue = db.enrichment_queue ++ nft_id ∷ [] }

abbrev pub or_text : Option String → Option String → Option String
or_text none b = b
or_text (some a) b = some a

abbrev pub text_or : Option String → String → String
text_or none d = d
text_or (some a) d = a
