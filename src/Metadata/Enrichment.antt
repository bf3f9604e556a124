-- ===== src/Metadata/Enrichment.antt =====
-- src/features/metadata/services/metadata-enrichment.service.ts: the timer that fills in the metadata of
-- new NFTs. The state is the rows of the NFTs, the queue in the order of its creation, and the bucket.
-- The NFTs of one run are taken one after the other; they share no row. The database's calls succeed.
pub mod Exhausted
pub mod Traits
use v2_xrpl_tools.Prelude.{
  ℕ, suc, ◌+◌, ◌*◌, min, Bool, true, false, not, ◌&&◌, Option, none, some, List, [], ◌∷◌, map,
  filter, take, String, str_eq, ltb, leb, find?, get_elem?, if◌then◌else◌, is_some,
}
use v2_xrpl_tools.Prelude.Map
use v2_xrpl_tools.Prelude.Map.{Map}
use v2_xrpl_tools.Prelude.Outcome.{Outcome, done, raised}
use v2_xrpl_tools.Prelude.Json.{Json, object, field, closed, field_of, when_truthy}
use v2_xrpl_tools.Metadata.Images.{Network, Bucket, fetch_and_cache_image}
use v2_xrpl_tools.Metadata.Fetcher.{Decoder, MetadataFetchResult, fetch_nft_metadata}

pub record NftRow : Type 0 where
  pub metadata_uri : Option String
  pub metadata : Option Json
  pub traits : Option Json
  pub image_url : Option Json
  pub image_s3_url : Option String
  pub metadata_fetch_error : Option String
  pub image_fetch_error : Option String

pub record QueueRow : Type 0 where
  pub nft_id : String
  pub status : String
  pub retry_count : ℕ
  pub next_retry_at : ℕ

pub record Enrichment : Type 0 where
  pub rows : Map NftRow
  pub queue : List QueueRow
  pub bucket : Option Bucket

abbrev pub max_retry_count : ℕ
max_retry_count = 3

abbrev pub batch_limit : ℕ
batch_limit = 10

unfoldable pub is_due : ℕ → QueueRow → Bool
is_due now q =
    str_eq q.status "pending" && (ltb q.retry_count max_retry_count && leb q.next_retry_at now)

-- the keys of the NFTs; a row of the queue has its NFT
unfoldable pub get_pending_nfts : ℕ → Enrichment → List String
unfolding is_due
get_pending_nfts now s =
    take batch_limit (
      map (λ q. q.nft_id) (filter (λ q. is_due now q && is_some (Map.get q.nft_id s.rows)) s.queue))

unfoldable pub update_nft_row : String → (NftRow → NftRow) → Enrichment → Enrichment
update_nft_row id f s = elim (Map.get id s.rows) [
  | none ↦ s
  | some r ↦ record s { rows = Map.set id (f r) s.rows }
]

unfoldable pub set_status : String → String → QueueRow → QueueRow
set_status id status q = if str_eq q.nft_id id then record q { status = status } else q

unfoldable pub update_queue_status : String → String → Enrichment → Enrichment
unfolding set_status
update_queue_status id status s = record s { queue = map (set_status id status) s.queue }

-- in milliseconds
abbrev pub enrichment_delays : List ℕ
enrichment_delays = 60000 ∷ 300000 ∷ 1800000 ∷ []

unfoldable pub count_retries : String → Enrichment → ℕ
count_retries id s = elim (find? (λ q. str_eq q.nft_id id) s.queue) [
  | none ↦ 0
  | some q ↦ q.retry_count
]

unfoldable pub enrichment_delay : ℕ → ℕ
enrichment_delay retries = elim (get_elem? enrichment_delays (min 2 retries)) [
  | none ↦ 0
  | some d ↦ d
]

unfoldable pub set_retry : String → ℕ → QueueRow → QueueRow
set_retry id at q =
    if str_eq q.nft_id id && ltb q.retry_count max_retry_count
    then record q { retry_count = suc q.retry_count; next_retry_at = at }
    else q

unfoldable pub update_queue_for_retry : ℕ → String → Enrichment → Enrichment
unfolding count_retries enrichment_delay set_retry
update_queue_for_retry now id s =
    let at = now + enrichment_delay (count_retries id s) in
    record s { queue = map (set_retry id at) s.queue }

-- `metadata.attributes ? { attributes } : null`
unfoldable pub stored_traits : Json → Option Json
stored_traits m = elim (when_truthy (field_of "attributes" (some m))) [
  | none ↦ none
  | some a ↦ some (object (field "attributes" a closed))
]

unfoldable pub with_metadata : Json → NftRow → NftRow
unfolding stored_traits
with_metadata m r = record r {
  metadata = some m;
  image_url = when_truthy (field_of "image" (some m));
  traits = stored_traits m;
  metadata_fetch_error = none;
}

unfoldable pub with_image_answer : Option String → NftRow → NftRow
with_image_answer (some url) r = record r { image_s3_url = some url; image_fetch_error = none }
with_image_answer none r = record r {
  image_fetch_error = some "Failed to fetch/cache image - no S3 URL returned";
}

unfoldable pub with_error : String → NftRow → NftRow
with_error e r = record r { metadata_fetch_error = some e }

unfoldable pub fail_nft : ℕ → String → String → Enrichment → Enrichment
unfolding update_nft_row with_error update_queue_for_retry
fail_nft now id e s = update_queue_for_retry now id (update_nft_row id (with_error e) s)

unfoldable pub enrich_image : Network → String → Json → Enrichment → Enrichment
unfolding update_nft_row with_image_answer fetch_and_cache_image
enrich_image net id m s = elim (when_truthy (field_of "image" (some m))) [
  | none ↦ s
  | some image ↦
      let (answer, bucket) = fetch_and_cache_image net id image s.bucket in
      update_nft_row id (with_image_answer answer) (record s { bucket = bucket })
]

-- `error || message`
abbrev pub or_message : Option String → String → String
or_message none d = d
or_message (some e) d = if str_eq e "" then d else e

unfoldable pub enrich_nft : Decoder → Network → ℕ → String → Option String → Enrichment → Enrichment
unfolding fetch_nft_metadata update_nft_row with_metadata enrich_image update_queue_status fail_nft
enrich_nft d net now id none s = fail_nft now id "NFT has no metadata URI" s
enrich_nft d net now id (some uri) s =
    let (r, bucket) = fetch_nft_metadata d net id uri s.bucket in
    elim r.metadata [
      | none ↦
          fail_nft now id (or_message r.error_message "Failed to fetch metadata")
            (record s { bucket = bucket })
      | some m ↦ update_queue_status id "completed" (
          enrich_image net id m
            (update_nft_row id (with_metadata m) (record s { bucket = bucket })))
    ]

-- An empty URI counts as none.
unfoldable pub uri_of : String → Enrichment → Option String
uri_of id s = elim (Map.get id s.rows) [
  | none ↦ none
  | some r ↦ elim r.metadata_uri [ none ↦ none | some u ↦ if str_eq u "" then none else some u ]
]

unfoldable pub enrich_all : Decoder → Network → ℕ → List String → Enrichment → Enrichment
unfolding enrich_nft uri_of
enrich_all d net now [] s = s
enrich_all d net now (id ∷ ids) s =
    enrich_all d net now ids (enrich_nft d net now id (uri_of id s) s)

unfoldable pub process_enrichment_queue : Decoder → Network → ℕ → Enrichment → Enrichment
unfolding get_pending_nfts enrich_all
process_enrichment_queue d net now s = enrich_all d net now (get_pending_nfts now s) s

unfoldable pub enrich_specific_nft :
    Decoder → Network → ℕ → String → Enrichment → Outcome Enrichment
unfolding enrich_nft uri_of
enrich_specific_nft d net now id s =
    if is_some (Map.get id s.rows)
    then done (enrich_nft d net now id (uri_of id s) s)
    else raised "NFT not found"
