-- ===== src/Metadata/Tests.antt =====
-- Metadata at concrete inputs.
use v2_xrpl_tools.Prelude.{
  ◌≡◌, refl, true, false, none, some, [], ◌∷◌, String, arith, str_eq, eq_iff, ◌≢◌, if◌then◌else◌,
}
use v2_xrpl_tools.Prelude.Map
use v2_xrpl_tools.Prelude.Outcome.{done, raised}
use v2_xrpl_tools.Prelude.Json.{
  Json, text, boolean, array, object, Elements, end, element, field, closed,
}
use v2_xrpl_tools.Alert.Data.{TraitFilter}
use v2_xrpl_tools.Alert.Traits.{Runtime}
use v2_xrpl_tools.Metadata.Images.{Network, Bucket}
use v2_xrpl_tools.Metadata.Fetcher.{Decoder, cache, fetch_nft_metadata}
use v2_xrpl_tools.Metadata.Fetcher.Sources.{fetch_nft_metadata-again}
use v2_xrpl_tools.Metadata.Enrichment.{
  NftRow, Enrichment, process_enrichment_queue, get_pending_nfts,
}
use v2_xrpl_tools.Metadata.Enrichment.Exhausted.{exhausted, process_enrichment_queue-exhausted}

abbrev no_text : Json → String
no_text j = "a value"

abbrev raw_attributes : Elements
raw_attributes =
    element (object (field "type" (text "Fur") (field "value" (boolean true) closed)))
      (element (object (field "type" (text "Eyes") closed)) end)

abbrev fur : Json
fur = object (field "trait_type" (text "a value") (field "value" (text "true") closed))

abbrev cat : Json
cat = object (field "title" (text "Cat") (field "image" (text "https://x/cat") closed))

-- the second gateway answers
abbrev online : Network
online = record {
  json = λ url.
      if str_eq url "https://gateway.pinata.cloud/ipfs/Qm" then done cat else raised "timeout";
  image = λ url. done (some "image/png");
  to_lower_case = λ s. s;
}

abbrev offline : Network
offline = record {
  json = λ url. raised "down";
  image = λ url. raised "down";
  to_lower_case = λ s. s;
}

abbrev empty_bucket : Bucket
empty_bucket = record { name = "b"; documents = []; images = [] }

abbrev cat_bucket : Bucket
cat_bucket = record { name = "b"; documents = []; images = "nft-metadata/images/CAT.png" ∷ [] }

abbrev decoder : Decoder
decoder = record { text_of = no_text; from_hex = λ s. s; now = "1" }

abbrev normal_cat : Json
normal_cat = object (field "name" (text "Cat") (field "image" (text "https://x/cat") closed))

fetch_nft_metadata-again_example :
    let kept = (fetch_nft_metadata decoder online "CAT" "ipfs://Qm" (some empty_bucket)).1 in
    fetch_nft_metadata (record decoder { now = "2" }) offline "CAT" "other" kept ≡ (
      record { metadata = some normal_cat; cached = true; source = cache; error_message = none },
      kept,
    )
unfolding fetch_nft_metadata
fetch_nft_metadata-again_example =
    fetch_nft_metadata-again decoder (record decoder { now = "2" }) online offline "CAT" "ipfs://Qm"
      "other" normal_cat empty_bucket refl

abbrev furry : Json
furry = object (field "attributes" (array (element fur end)) closed)

abbrev fur_filter : TraitFilter
fur_filter = record { trait_type = "Fur"; value = text "true"; operator = "equals" }

abbrev plain_runtime : Runtime
plain_runtime = record {
  number_of = λ s. none;
  less = λ s t. false;
  lower = λ s. s;
  shown = λ v. "";
  includes = λ s t. false;
}

fur_other : ◌≢◌ {A = String} "Fur" "attributes"
fur_other e = grind (arith, (eq_iff "Fur" "attributes").1 e)

abbrev given_up_row : NftRow
given_up_row = record {
  metadata_uri = some "ipfs://Qm";
  metadata = none;
  traits = none;
  image_url = none;
  image_s3_url = none;
  metadata_fetch_error = some "Failed to fetch metadata";
  image_fetch_error = none;
}

abbrev given_up : Enrichment
given_up = record {
  rows = ("CAT", given_up_row) ∷ [];
  queue =
      record { nft_id = "CAT"; status = "pending"; retry_count = 3; next_retry_at = 1800000 } ∷ [];
  bucket = none;
}

-- with two retries behind it, the same NFT is taken
two_retries_taken :
    get_pending_nfts 1800000 (record given_up {
      queue =
          record { nft_id = "CAT"; status = "pending"; retry_count = 2; next_retry_at = 1800000 }
          ∷ [];
    })
    ≡ "CAT" ∷ []
unfolding get_pending_nfts Map.get
two_retries_taken = refl

process_enrichment_queue-exhausted_example :
    (Map.get "CAT" (process_enrichment_queue decoder online 9000000 given_up).rows
      ≡ Map.get "CAT" given_up.rows)
    × (exhausted "CAT" (process_enrichment_queue decoder online 9000000 given_up).queue ≡ true)
process_enrichment_queue-exhausted_example =
    process_enrichment_queue-exhausted decoder online 9000000 "CAT" given_up refl
