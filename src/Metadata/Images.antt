-- ===== src/Metadata/Images.antt =====
-- src/features/metadata/services/nft-metadata-fetcher.service.ts: the images that are kept in the bucket.
-- The network's answers and the runtime's lower case are a record; the bucket's calls succeed, apart from
-- reading a key that is not there.
pub mod Cached
use v2_xrpl_tools.Prelude.{
  Bool, true, false, Option, none, some, List, [], ◌∷◌, map, String, str_eq, find?, if◌then◌else◌,
  any, is_some,
}
use v2_xrpl_tools.Prelude.Map
use v2_xrpl_tools.Prelude.Map.{Map}
use v2_xrpl_tools.Prelude.Outcome.{Outcome, done, raised}
use v2_xrpl_tools.Prelude.Json.{Json, text}
use v2_xrpl_tools.Prelude.Words.{words, strip_prefix, includes}

-- what `axios.get` gives: a JSON body, and for an image the content type of the answer
pub record Network : Type 0 where
  pub json : String → Outcome Json
  pub image : String → Outcome (Option String)
  pub to_lower_case : String → String

-- a document of the bucket; its times are texts
pub record CachedMetadata : Type 0 where
  pub metadata : Json
  pub original_uri : String
  pub cached_at : String
  pub last_accessed : String

pub record Bucket : Type 0 where
  pub name : String
  pub documents : Map CachedMetadata
  pub images : List String

abbrev pub ipfs_gateways : List String
ipfs_gateways =
    "https://ipfs.io/ipfs/" ∷ "https://gateway.pinata.cloud/ipfs/"
    ∷ "https://cloudflare-ipfs.com/ipfs/" ∷ []

abbrev pub gateway_urls : String → List String
gateway_urls hash = map (λ g. words (g ∷ hash ∷ [])) ipfs_gateways

abbrev pub extensions : List String
extensions = ".jpg" ∷ ".jpeg" ∷ ".png" ∷ ".gif" ∷ ".webp" ∷ ".svg" ∷ []

abbrev pub image_key : String → String → String
image_key nft_id ext = words ("nft-metadata/images/" ∷ nft_id ∷ ext ∷ [])

abbrev pub image_url : Bucket → String → String
image_url b key = words ("https://" ∷ b.name ∷ ".s3.amazonaws.com/" ∷ key ∷ [])

unfoldable pub is_kept : String → Bucket → Bool
is_kept key b = any (λ k. str_eq k key) b.images

unfoldable pub first_kept : String → List String → Bucket → Option String
unfolding is_kept
first_kept nft_id [] b = none
first_kept nft_id (e ∷ es) b =
    let rest = first_kept nft_id es b in
    if is_kept (image_key nft_id e) b then some (image_url b (image_key nft_id e)) else rest

unfoldable pub get_cached_image_url : String → Bucket → Option String
unfolding first_kept
get_cached_image_url nft_id b = first_kept nft_id extensions b

abbrev pub content_types : Map String
content_types =
    ("jpg", "image/jpeg")
    ∷ ("jpeg", "image/jpeg")
    ∷ ("png", "image/png")
    ∷ ("gif", "image/gif")
    ∷ ("webp", "image/webp")
    ∷ ("svg", "image/svg+xml")
    ∷ []

unfoldable pub first_included : String → Map String → Option String
unfolding includes
first_included ct [] = none
first_included ct ((k, v) ∷ m) =
    let rest = first_included ct m in if includes k ct then some v else rest

unfoldable pub normalize_content_type : Network → Option String → Option String
unfolding first_included strip_prefix Map.get
normalize_content_type net none = none
normalize_content_type net (some content_type) =
    let ct = net.to_lower_case content_type in
    if str_eq content_type ""
    then none
    else if is_some (strip_prefix "image/" ct)
    then some ct
    else elim (Map.get ct content_types) [
      | some v ↦ some v
      | none ↦ first_included ct content_types
    ]

abbrev pub image_extensions : Map String
image_extensions =
    ("image/jpeg", ".jpg")
    ∷ ("image/jpg", ".jpg")
    ∷ ("image/png", ".png")
    ∷ ("image/gif", ".gif")
    ∷ ("image/webp", ".webp")
    ∷ ("image/svg+xml", ".svg")
    ∷ []

unfoldable pub get_image_extension : Network → String → String
unfolding Map.get
get_image_extension net content_type =
    elim (Map.get (net.to_lower_case content_type) image_extensions) [ none ↦ ".jpg" | some e ↦ e ]

-- The first address that answers.
unfoldable pub first_response : Network → List String → Option (Option String)
first_response net [] = none
first_response net (url ∷ urls) =
    let rest = first_response net urls in
    elim (net.image url) [ done content_type ↦ some content_type | raised e ↦ rest ]

unfoldable pub image_sources : String → List String
unfolding strip_prefix
image_sources url = elim (strip_prefix "ipfs://" url) [
  | some hash ↦ gateway_urls hash
  | none ↦ url ∷ []
]

unfoldable pub keep_image :
    Network → String → Option String → Bucket → Option String × Option Bucket
unfolding normalize_content_type get_image_extension
keep_image net nft_id content_type b = elim (normalize_content_type net content_type) [
  | none ↦ (none, some b)
  | some ct ↦
      let key = image_key nft_id (get_image_extension net ct) in
      (some (image_url b key), some (record b { images = key ∷ b.images }))
]

-- Every error is caught, and gives null; a URL that is not a text throws.
unfoldable pub fetch_and_cache_image :
    Network → String → Json → Option Bucket → Option String × Option Bucket
unfolding get_cached_image_url image_sources first_response keep_image
fetch_and_cache_image net nft_id url none = (none, none)
fetch_and_cache_image net nft_id url (some b) = elim (get_cached_image_url nft_id b) [
  | some cached ↦ (some cached, some b)
  | none ↦ elim url [
    | text u ↦ elim (first_response net (image_sources u)) [
      | none ↦ (none, some b)
      | some content_type ↦ keep_image net nft_id content_type b
    ]
    | _ ↦ (none, some b)
  ]
]
