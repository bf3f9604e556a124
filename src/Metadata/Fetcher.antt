-- ===== src/Metadata/Fetcher.antt =====
-- src/features/metadata/services/nft-metadata-fetcher.service.ts: the metadata of an NFT, from the bucket,
-- from a gateway of IPFS or from a web address. A document of the bucket is read back as the
-- texts that were written.
pub mod Sources
use Prim.Native.Char.{code}
use Prim.Native.String.{[] as empty, ◌∷◌ as char}
use v2_xrpl_tools.Prelude.{
  ℕ, Bool, true, false, not, ◌&&◌, ◌||◌, Option, none, some, List, [], ◌∷◌, String, str_eq, leb,
  if◌then◌else◌, is_some,
}
use v2_xrpl_tools.Prelude.Map
use v2_xrpl_tools.Prelude.Outcome.{Outcome, done, raised}
use v2_xrpl_tools.Prelude.Json.{Json, field_of, when_truthy}
use v2_xrpl_tools.Prelude.Words.{strip_prefix}
use v2_xrpl_tools.Metadata.Normalize.{validate_and_normalize_metadata}
use v2_xrpl_tools.Metadata.Images.{
  Network, CachedMetadata, Bucket, gateway_urls, fetch_and_cache_image,
}

pub data Source : Type 0 where
  ipfs http cache error : Source

pub record MetadataFetchResult : Type 0 where
  pub metadata : Option Json
  pub cached : Bool
  pub source : Source
  pub error_message : Option String

-- the runtime's text of a value, the text that bytes in hexadecimal stand for, and the present time
pub record Decoder : Type 0 where
  pub text_of : Json → String
  pub from_hex : String → String
  pub now : String

unfoldable pub is_hex_digit : ℕ → Bool
is_hex_digit c =
    (leb b'0' c && leb c b'9') || ((leb b'A' c && leb c b'F') || (leb b'a' c && leb c b'f'))

unfoldable pub all_hex : String → Bool
unfolding is_hex_digit
all_hex empty = true
all_hex (char c s) = is_hex_digit (code c) && all_hex s

unfoldable pub decode_xrpl_uri : Decoder → String → String
unfolding all_hex
decode_xrpl_uri d uri = if all_hex uri && not (str_eq uri "") then d.from_hex uri else uri

-- The body of one answer in the standard form, or none where the call, or the form, fails.
unfoldable pub fetch_from_http : Decoder → Network → String → Option Json
unfolding validate_and_normalize_metadata
fetch_from_http d net url = elim (net.json url) [
  | raised e ↦ none
  | done body ↦ elim (validate_and_normalize_metadata d.text_of (some body)) [
    | raised e ↦ none
    | done m ↦ m
  ]
]

unfoldable pub try_gateways : Decoder → Network → List String → Option Json
unfolding fetch_from_http
try_gateways d net [] = none
try_gateways d net (url ∷ urls) =
    let rest = try_gateways d net urls in
    elim (fetch_from_http d net url) [ some m ↦ some m | none ↦ rest ]

unfoldable pub fetch_metadata_from_uri : Decoder → Network → String → Option Json
unfolding decode_xrpl_uri try_gateways strip_prefix
fetch_metadata_from_uri d net uri =
    let decoded = decode_xrpl_uri d uri in
    if str_eq uri "" then none else elim (strip_prefix "ipfs://" decoded) [
      | some hash ↦ try_gateways d net (gateway_urls hash)
      | none ↦
          if is_some (strip_prefix "http://" decoded) || is_some (strip_prefix "https://" decoded)
          then fetch_from_http d net decoded
          else none
    ]

unfoldable pub get_uri_source : String → Source
unfolding strip_prefix
get_uri_source uri = if is_some (strip_prefix "ipfs://" uri) then ipfs else http

-- A time in memory: a date, by its text, or the text that `JSON.parse` leaves for one.
pub data Stamp : Type 0 where
  date parsed_text : String → Stamp

abbrev pub to_iso_string : Stamp → Outcome String
to_iso_string (date t) = done t
to_iso_string (parsed_text t) = raised "cached.cachedAt.toISOString is not a function"

-- what `JSON.stringify` writes for a time
abbrev pub written_stamp : Stamp → String
written_stamp (date t) = t
written_stamp (parsed_text t) = t

-- a document in memory
pub record LoadedMetadata : Type 0 where
  pub metadata : Json
  pub original_uri : String
  pub cached_at : Stamp
  pub last_accessed : Stamp

abbrev pub parse_document : CachedMetadata → LoadedMetadata
parse_document c = record {
  metadata = c.metadata;
  original_uri = c.original_uri;
  cached_at = parsed_text c.cached_at;
  last_accessed = parsed_text c.last_accessed;
}

-- The document is put again with its new time, unless a time is no date: then the `catch` leaves it.
unfoldable pub update_cache_access : String → LoadedMetadata → Bucket → Bucket
unfolding Map.set
update_cache_access nft_id c b = elim (to_iso_string c.cached_at) [
  | raised e ↦ b
  | done cached ↦ elim (to_iso_string c.last_accessed) [
    | raised e ↦ b
    | done accessed ↦ record b {
      documents =
          Map.set nft_id
            (record {
              metadata = c.metadata;
              original_uri = c.original_uri;
              cached_at = written_stamp c.cached_at;
              last_accessed = written_stamp c.last_accessed;
            })
            b.documents;
    }
  ]
]

unfoldable pub get_cached_metadata : String → String → Option Bucket → Option Json × Option Bucket
unfolding Map.get update_cache_access
get_cached_metadata now nft_id none = (none, none)
get_cached_metadata now nft_id (some b) = elim (Map.get nft_id b.documents) [
  | none ↦ (none, some b)
  | some c ↦
      let loaded : LoadedMetadata = record (parse_document c) { last_accessed = date now } in
      (some loaded.metadata, some (update_cache_access nft_id loaded b))
]

unfoldable pub cache_metadata : String → String → String → Json → Option Bucket → Option Bucket
unfolding Map.set
cache_metadata now nft_id uri m none = none
cache_metadata now nft_id uri m (some b) = some (record b {
  documents =
      Map.set nft_id
        (record { metadata = m; original_uri = uri; cached_at = now; last_accessed = now })
        b.documents;
})

unfoldable pub cache_image : Network → String → Json → Option Bucket → Option Bucket
unfolding fetch_and_cache_image
cache_image net nft_id m b = elim (when_truthy (field_of "image" (some m))) [
  | none ↦ b
  | some image ↦ (fetch_and_cache_image net nft_id image b).1
]

-- what follows the look into the bucket
unfoldable pub after_bucket :
    Decoder
    → Network
    → String
    → String
    → Option Json × Option Bucket
    → MetadataFetchResult × Option Bucket
unfolding fetch_metadata_from_uri cache_metadata cache_image get_uri_source
after_bucket d net nft_id uri (found, b) = elim found [
  | some m ↦ (record { metadata = some m; cached = true; source = cache; error_message = none }, b)
  | none ↦ elim (fetch_metadata_from_uri d net uri) [
    | none ↦ (
      record {
        metadata = none;
        cached = false;
        source = error;
        error_message = some "Failed to fetch metadata";
      },
      b,
    )
    | some m ↦ (
      record {
        metadata = some m;
        cached = false;
        source = get_uri_source uri;
        error_message = none;
      },
      cache_image net nft_id m (cache_metadata d.now nft_id uri m b),
    )
  ]
]

unfoldable pub fetch_nft_metadata :
    Decoder → Network → String → String → Option Bucket → MetadataFetchResult × Option Bucket
unfolding get_cached_metadata after_bucket
fetch_nft_metadata d net nft_id uri b =
    after_bucket d net nft_id uri (get_cached_metadata d.now nft_id b)
