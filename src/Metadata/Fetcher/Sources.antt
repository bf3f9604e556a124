-- ===== src/Metadata/Fetcher/Sources.antt =====
-- Where metadata comes from: a document that was cached is returned from then on.
use v2_xrpl_tools.Prelude.{
  ◌≡◌, refl, true, false, Option, none, some, List, [], String, arith, Option-cases, inl, inr, ap,
  ◌∙◌, sym,
}
use v2_xrpl_tools.Prelude.Map
use v2_xrpl_tools.Prelude.Map.{get-set-same}
use v2_xrpl_tools.Prelude.Json.{
  Json, null, boolean, number, text, array, object, field_of, when_truthy,
}
use v2_xrpl_tools.Metadata.Images.{
  Network, CachedMetadata, Bucket, fetch_and_cache_image, get_cached_image_url, first_response,
  image_sources, keep_image, normalize_content_type,
}
use v2_xrpl_tools.Metadata.Fetcher.{
  Decoder, MetadataFetchResult, cache, get_cached_metadata, cache_metadata, cache_image,
  update_cache_access, fetch_metadata_from_uri, fetch_nft_metadata, get_uri_source, after_bucket,
}

-- the documents of a bucket that may not be there
abbrev documents_of : Option Bucket → List (String × CachedMetadata)
documents_of none = []
documents_of (some b) = b.documents

keep_image-documents :
    (net : Network) (nft_id : String) (ct : Option String) (b : Bucket)
    → documents_of (keep_image net nft_id ct b).1 ≡ b.documents
unfolding keep_image
keep_image-documents net nft_id ct b = elim (Option-cases (normalize_content_type net ct)) [
  | inl e ↦ rw (keep_image, e) refl
  | inr (c, e) ↦ rw (keep_image, e) refl
]

fetched-documents :
    (net : Network) (nft_id : String) (url : Json) (b : Bucket)
    → get_cached_image_url nft_id b ≡ none
    → documents_of (fetch_and_cache_image net nft_id url (some b)).1 ≡ b.documents
unfolding fetch_and_cache_image
fetched-documents net nft_id null b e = rw (fetch_and_cache_image, e) refl
fetched-documents net nft_id (boolean x) b e = rw (fetch_and_cache_image, e) refl
fetched-documents net nft_id (number x) b e = rw (fetch_and_cache_image, e) refl
fetched-documents net nft_id (array x) b e = rw (fetch_and_cache_image, e) refl
fetched-documents net nft_id (object x) b e = rw (fetch_and_cache_image, e) refl
fetched-documents net nft_id (text t) b e =
    elim (Option-cases (first_response net (image_sources t))) [
      | inl f ↦ rw (fetch_and_cache_image, e, f) refl
      | inr (ct, f) ↦ rw (fetch_and_cache_image, e, f) (keep_image-documents net nft_id ct b)
    ]

image-documents :
    (net : Network) (nft_id : String) (url : Json) (b : Bucket)
    → documents_of (fetch_and_cache_image net nft_id url (some b)).1 ≡ b.documents
unfolding fetch_and_cache_image
image-documents net nft_id url b = elim (Option-cases (get_cached_image_url nft_id b)) [
  | inr (c, e) ↦ rw (fetch_and_cache_image, e) refl
  | inl e ↦ fetched-documents net nft_id url b e
]

cache_image-documents :
    (net : Network) (nft_id : String) (m : Json) (b : Bucket)
    → documents_of (cache_image net nft_id m (some b)) ≡ b.documents
unfolding cache_image
cache_image-documents net nft_id m b =
    elim (Option-cases (when_truthy (field_of "image" (some m)))) [
      | inl e ↦ rw (cache_image, e) refl
      | inr (i, e) ↦ rw (cache_image, e) (image-documents net nft_id i b)
    ]

-- the metadata of a document that is there
abbrev metadata_of : Option CachedMetadata → Option Json
metadata_of none = none
metadata_of (some c) = some c.metadata

abbrev kept_metadata : String → Option Bucket → Option Json
kept_metadata nft_id b = metadata_of (Map.get nft_id (documents_of b))

-- Reading a document leaves the bucket as it is: its time is a text, so it is not put again.
get_cached_metadata-kept :
    (now nft_id : String) (b : Option Bucket)
    → get_cached_metadata now nft_id b ≡ (kept_metadata nft_id b, b)
unfolding get_cached_metadata update_cache_access Map.get
get_cached_metadata-kept now nft_id none = refl
get_cached_metadata-kept now nft_id (some b) = elim (Option-cases (Map.get nft_id b.documents)) [
  | inl e ↦ rw (get_cached_metadata, kept_metadata, e) refl
  | inr (c, e) ↦ rw (get_cached_metadata, kept_metadata, e) refl
]

abbrev kept_result : Json → MetadataFetchResult
kept_result m = record { metadata = some m; cached = true; source = cache; error_message = none }

from_cache :
    (d : Decoder) (net : Network) (nft_id uri : String) (c : Json) (b : Option Bucket)
    → kept_metadata nft_id b ≡ some c
    → fetch_nft_metadata d net nft_id uri b ≡ (kept_result c, b)
unfolding fetch_nft_metadata after_bucket
from_cache d net nft_id uri c b e =
    ap (after_bucket d net nft_id uri) (get_cached_metadata-kept d.now nft_id b)
    ∙ rw (after_bucket, e) refl

from_nowhere :
    (d : Decoder) (net : Network) (nft_id uri : String) (b : Option Bucket)
    → kept_metadata nft_id b ≡ none
    → fetch_metadata_from_uri d net uri ≡ none
    → (fetch_nft_metadata d net nft_id uri b).0.metadata ≡ none
unfolding fetch_nft_metadata after_bucket
from_nowhere d net nft_id uri b e f =
    ap (λ r. (after_bucket d net nft_id uri r).0.metadata) (get_cached_metadata-kept d.now nft_id b)
    ∙ rw (after_bucket, e, f) refl

from_uri :
    (d : Decoder) (net : Network) (nft_id uri : String) (n : Json) (b : Option Bucket)
    → kept_metadata nft_id b ≡ none
    → fetch_metadata_from_uri d net uri ≡ some n
    → fetch_nft_metadata d net nft_id uri b ≡ (
      record {
        metadata = some n;
        cached = false;
        source = get_uri_source uri;
        error_message = none;
      },
      cache_image net nft_id n (cache_metadata d.now nft_id uri n b),
    )
unfolding fetch_nft_metadata after_bucket
from_uri d net nft_id uri n b e f =
    ap (after_bucket d net nft_id uri) (get_cached_metadata-kept d.now nft_id b)
    ∙ rw (after_bucket, e, f) refl

uri-cached :
    (net : Network) (now nft_id uri : String) (n : Json) (b : Bucket)
    → kept_metadata nft_id (cache_image net nft_id n (cache_metadata now nft_id uri n (some b)))
      ≡ some n
unfolding cache_metadata
uri-cached net now nft_id uri n b =
    let c : CachedMetadata = record {
      metadata = n;
      original_uri = uri;
      cached_at = now;
      last_accessed = now;
    } in
    let stored : Map.get nft_id
          (documents_of (cache_image net nft_id n (cache_metadata now nft_id uri n (some b))))
        ≡ some c =
      ap (Map.get nft_id)
        (cache_image-documents net nft_id n (record b { documents = Map.set nft_id c b.documents }))
      ∙ get-set-same nft_id c b.documents in
    ap metadata_of stored

fetched-cached :
    (d : Decoder) (net : Network) (nft_id uri : String) (m : Json) (b : Bucket)
    → (fetch_nft_metadata d net nft_id uri (some b)).0.metadata ≡ some m
    → kept_metadata nft_id (fetch_nft_metadata d net nft_id uri (some b)).1 ≡ some m
fetched-cached d net nft_id uri m b h = elim (Option-cases (kept_metadata nft_id (some b))) [
  | inr (c, e) ↦
      let q = from_cache d net nft_id uri c (some b) e in
      ap (λ r. kept_metadata nft_id r.1) q ∙ e ∙ (sym (ap (λ r. r.0.metadata) q) ∙ h)
  | inl e ↦ elim (Option-cases (fetch_metadata_from_uri d net uri)) [
    | inl f ↦
        let none_found : none ≡ some m = sym (from_nowhere d net nft_id uri (some b) e f) ∙ h in
        absurd (grind (arith, none_found))
    | inr (n, f) ↦
        let q = from_uri d net nft_id uri n (some b) e f in
        ap (λ r. kept_metadata nft_id r.1) q
        ∙ uri-cached net d.now nft_id uri n b
        ∙ (sym (ap (λ r. r.0.metadata) q) ∙ h)
  ]
]

-- Metadata that was fetched once, with a bucket, is kept: a later call for the same NFT, at any time,
-- returns the same metadata from the bucket, and leaves the bucket as it is, whatever the URI and the
-- network are then. So the time of the last access, which the code means to write, is not written.
pub fetch_nft_metadata-again :
    (d later_d : Decoder) (net later : Network) (nft_id uri other : String) (m : Json) (b : Bucket)
    → (fetch_nft_metadata d net nft_id uri (some b)).0.metadata ≡ some m
    → let kept = (fetch_nft_metadata d net nft_id uri (some b)).1 in
      fetch_nft_metadata later_d later nft_id other kept
      ≡ (record { metadata = some m; cached = true; source = cache; error_message = none }, kept)
fetch_nft_metadata-again d later_d net later nft_id uri other m b h =
    from_cache later_d later nft_id other m _ (fetched-cached d net nft_id uri m b h)
