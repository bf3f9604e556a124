-- ===== src/Metadata/Images/Cached.antt =====
-- An image that is in the bucket is not fetched again.
use v2_xrpl_tools.Prelude.{
  ◌≡◌, inl, inr, refl, Bool, true, Option, none, some, List, [], ◌∷◌, String, str_eq, eq_iff, arith,
  Option-cases, Bool-cases, subst, sym, any, ap, ◌∙◌,
}
use v2_xrpl_tools.Prelude.Map
use v2_xrpl_tools.Prelude.Map.{Map}
use v2_xrpl_tools.Prelude.Json.{Json, null, boolean, number, text, array, object}
use v2_xrpl_tools.Metadata.Images.{
  Network, Bucket, extensions, image_extensions, image_key, image_url, is_kept, first_kept,
  get_cached_image_url, normalize_content_type, get_image_extension, first_response, image_sources,
  keep_image, fetch_and_cache_image,
}

abbrev among : String → List String → Bool
among e es = any (λ x. str_eq x e) es

abbrev AllAmong : Map String → Type 0
AllAmong [] = Unit {0}
AllAmong ((k, v) ∷ m) = (among v extensions ≡ true) × AllAmong m

get-among :
    (k e : String) (m : Map String) → AllAmong m → Map.get k m ≡ some e → among e extensions ≡ true
unfolding Map.get
get-among k e [] a h = grind arith
get-among k e ((j, v) ∷ m) (b, a) h = elim (Bool-cases (str_eq j k)) [
  | inl q ↦ subst (λ x. among x extensions ≡ true) {x = v} {y = e} (grind arith) b
  | inr q ↦ get-among k e m a (grind arith)
]

get_image_extension-among :
    (net : Network) (ct : String) → among (get_image_extension net ct) extensions ≡ true
unfolding get_image_extension
get_image_extension-among net ct =
    elim (Option-cases (Map.get (net.to_lower_case ct) image_extensions)) [
      | inl h ↦ rw (get_image_extension, h) refl
      | inr (e, h) ↦
          rw (get_image_extension, h)
            (get-among (net.to_lower_case ct) e image_extensions
              (refl, (refl, (refl, (refl, (refl, (refl, tt)))))) h)
    ]

abbrev with_image : String → Bucket → Bucket
with_image key b = record b { images = key ∷ b.images }

first_kept-new :
    (nft_id e : String) (es : List String) (b : Bucket)
    → first_kept nft_id es b ≡ none
    → among e es ≡ true
    → first_kept nft_id es (with_image (image_key nft_id e) b)
      ≡ some (image_url b (image_key nft_id e))
unfolding first_kept is_kept
first_kept-new nft_id e [] b h m = grind arith
first_kept-new nft_id e (x ∷ es) b h m =
    elim (Bool-cases (str_eq (image_key nft_id e) (image_key nft_id x))) [
      | inl q ↦ rw q (
          ap (λ k. some (image_url b k))
            (sym ((eq_iff (image_key nft_id e) (image_key nft_id x)).0 q)))
      | inr q ↦ elim (Bool-cases (is_kept (image_key nft_id x) b)) [
        | inl k ↦ grind arith
        | inr k ↦
            rw (q, k)
              (first_kept-new nft_id e es b (grind arith) (elim (Bool-cases (str_eq x e)) [
                | inl r ↦
                    let same : image_key nft_id e ≡ image_key nft_id x =
                      ap (image_key nft_id) (sym ((eq_iff x e).0 r)) in
                    absurd
                      (grind (arith, (eq_iff (image_key nft_id e) (image_key nft_id x)).1 same))
                | inr r ↦ grind arith
              ]))
      ]
    ]

keep_image-kept :
    (net : Network) (nft_id : String) (content_type : Option String) (b b' : Bucket) (u : String)
    → get_cached_image_url nft_id b ≡ none
    → keep_image net nft_id content_type b ≡ (some u, some b')
    → get_cached_image_url nft_id b' ≡ some u
unfolding keep_image get_cached_image_url
keep_image-kept net nft_id content_type b b' u n h =
    elim (Option-cases (normalize_content_type net content_type)) [
      | inl e ↦ grind arith
      | inr (ct, e) ↦
          let ext = get_image_extension net ct in
          let found = first_kept-new nft_id ext extensions b n (get_image_extension-among net ct) in
          let place : with_image (image_key nft_id ext) b ≡ b' = grind arith in
          let url : some (image_url b (image_key nft_id ext)) ≡ some u = grind arith in
          subst (λ q. first_kept nft_id extensions q ≡ some u) place (found ∙ url)
    ]

fetch-cached :
    (net : Network) (nft_id u : String) (url : Json) (b : Bucket)
    → get_cached_image_url nft_id b ≡ some u
    → fetch_and_cache_image net nft_id url (some b) ≡ (some u, some b)
unfolding fetch_and_cache_image
fetch-cached net nft_id u url b h = rw (fetch_and_cache_image, h) refl

fetch-text :
    (net : Network) (nft_id t : String) (b : Bucket)
    → get_cached_image_url nft_id b ≡ none
    → fetch_and_cache_image net nft_id (text t) (some b)
      ≡ (elim (first_response net (image_sources t)) [
        | none ↦ (none, some b)
        | some content_type ↦ keep_image net nft_id content_type b
      ])
unfolding fetch_and_cache_image
fetch-text net nft_id t b h = rw (fetch_and_cache_image, h) refl

fetch-new :
    (net : Network) (nft_id u : String) (url : Json) (b b' : Bucket)
    → get_cached_image_url nft_id b ≡ none
    → fetch_and_cache_image net nft_id url (some b) ≡ (some u, some b')
    → get_cached_image_url nft_id b' ≡ some u
unfolding fetch_and_cache_image
fetch-new net nft_id u null b b' e k = grind (arith, e)
fetch-new net nft_id u (boolean x) b b' e k = grind (arith, e)
fetch-new net nft_id u (number x) b b' e k = grind (arith, e)
fetch-new net nft_id u (array x) b b' e k = grind (arith, e)
fetch-new net nft_id u (object x) b b' e k = grind (arith, e)
fetch-new net nft_id u (text t) b b' e k =
    elim (Option-cases (first_response net (image_sources t))) [
      | inl f ↦ grind (arith, fetch-text net nft_id t b e)
      | inr (ct, f) ↦
          keep_image-kept net nft_id ct b b' u e (grind (arith, fetch-text net nft_id t b e))
    ]

fetch-kept :
    (net : Network) (nft_id u : String) (url : Json) (b : Option Bucket) (b' : Bucket)
    → fetch_and_cache_image net nft_id url b ≡ (some u, some b')
    → get_cached_image_url nft_id b' ≡ some u
unfolding fetch_and_cache_image
fetch-kept net nft_id u url none b' h = grind arith
fetch-kept net nft_id u url (some b) b' h = elim (Option-cases (get_cached_image_url nft_id b)) [
  | inr (c, e) ↦
      let both = sym (fetch-cached net nft_id c url b e) ∙ h in
      let same : b ≡ b' = grind (arith, both) in
      let address : some c ≡ some u = grind (arith, both) in
      subst (λ q. get_cached_image_url nft_id q ≡ some u) same (e ∙ address)
  | inl e ↦ fetch-new net nft_id u url b b' e h
]

-- Once an image was put into the bucket, a later call for the same NFT returns the same address and
-- leaves the bucket as it is, whatever the network says then, and whatever image is asked for.
pub fetch_and_cache_image-again :
    (net later : Network) (nft_id u : String) (url other : Json) (b : Option Bucket) (b' : Bucket)
    → fetch_and_cache_image net nft_id url b ≡ (some u, some b')
    → fetch_and_cache_image later nft_id other (some b') ≡ (some u, some b')
fetch_and_cache_image-again net later nft_id u url other b b' h =
    fetch-cached later nft_id u other b' (fetch-kept net nft_id u url b b' h)
