-- ===== src/Metadata/Enrichment/Exhausted.antt =====
-- The end of the retries of the enrichment.
use v2_xrpl_tools.Prelude.{
  ℕ, zero, suc, ◌+◌, ◌≡◌, refl, ◌∙◌, Bool, true, false, not, ◌&&◌, ◌||◌, Option, none, some, List,
  [], ◌∷◌, map, filter, take, String, str_eq, leb, any, arith, Option-cases, inl, inr, is_some,
}
use v2_xrpl_tools.Prelude.Map
use v2_xrpl_tools.Prelude.Map.{Map, get-set}
use v2_xrpl_tools.Prelude.Json.{Json, field_of, when_truthy}
use v2_xrpl_tools.Metadata.Images.{Network, fetch_and_cache_image}
use v2_xrpl_tools.Metadata.Fetcher.{Decoder, fetch_nft_metadata}
use v2_xrpl_tools.Metadata.Enrichment.{
  NftRow, QueueRow, Enrichment, is_due, get_pending_nfts, update_nft_row, set_status,
  update_queue_status, count_retries, enrichment_delay, set_retry, update_queue_for_retry,
  with_metadata, with_image_answer, with_error, fail_nft, enrich_image, or_message, enrich_nft,
  uri_of, enrich_all, process_enrichment_queue,
}

-- every entry of the NFT in the queue has had its three retries
abbrev pub exhausted : String → List QueueRow → Bool
exhausted id [] = true
exhausted id (q ∷ qs) = (not (str_eq q.nft_id id) || leb 3 q.retry_count) && exhausted id qs

abbrev among : String → List String → Bool
among id l = any (λ k. str_eq k id) l

-- what a run says of an NFT that it does not try
abbrev IsLeft : String → Enrichment → Enrichment → Type 0
IsLeft id s r =
    (Map.get id r.rows ≡ Map.get id s.rows)
    × (exhausted id s.queue ≡ true → exhausted id r.queue ≡ true)

among-take :
    (n : ℕ) (id : String) (l : List String) → among id l ≡ false → among id (take n l) ≡ false
among-take zero id l h = refl
among-take (suc n) id [] h = refl
among-take (suc n) id (k ∷ l) h = grind (arith, among-take n id l)

exhausted-pending :
    (now : ℕ) (id : String) (rows : Map NftRow) (qs : List QueueRow)
    → exhausted id qs ≡ true
    → among id
        (map (λ q. q.nft_id) (filter (λ q. is_due now q && is_some (Map.get q.nft_id rows)) qs))
      ≡ false
unfolding is_due
exhausted-pending now id rows [] h = refl
exhausted-pending now id rows (q ∷ qs) h = ground (arith, exhausted-pending now id rows qs)

set_retry-exhausted :
    (id j : String) (at : ℕ) (qs : List QueueRow)
    → exhausted id qs ≡ true
    → exhausted id (map (set_retry j at) qs) ≡ true
unfolding set_retry
set_retry-exhausted id j at [] h = refl
set_retry-exhausted id j at (q ∷ qs) h = ground (arith, set_retry-exhausted id j at qs)

set_status-exhausted :
    (id j status : String) (qs : List QueueRow)
    → exhausted id qs ≡ true
    → exhausted id (map (set_status j status) qs) ≡ true
unfolding set_status
set_status-exhausted id j status [] h = refl
set_status-exhausted id j status (q ∷ qs) h = ground (arith, set_status-exhausted id j status qs)

IsLeft-trans : (id : String) (s r t : Enrichment) → IsLeft id s r → IsLeft id r t → IsLeft id s t
IsLeft-trans id s r t (a, b) (c, d) = (c ∙ a, λ h. d (b h))

update_nft_row-IsLeft :
    (id j : String) (f : NftRow → NftRow) (s : Enrichment)
    → str_eq j id ≡ false
    → IsLeft id s (update_nft_row j f s)
unfolding update_nft_row
update_nft_row-IsLeft id j f s d = elim (Option-cases (Map.get j s.rows)) [
  | inl e ↦ rw (update_nft_row, e) (refl, λ h. h)
  | inr (r, e) ↦ rw (update_nft_row, e) (get-set j id (f r) s.rows ∙ rw d refl, λ h. h)
]

fail_nft-IsLeft :
    (now : ℕ) (id j message : String) (s : Enrichment)
    → str_eq j id ≡ false
    → IsLeft id s (fail_nft now j message s)
unfolding fail_nft update_queue_for_retry
fail_nft-IsLeft now id j message s d =
    let r = update_nft_row j (with_error message) s in
    let (a, b) = update_nft_row-IsLeft id j (with_error message) s d in
    (a, λ h. set_retry-exhausted id j (now + enrichment_delay (count_retries j r)) r.queue (b h))

enrich_image-IsLeft :
    (net : Network) (id j : String) (m : Json) (s : Enrichment)
    → str_eq j id ≡ false
    → IsLeft id s (enrich_image net j m s)
unfolding enrich_image
enrich_image-IsLeft net id j m s d = elim (Option-cases (when_truthy (field_of "image" (some m)))) [
  | inl e ↦ rw (enrich_image, e) (refl, λ h. h)
  | inr (image, e) ↦
      let found = fetch_and_cache_image net j image s.bucket in
      rw (enrich_image, e)
        (update_nft_row-IsLeft id j (with_image_answer found.0) (record s { bucket = found.1 }) d)
]

enrich_nft-IsLeft :
    (d : Decoder) (net : Network) (now : ℕ) (id j : String) (uri : Option String) (s : Enrichment)
    → str_eq j id ≡ false
    → IsLeft id s (enrich_nft d net now j uri s)
unfolding enrich_nft update_queue_status
enrich_nft-IsLeft d net now id j none s h = fail_nft-IsLeft now id j "NFT has no metadata URI" s h
enrich_nft-IsLeft d net now id j (some uri) s h =
    let found = fetch_nft_metadata d net j uri s.bucket in
    let s' : Enrichment = record s { bucket = found.1 } in
    elim (Option-cases found.0.metadata) [
      | inl e ↦
          rw (enrich_nft, e)
            (fail_nft-IsLeft now id j (or_message found.0.error_message "Failed to fetch metadata")
              s' h)
      | inr (m, e) ↦
          let r = update_nft_row j (with_metadata m) s' in
          let t = enrich_image net j m r in
          let (a, b) =
            IsLeft-trans id s r t (update_nft_row-IsLeft id j (with_metadata m) s' h)
              (enrich_image-IsLeft net id j m r h) in
          rw (enrich_nft, e) (a, λ k. set_status-exhausted id j "completed" t.queue (b k))
    ]

enrich_all-IsLeft :
    (d : Decoder) (net : Network) (now : ℕ) (id : String) (ids : List String) (s : Enrichment)
    → among id ids ≡ false
    → IsLeft id s (enrich_all d net now ids s)
unfolding enrich_all
enrich_all-IsLeft d net now id [] s h = (refl, λ k. k)
enrich_all-IsLeft d net now id (j ∷ ids) s h =
    let r = enrich_nft d net now j (uri_of j s) s in
    IsLeft-trans id s r (enrich_all d net now ids r)
      (enrich_nft-IsLeft d net now id j (uri_of j s) s (grind arith))
      (enrich_all-IsLeft d net now id ids r (grind arith))

-- An NFT whose metadata failed three times is left alone by every later run of the timer, whatever the
-- time: its row stays as it is, and its entry in the queue stays exhausted.
pub process_enrichment_queue-exhausted :
    (d : Decoder) (net : Network) (now : ℕ) (id : String) (s : Enrichment)
    → exhausted id s.queue ≡ true
    → (Map.get id (process_enrichment_queue d net now s).rows ≡ Map.get id s.rows)
      × (exhausted id (process_enrichment_queue d net now s).queue ≡ true)
unfolding process_enrichment_queue get_pending_nfts
process_enrichment_queue-exhausted d net now id s h =
    let (a, b) =
      enrich_all-IsLeft d net now id (get_pending_nfts now s) s
        (among-take 10 id _ (exhausted-pending now id s.rows s.queue h)) in
    (a, b h)
