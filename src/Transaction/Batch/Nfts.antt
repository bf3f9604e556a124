-- ===== src/Transaction/Batch/Nfts.antt =====
-- The rows of NFTs that a batch writes.
use v2_xrpl_tools.Prelude.{
  ℕ, suc, ◌≤◌, ◌≡◌, refl, sym, ap, ◌∙◌, Option, none, List, [], ◌∷◌, ◌++◌, map, String, str_eq,
  arith, if◌then◌else◌, subst, eq_iff,
}
use v2_xrpl_tools.Prelude.Map.{Map}
use v2_xrpl_tools.Transaction.Data.{NftTransactionData}
use v2_xrpl_tools.Prelude.Json.{field_of, text_value}
use v2_xrpl_tools.Transaction.Batch.{
  save_nft, with_collection, create_new_nft, change_owner, touch_nft, update_nft,
  process_nft_update, first_pass, save_collections, updated_nft, update_row, update_nfts,
  process_transaction_chunk,
}
use v2_xrpl_tools.Transaction.Tables.{
  or_text, text_or, NftEntity, CollectionEntity, Database, NftUpdate, Chunk, find_nft,
  queue_metadata_enrichment,
}

abbrev copies : String → List NftEntity → ℕ
copies k [] = 0
copies k (n ∷ ns) = if str_eq n.nft_id k then suc (copies k ns) else copies k ns

copies-append :
    (k : String) (ns : List NftEntity) (n : NftEntity)
    → copies k (ns ++ n ∷ []) ≡ (if str_eq n.nft_id k then suc (copies k ns) else copies k ns)
copies-append k [] n = refl
copies-append k (m ∷ ns) n = ground (arith, copies-append k ns n)

copies-find_nft : (k : String) (ns : List NftEntity) → find_nft k ns ≡ none → copies k ns ≡ 0
unfolding find_nft
copies-find_nft k [] e = refl
copies-find_nft k (n ∷ ns) e = grind (arith, copies-find_nft k ns)

-- each NFT has at most one row
abbrev pub IsUnique : List NftEntity → Type 0
IsUnique ns = (k : String) → copies k ns ≤ 1

update_row-nft_id :
    (k : String) (u : NftUpdate) (n : NftEntity) → (update_row k u n).nft_id ≡ n.nft_id
unfolding update_row updated_nft
update_row-nft_id k u n = ground arith

map-copies :
    (k i : String) (u : NftUpdate) (ns : List NftEntity)
    → copies k (map (update_row i u) ns) ≡ copies k ns
map-copies k i u [] = refl
map-copies k i u (n ∷ ns) = grind (arith, update_row-nft_id i u n, map-copies k i u ns)

update_nfts-copies :
    (k : String) (m : Map NftUpdate) (ns : List NftEntity)
    → copies k (update_nfts m ns) ≡ copies k ns
unfolding update_nfts
update_nfts-copies k [] ns = refl
update_nfts-copies k ((i, u) ∷ m) ns =
    update_nfts-copies k m (map (update_row i u) ns) ∙ map-copies k i u ns

save_collections-nfts :
    (m : Map CollectionEntity) (db : Database) → (save_collections m db).nfts ≡ db.nfts
unfolding save_collections
save_collections-nfts [] db = refl
save_collections-nfts ((k, c) ∷ m) db = save_collections-nfts m _

-- the row that a mint adds
pub save_nft-row :
    (t : NftTransactionData) (nft_id : String) (c : Option ℕ) (db : Database)
    → (n : NftEntity) × (((save_nft t nft_id c db).nfts ≡ db.nfts ++ n ∷ [])
        × ((n.nft_id ≡ nft_id) × (n.collection_id ≡ c)))
unfolding save_nft queue_metadata_enrichment
save_nft-row t nft_id c db = (
  record {
    id = db.next_id;
    nft_id = nft_id;
    collection_id = c;
    owner_address = text_or (or_text t.to_address t.from_address) "";
    metadata_uri_hex = text_value (field_of "uriHex" t.metadata);
    metadata_uri = text_value (field_of "uri" t.metadata);
    last_activity_at = t.timestamp;
  },
  (ground arith, (refl, refl)),
)

save_nft-IsUnique :
    (t : NftTransactionData) (nft_id : String) (c : Option ℕ) (db : Database)
    → find_nft nft_id db.nfts ≡ none
    → IsUnique db.nfts
    → IsUnique (save_nft t nft_id c db).nfts
save_nft-IsUnique t nft_id c db e u k =
    let (n, (row, (same, _))) = save_nft-row t nft_id c db in
    grind (
      arith,
      row,
      same,
      copies-append k db.nfts n,
      u k,
      copies-find_nft nft_id db.nfts e,
      eq_iff nft_id k,
    )

module _ (name_of : String → Option String) where
  with_collection-IsUnique :
      (t : NftTransactionData) (nft_id issuer taxon : String) (c : Chunk)
      → find_nft nft_id c.db.nfts ≡ none
      → IsUnique c.db.nfts
      → IsUnique (with_collection name_of t nft_id issuer taxon c).db.nfts
  unfolding with_collection
  with_collection-IsUnique t nft_id issuer taxon c e u k = grind (arith, save_nft-IsUnique)

  create_new_nft-IsUnique :
      (t : NftTransactionData) (nft_id : String) (c : Chunk)
      → find_nft nft_id c.db.nfts ≡ none
      → IsUnique c.db.nfts
      → IsUnique (create_new_nft name_of t nft_id c).db.nfts
  unfolding create_new_nft
  create_new_nft-IsUnique t nft_id c e u k = grind (arith, with_collection-IsUnique)

  process_nft_update-IsUnique :
      (t : NftTransactionData) (c : Chunk)
      → IsUnique c.db.nfts
      → IsUnique (process_nft_update name_of t c).db.nfts
  unfolding process_nft_update update_nft change_owner touch_nft
  process_nft_update-IsUnique t c u k = grind (arith, create_new_nft-IsUnique)

  first_pass-IsUnique :
      (ts : List NftTransactionData) (c : Chunk)
      → IsUnique c.db.nfts
      → IsUnique (first_pass name_of ts c).db.nfts
  unfolding first_pass
  first_pass-IsUnique [] c u = u
  first_pass-IsUnique (t ∷ ts) c u =
      first_pass-IsUnique ts (process_nft_update name_of t c) (process_nft_update-IsUnique t c u)

  -- A chunk of transactions keeps that each NFT has at most one row: one that is minted again, in the
  -- same chunk or later, gets no second row.
  pub process_transaction_chunk-IsUnique :
      (ts : List NftTransactionData) (db : Database)
      → IsUnique db.nfts
      → IsUnique (process_transaction_chunk name_of ts db).0.nfts
  unfolding process_transaction_chunk
  process_transaction_chunk-IsUnique ts db u k =
      let c =
        first_pass name_of ts
          (record { nfts_to_update = []; collections_to_create = []; db = db }) in
      subst (λ n. n ≤ 1)
        (sym (
          update_nfts-copies k c.nfts_to_update _
          ∙ ap (copies k) (save_collections-nfts c.collections_to_create c.db)))
        (first_pass-IsUnique ts _ u k)
