-- ===== src/Transaction/Meta/Offers.antt =====
-- The offers that an accepted offer deletes.
use v2_xrpl_tools.Prelude.{
  ◌≡◌, ◌∙◌, refl, Bool, true, false, Option, some, arith, if◌then◌else◌, inl, inr,
}
use v2_xrpl_tools.Prelude.Outcome.{done, outcome_cases}
use v2_xrpl_tools.Prelude.Json.{
  Json, array, object, Elements, end, element, Fields, field_of, text_value,
}
use v2_xrpl_tools.Transaction.Meta.{
  get, is_entry, iterate, OfferDetails, no_details, parse_amount, is_sell_offer, offer_details,
  node_details, nodes_details, extract_offer_details,
}

abbrev pub append : Elements → Elements → Elements
append end f = f
append (element x e) f = element x (append e f)

abbrev pub deletes_offer : Json → Bool
deletes_offer node = is_entry "NFTokenOffer" (field_of "DeletedNode" (some node))

-- nodes that delete no offer
abbrev pub HasNoOffer : Elements → Type 0
HasNoOffer end = Unit {0}
HasNoOffer (element node e) =
    (((f : Fields) × (node ≡ object f)) × (deletes_offer node ≡ false)) × HasNoOffer e

nodes_details-append :
    (tx : Option Json) (e f : Elements) (d d' : OfferDetails)
    → nodes_details tx e d ≡ done d'
    → nodes_details tx (append e f) d ≡ nodes_details tx f d'
unfolding nodes_details
nodes_details-append tx end f d d' h = grind arith
nodes_details-append tx (element node e) f d d' h = elim (outcome_cases (node_details tx node d)) [
  | inl (m, b) ↦ grind arith
  | inr (mid, b) ↦ rw b (nodes_details-append tx e f mid d' (grind arith))
]

node_details-kept :
    (tx : Option Json) (node : Json) (f : Fields) (d : OfferDetails)
    → node ≡ object f
    → deletes_offer node ≡ false
    → node_details tx node d ≡ done d
unfolding node_details get
node_details-kept tx node f d n b = grind arith

nodes_details-HasNoOffer :
    (tx : Option Json) (e : Elements) (d : OfferDetails)
    → HasNoOffer e
    → nodes_details tx e d ≡ done d
unfolding nodes_details
nodes_details-HasNoOffer tx end d h = refl
nodes_details-HasNoOffer tx (element node e) d (((f, n), b), h) =
    rw (node_details-kept tx node f d n b) (nodes_details-HasNoOffer tx e d h)

node_details-offer :
    (tx : Option Json) (node f : Fields) (d : OfferDetails)
    → deletes_offer (object node) ≡ true
    → field_of "FinalFields" (field_of "DeletedNode" (some (object node))) ≡ some (object f)
    → node_details tx (object node) d ≡ done (offer_details tx (some (object f)))
unfolding node_details get
node_details-offer tx node f d b e = rw (b, e) refl

extract-nodes :
    (meta tx : Option Json) (e : Elements)
    → field_of "AffectedNodes" meta ≡ some (array e)
    → extract_offer_details meta tx ≡ nodes_details tx e no_details
unfolding extract_offer_details iterate
extract-nodes meta tx e a = rw (extract_offer_details, a) refl

-- The last deleted offer among the nodes decides: whatever the nodes before it say, the details are its
-- own token and amount, its owner is the seller if it is an offer to sell and the buyer if not, and the
-- other side is the account of the transaction.
pub extract_offer_details-last :
    (meta tx : Option Json) (before after : Elements) (node offer : Fields) (d : OfferDetails)
    → field_of "AffectedNodes" meta ≡ some (array (append before (element (object node) after)))
    → nodes_details tx before no_details ≡ done d
    → deletes_offer (object node) ≡ true
    → field_of "FinalFields" (field_of "DeletedNode" (some (object node))) ≡ some (object offer)
    → HasNoOffer after
    → let owner = text_value (field_of "Owner" (some (object offer))) in
      let account = text_value (field_of "Account" tx) in
      let sells = is_sell_offer (field_of "Flags" (some (object offer))) in
      extract_offer_details meta tx
      ≡ done (record {
        nft_token_id = text_value (field_of "NFTokenID" (some (object offer)));
        amount = some (parse_amount (field_of "Amount" (some (object offer))));
        seller = if sells then owner else account;
        buyer = if sells then account else owner;
      })
unfolding nodes_details offer_details
extract_offer_details-last meta tx before after node offer d a h b f n =
    extract-nodes meta tx _ a
    ∙ (nodes_details-append tx before (element (object node) after) no_details d h
        ∙ rw (node_details-offer tx node offer d b f) (nodes_details-HasNoOffer tx after _ n))
