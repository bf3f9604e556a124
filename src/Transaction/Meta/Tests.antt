-- ===== src/Transaction/Meta/Tests.antt =====
-- Metadata at concrete inputs.
use v2_xrpl_tools.Prelude.Decimal.{parse_int}
use v2_xrpl_tools.Transaction.Meta.{nodes_details}
use v2_xrpl_tools.Prelude.Json.{text_value}
use v2_xrpl_tools.Prelude.{◌≡◌, ◌<◌, ◌⊎◌, refl, none, some, String}
use v2_xrpl_tools.Prelude.Outcome.{done}
use v2_xrpl_tools.Prelude.Json.{
  Json, text, number, array, object, Elements, end, element, Fields, field, closed, field_of,
}
use v2_xrpl_tools.Transaction.Meta.{
  modified_token, tokens, extract_offer_details, extract_nft_token_id,
}
use v2_xrpl_tools.Transaction.Meta.Tokens.{Holds, modified_token-changed}
use v2_xrpl_tools.Transaction.Meta.Offers.{extract_offer_details-last}

abbrev token : String → Json
token id = object (field "NFToken" (object (field "NFTokenID" (text id) closed)) closed)

abbrev page : Elements → Elements → Json
page previous final = object (
    field "LedgerEntryType" (text "NFTokenPage") (
      field "PreviousFields" (object (field "NFTokens" (array previous) closed))
        (field "FinalFields" (object (field "NFTokens" (array final) closed)) closed)))

abbrev mint_page : Json
mint_page = page (element (token "A") end) (element (token "A") (element (token "B") end))

modified_token-changed_example :
    ((1 < 2)
      × (Holds "B" (element (token "A") (element (token "B") end))
          × ¬ Holds "B" (element (token "A") end)))
    ⊎ ((2 < 1)
        × (Holds "B" (element (token "A") end)
            × ¬ Holds "B" (element (token "A") (element (token "B") end))))
unfolding tokens field_of modified_token text_value
modified_token-changed_example =
    modified_token-changed (some mint_page) (element (token "A") end)
      (element (token "A") (element (token "B") end)) "B" refl refl refl

-- The first token of an account stands on a new page, which is not looked at.
abbrev first_page : Json
first_page = object (
    field "CreatedNode"
      (object (
        field "LedgerEntryType" (text "NFTokenPage") (
          field "NewFields" (object (field "NFTokens" (array (element (token "B") end)) closed))
            closed)))
      closed)

abbrev affected : Elements → Json
affected e = object (field "AffectedNodes" (array e) closed)

first_page_missed : extract_nft_token_id (some (affected (element first_page end))) none ≡ done none
unfolding extract_nft_token_id field_of text_value
first_page_missed = refl

abbrev offer : String → String → Fields
offer owner flags =
    field "NFTokenID" (text "A") (
      field "Amount" (text "100")
        (field "Flags" (number flags) (field "Owner" (text owner) closed)))

abbrev deleted_offer : String → String → Fields
deleted_offer owner flags =
    field "DeletedNode"
      (object (
        field "LedgerEntryType" (text "NFTokenOffer")
          (field "FinalFields" (object (offer owner flags)) closed)))
      closed

abbrev sold : Elements
sold = element (object (deleted_offer "rSeller" "1")) end

abbrev broker : Json
broker = object (field "Account" (text "rBroker") closed)

-- In a brokered sale both offers are deleted_offer, and the broker stands in for the seller.
extract_offer_details-last_example :
    extract_offer_details
      (some (
        affected (
          element
            (object (deleted_offer "rSeller" "1"))
            (element (object (deleted_offer "rBuyer" "0")) end))))
      (some broker)
    ≡ done (record {
      nft_token_id = some "A";
      amount = some (record { value = "100"; currency = some "XRP"; issuer = none });
      seller = some "rBroker";
      buyer = some "rBuyer";
    })
unfolding field_of nodes_details text_value parse_int
extract_offer_details-last_example =
    extract_offer_details-last
      (some (
        affected (
          element (object (deleted_offer "rSeller" "1"))
            (element (object (deleted_offer "rBuyer" "0")) end))))
      (some broker) sold end (deleted_offer "rBuyer" "0") (offer "rBuyer" "0") _ refl refl refl refl
      tt
