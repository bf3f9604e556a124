-- ===== src/Transaction/Meta.antt =====
-- src/features/transaction-processing/services/nft-transaction-parser.service.ts: what the parser
-- finds in the metadata of a transaction. Its optional chains are `field_of`; a property of null or of
-- undefined throws a TypeError. Keys of tokens and addresses are texts, lists of tokens are arrays,
-- and flags are numbers.
pub mod Tokens
pub mod Offers
mod Tests
use v2_xrpl_tools.Prelude.{
  ℕ, suc, ◌%◌, Bool, true, false, not, ◌&&◌, Option, none, some, List, [], ◌∷◌, String, str_eq, ltb,
  ◌==◌, if◌then◌else◌, any,
}
use v2_xrpl_tools.Prelude.Decimal.{parse_int}
use v2_xrpl_tools.Prelude.Outcome.{Outcome, done, raised, ◌>>=◌}
use v2_xrpl_tools.Prelude.Json.{
  Json, null, boolean, number, text, array, object, Elements, end, element, Fields, closed, field,
  field_of, when_truthy, text_value,
}

abbrev pub type_error : String
type_error = "TypeError"

-- `value.name`
unfoldable pub get : String → Option Json → Outcome (Option Json)
get k none = raised type_error
get k (some null) = raised type_error
get k (some v) = done (field_of k (some v))

-- The elements of `for … of`; the characters of a text have none of the properties that are read.
unfoldable pub iterate : Json → Outcome Elements
iterate (array e) = done e
iterate (text s) = done end
iterate _ = raised type_error

unfoldable pub is_text : String → Option Json → Bool
is_text s (some (text t)) = str_eq t s
is_text s _ = false

-- `node?.LedgerEntryType === kind`
unfoldable pub is_entry : String → Option Json → Bool
unfolding is_text
is_entry kind node = is_text kind (field_of "LedgerEntryType" node)

unfoldable pub tokens : Option Json → Elements
tokens (some (array e)) = e
tokens _ = end

abbrev pub size : Elements → ℕ
size end = 0
size (element t e) = suc (size e)

-- `token.NFToken?.NFTokenID`
unfoldable pub token_id : Json → Outcome (Option String)
unfolding get
token_id t = get "NFToken" (some t) >>= λ token. done (text_value (field_of "NFTokenID" token))

abbrev pub cons_some : Option String → List String → List String
cons_some none l = l
cons_some (some s) l = s ∷ l

-- `new Set(tokens.map(…).filter(Boolean))`
unfoldable pub token_ids : Elements → Outcome (List String)
unfolding token_id
token_ids end = done []
token_ids (element t e) =
    let rest = token_ids e in token_id t >>= λ o. rest >>= λ l. done (cons_some o l)

abbrev pub has : String → List String → Bool
has s l = any (λ t. str_eq t s) l

-- The first token that is not among the given ones.
unfoldable pub first_missing : List String → Elements → Outcome (Option String)
unfolding token_id
first_missing ids end = done none
first_missing ids (element t e) =
    let rest = first_missing ids e in
    token_id t >>= λ o. elim o [ none ↦ rest | some s ↦ if has s ids then rest else done (some s) ]

-- A page of tokens that was changed: the token that it gained, or the one that it lost.
unfoldable pub modified_token : Option Json → Outcome (Option String)
unfolding tokens token_ids first_missing
modified_token node =
    let previous = tokens (field_of "NFTokens" (field_of "PreviousFields" node)) in
    let final = tokens (field_of "NFTokens" (field_of "FinalFields" node)) in
    if ltb (size previous) (size final)
    then (token_ids previous >>= λ ids. first_missing ids final)
    else if ltb (size final) (size previous)
    then (token_ids final >>= λ ids. first_missing ids previous)
    else done none

-- the token of an offer that was created or deleted
unfoldable pub offer_token : String → Option Json → Option String
unfolding is_entry
offer_token fields node =
    if is_entry "NFTokenOffer" node
    then text_value (field_of "NFTokenID" (field_of fields node))
    else none

abbrev pub first_text : Option String → Option String → Option String
first_text none b = b
first_text (some a) b = some a

unfoldable pub node_token : Json → Outcome (Option String)
unfolding get is_entry modified_token offer_token
node_token node = get "ModifiedNode" (some node) >>= λ modified.
    (if is_entry "NFTokenPage" modified then modified_token modified else done none) >>= λ found.
    done (
      first_text found (
        first_text (offer_token "NewFields" (field_of "CreatedNode" (some node)))
          (offer_token "FinalFields" (field_of "DeletedNode" (some node)))))

unfoldable pub nodes_token : Elements → Outcome (Option String)
unfolding node_token
nodes_token end = done none
nodes_token (element node e) =
    let rest = nodes_token e in
    node_token node >>= λ o. elim o [ none ↦ rest | some s ↦ done (some s) ]

-- The fallback: a burn names its token itself.
unfoldable pub burnt_token : Option Json → Option String
unfolding is_text
burnt_token tx =
    if is_text "NFTokenBurn" (field_of "TransactionType" tx)
    then text_value (field_of "NFTokenID" tx)
    else none

unfoldable pub extract_nft_token_id : Option Json → Option Json → Outcome (Option String)
unfolding iterate nodes_token burnt_token
extract_nft_token_id meta tx = elim (text_value (field_of "nftoken_id" meta)) [
  | some s ↦ done (some s)
  | none ↦ elim (when_truthy (field_of "AffectedNodes" meta)) [
    | none ↦ done none
    | some nodes ↦
        iterate nodes >>= λ e. nodes_token e >>= λ found. done (first_text found (burnt_token tx))
  ]
]

pub record Amount : Type 0 where
  pub value : String
  pub currency : Option String
  pub issuer : Option String

-- drops of XRP, or an amount of an issued currency, whose parts are texts
unfoldable pub parse_amount : Option Json → Amount
parse_amount (some (text s)) = record { value = s; currency = some "XRP"; issuer = none }
parse_amount amount = elim (text_value (field_of "value" amount)) [
  | none ↦ record { value = "0"; currency = some "XRP"; issuer = none }
  | some v ↦ record {
    value = v;
    currency = text_value (field_of "currency" amount);
    issuer = text_value (field_of "issuer" amount);
  }
]

pub record OfferDetails : Type 0 where
  pub nft_token_id : Option String
  pub amount : Option Amount
  pub seller : Option String
  pub buyer : Option String

abbrev pub no_details : OfferDetails
no_details = record { nft_token_id = none; amount = none; seller = none; buyer = none }

-- `flags & 1`
unfoldable pub is_sell_offer : Option Json → Bool
is_sell_offer (some (number n)) = elim (parse_int n) [ none ↦ false | some d ↦ (d % 2) == 1 ]
is_sell_offer _ = false

unfoldable pub offer_details : Option Json → Option Json → OfferDetails
unfolding is_sell_offer parse_amount
offer_details tx offer =
    let owner = text_value (field_of "Owner" offer) in
    let account = text_value (field_of "Account" tx) in
    let sells = is_sell_offer (field_of "Flags" offer) in
    record {
      nft_token_id = text_value (field_of "NFTokenID" offer);
      amount = some (parse_amount (field_of "Amount" offer));
      seller = if sells then owner else account;
      buyer = if sells then account else owner;
    }

-- a deleted offer gives the details; `offer.NFTokenID` throws without its fields
unfoldable pub node_details : Option Json → Json → OfferDetails → Outcome OfferDetails
unfolding get is_entry offer_details
node_details tx node d = get "DeletedNode" (some node) >>= λ deleted.
    if is_entry "NFTokenOffer" deleted
    then (get "NFTokenID" (field_of "FinalFields" deleted) >>= λ _.
        done (offer_details tx (field_of "FinalFields" deleted)))
    else done d

unfoldable pub nodes_details : Option Json → Elements → OfferDetails → Outcome OfferDetails
unfolding node_details
nodes_details tx end d = done d
nodes_details tx (element node e) d = node_details tx node d >>= λ d'. nodes_details tx e d'

unfoldable pub extract_offer_details : Option Json → Option Json → Outcome OfferDetails
unfolding iterate nodes_details
extract_offer_details meta tx = elim (when_truthy (field_of "AffectedNodes" meta)) [
  | none ↦ done no_details
  | some nodes ↦ iterate nodes >>= λ e. nodes_details tx e no_details
]
