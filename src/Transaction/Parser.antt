-- ===== src/Transaction/Parser.antt =====
-- src/features/transaction-processing/services/nft-transaction-parser.service.ts: from a message of
-- the transaction stream to the data of an NFT transaction. A message is its JSON; keys and addresses
-- are texts, of which an empty one counts as absent, and dates are whole numbers of seconds. Calls of
-- the runtime on texts are a record.
pub mod Kinds
mod Tests
use Prim.Native.String.{[] as empty, ◌∷◌ as char}
use v2_xrpl_tools.Prelude.{
  ℕ, suc, ◌+◌, ◌*◌, ◌%◌, Bool, true, false, Option, none, some, List, [], ◌∷◌, ◌++◌, String, str_eq,
  ◌==◌, if◌then◌else◌, any,
}
use v2_xrpl_tools.Prelude.Decimal.{parse_int}
use v2_xrpl_tools.Prelude.Outcome.{Outcome, done, raised, ◌>>=◌}
use v2_xrpl_tools.Prelude.Json.{
  Json, null, boolean, number, text, array, object, field_of, or_else, when_truthy, text_value,
}
use v2_xrpl_tools.Transaction.Data.{
  NftActivityType, mint, burn, sale, offer_created, offer_accepted, offer_cancelled,
}
use v2_xrpl_tools.Transaction.Meta.{
  Amount, OfferDetails, type_error, parse_amount, extract_nft_token_id, extract_offer_details,
}
use v2_xrpl_tools.Transaction.Messages.{
  TextRuntime, Timestamp, BaseData, ParsedTransaction, nft_transaction_types, is_nft_type, unwrap,
  is_nft_transaction, ripple_epoch, parse_timestamp, decode_hex_string, decoded_uri,
}

unfoldable pub parse_nf_token_mint :
    TextRuntime → Option Json → Option Json → BaseData → Outcome ParsedTransaction
unfolding decoded_uri
parse_nf_token_mint rt tx meta base = extract_nft_token_id meta tx >>= λ id. done (record {
  base = base;
  activity_type = mint;
  nft_token_id = id;
  from_address = base.from_address;
  to_address = text_value (field_of "Account" tx);
  amount = none;
  metadata =
      base.metadata
      ++ ("taxon", field_of "NFTokenTaxon" tx)
        ∷ ("transferFee", field_of "TransferFee" tx)
        ∷ ("uri", decoded_uri rt (field_of "URI" tx))
        ∷ ("uriHex", field_of "URI" tx)
        ∷ ("minter", field_of "Account" tx)
        ∷ [];
})

unfoldable pub parse_nf_token_burn : Option Json → BaseData → ParsedTransaction
parse_nf_token_burn tx base = record {
  base = base;
  activity_type = burn;
  nft_token_id = text_value (field_of "NFTokenID" tx);
  from_address = base.from_address;
  to_address = none;
  amount = none;
  metadata =
      base.metadata ++ ("burner", field_of "Account" tx) ∷ ("owner", field_of "Owner" tx) ∷ [];
}

-- The flags, which the code names again, are in the metadata already.
unfoldable pub parse_nf_token_create_offer : Option Json → BaseData → ParsedTransaction
parse_nf_token_create_offer tx base = record {
  base = base;
  activity_type = offer_created;
  nft_token_id = text_value (field_of "NFTokenID" tx);
  from_address = base.from_address;
  to_address = text_value (field_of "Destination" tx);
  amount = some (parse_amount (field_of "Amount" tx));
  metadata =
      base.metadata
      ++ ("owner", field_of "Owner" tx)
        ∷ ("destination", field_of "Destination" tx)
        ∷ ("expiration", field_of "Expiration" tx)
        ∷ [];
}

-- The seller of the offer replaces the account, also where it is not known.
unfoldable pub parse_nf_token_accept_offer :
    Option Json → Option Json → BaseData → Outcome ParsedTransaction
parse_nf_token_accept_offer tx meta base = extract_offer_details meta tx >>= λ d. done (record {
  base = base;
  activity_type = offer_accepted;
  nft_token_id = d.nft_token_id;
  from_address = d.seller;
  to_address = d.buyer;
  amount = d.amount;
  metadata =
      base.metadata
      ++ ("buyOfferID", field_of "NFTokenBuyOffer" tx)
        ∷ ("sellOfferID", field_of "NFTokenSellOffer" tx)
        ∷ ("broker", field_of "Account" tx)
        ∷ ("brokerFee", field_of "BrokerFee" tx)
        ∷ [];
})

unfoldable pub parse_nf_token_cancel_offer : Option Json → BaseData → ParsedTransaction
parse_nf_token_cancel_offer tx base = record {
  base = base;
  activity_type = offer_cancelled;
  nft_token_id = none;
  from_address = base.from_address;
  to_address = none;
  amount = none;
  metadata = base.metadata ++ ("cancelledOffers", field_of "NFTokenOffers" tx) ∷ [];
}

-- A payment counts only where its metadata names a token.
unfoldable pub parse_nft_payment :
    Option Json → Option Json → BaseData → Outcome (Option ParsedTransaction)
parse_nft_payment tx meta base = extract_nft_token_id meta none >>= λ o. elim o [
  | none ↦ done none
  | some id ↦ done (
      some (record {
        base = base;
        activity_type = sale;
        nft_token_id = some id;
        from_address = base.from_address;
        to_address = text_value (field_of "Destination" tx);
        amount = some (parse_amount (field_of "Amount" tx));
        metadata =
            base.metadata
            ++ ("destination", field_of "Destination" tx)
              ∷ ("destinationTag", field_of "DestinationTag" tx)
              ∷ ("sourceTag", field_of "SourceTag" tx)
              ∷ ("memos", field_of "Memos" tx)
              ∷ [];
      }))
]

-- `baseData`, from the message, its transaction and the transaction's own JSON
unfoldable pub base_data : Option Json → Option Json → Option Json → BaseData
unfolding or_else parse_timestamp
base_data tx_data raw_tx tx = record {
  transaction_hash =
      or_else (field_of "hash" raw_tx)
        (or_else (field_of "hash" tx) (or_else (field_of "Hash" tx) (field_of "Hash" raw_tx)));
  ledger_index =
      or_else (field_of "ledger_index" tx_data)
        (or_else (field_of "ledger_index" raw_tx) (field_of "ledger_index" tx));
  timestamp = parse_timestamp (
      or_else (field_of "date" tx)
        (or_else (field_of "Date" tx) (field_of "close_time_iso" raw_tx)));
  from_address = text_value (field_of "Account" tx);
  metadata =
      ("transactionType", field_of "TransactionType" tx)
      ∷ ("fee", field_of "Fee" tx)
      ∷ ("flags", field_of "Flags" tx)
      ∷ (
        "engineResult",
        or_else (field_of "engine_result" raw_tx) (field_of "engine_result" tx_data),
      )
      ∷ [];
}

abbrev pub kept : Outcome ParsedTransaction → Outcome (Option ParsedTransaction)
kept o = o >>= λ p. done (some p)

-- the switch on the type
unfoldable pub parse_type :
    TextRuntime → String → Option Json → Option Json → BaseData → Outcome (Option ParsedTransaction)
unfolding parse_nf_token_mint parse_nf_token_burn parse_nf_token_create_offer
    parse_nf_token_accept_offer parse_nf_token_cancel_offer parse_nft_payment
parse_type rt kind tx meta base =
    if str_eq "NFTokenMint" kind
    then kept (parse_nf_token_mint rt tx meta base)
    else if str_eq "NFTokenBurn" kind
    then done (some (parse_nf_token_burn tx base))
    else if str_eq "NFTokenCreateOffer" kind
    then done (some (parse_nf_token_create_offer tx base))
    else if str_eq "NFTokenAcceptOffer" kind
    then kept (parse_nf_token_accept_offer tx meta base)
    else if str_eq "NFTokenCancelOffer" kind
    then done (some (parse_nf_token_cancel_offer tx base))
    else if str_eq "Payment" kind
    then parse_nft_payment tx meta base
    else done none

abbrev pub nft_parsing_failed : String
nft_parsing_failed = "Failed to parse NFT transaction data"

abbrev pub rethrown {ℓ} : {A : Type ℓ} → Outcome A → Outcome A
rethrown (done a) = done a
rethrown (raised m) = raised nft_parsing_failed

unfoldable pub parse_nft_transaction : TextRuntime → Json → Outcome (Option ParsedTransaction)
unfolding unwrap is_nft_transaction base_data parse_type
parse_nft_transaction rt message =
    let raw_tx = unwrap "transaction" (some message) in
    let tx = unwrap "tx_json" raw_tx in
    let meta =
      or_else (field_of "meta" (some message))
        (or_else (field_of "meta" raw_tx) (field_of "metaData" (some message))) in
    rethrown (
      is_nft_transaction tx >>= λ b.
      if b
      then elim (text_value (field_of "TransactionType" tx)) [
        | none ↦ done none
        | some kind ↦ parse_type rt kind tx meta (base_data (some message) raw_tx tx)
      ]
      else done none)
