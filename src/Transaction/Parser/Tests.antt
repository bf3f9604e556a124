-- ===== src/Transaction/Parser/Tests.antt =====
-- Messages of the stream at concrete inputs.
use v2_xrpl_tools.Prelude.Decimal.{parse_int}
use v2_xrpl_tools.Prelude.{◌≡◌, refl, some, true, false, String}
use v2_xrpl_tools.Prelude.Map
use v2_xrpl_tools.Prelude.Outcome.{done}
use v2_xrpl_tools.Prelude.Json.{Json, text, number, object, field, closed, field_of, text_value}
use v2_xrpl_tools.Transaction.Data.{burn}
use v2_xrpl_tools.Transaction.Parser.{parse_nft_transaction, base_data, parse_nf_token_burn}
use v2_xrpl_tools.Transaction.Messages.{
  at, TextRuntime, ParsedTransaction, parse_timestamp, is_nft_transaction, decode_hex_string,
}
use v2_xrpl_tools.Transaction.Parser.Kinds.{activities, inner, parse_nft_transaction-kind}

abbrev plain : TextRuntime
plain = record { without_spaces = λ s. s; from_hex = λ s. "ipfs"; has_replacement = λ s. false }

abbrev transaction : String → Json
transaction kind = object (
    field "TransactionType" (text kind) (
      field "Account" (text "rMinter")
        (field "NFTokenID" (text "A") (field "date" (number "10") closed))))

abbrev message : String → Json
message kind = object (field "transaction" (transaction kind) closed)

timestamp_ten : parse_timestamp (some (number "10")) ≡ at 946684810000
unfolding parse_timestamp parse_int
timestamp_ten = refl

odd_hex : decode_hex_string plain "697" ≡ "697"
unfolding decode_hex_string
odd_hex = refl

even_hex : decode_hex_string plain "6970" ≡ "ipfs"
unfolding decode_hex_string
even_hex = refl

-- an offer of the exchange passes the test, and is then dropped
offer_create_accepted : is_nft_transaction (some (transaction "OfferCreate")) ≡ done true
unfolding is_nft_transaction field_of
offer_create_accepted = refl

abbrev burnt : ParsedTransaction
burnt = parse_nf_token_burn (some (transaction "NFTokenBurn")) (
    base_data (some (message "NFTokenBurn")) (some (transaction "NFTokenBurn"))
      (some (transaction "NFTokenBurn")))

parse_nft_transaction-kind_example :
    (kind : String) × ((text_value (field_of "TransactionType" (inner (message "NFTokenBurn")))
        ≡ some kind)
      × (Map.get kind activities ≡ some burn))
unfolding parse_nft_transaction field_of parse_nf_token_burn text_value
parse_nft_transaction-kind_example =
    parse_nft_transaction-kind plain (message "NFTokenBurn") burnt refl
