-- ===== src/Transaction/Messages.antt =====
-- src/features/transaction-processing/services/nft-transaction-parser.service.ts: the test for a type,
-- the unwrapping of a message, its date, and texts in hexadecimal.
use Prim.Native.String.{[] as empty, ◌∷◌ as char}
use v2_xrpl_tools.Prelude.{
  ℕ, suc, ◌+◌, ◌*◌, ◌%◌, Bool, false, Option, none, some, List, [], ◌∷◌, String, str_eq, ◌==◌,
  if◌then◌else◌, any,
}
use v2_xrpl_tools.Prelude.Decimal.{parse_int}
use v2_xrpl_tools.Prelude.Outcome.{Outcome, done, raised}
use v2_xrpl_tools.Prelude.Json.{
  Json, null, number, text, field_of, or_else, when_truthy, text_value,
}
use v2_xrpl_tools.Transaction.Data.{NftActivityType}
use v2_xrpl_tools.Transaction.Meta.{Amount, type_error}

-- the runtime's functions on texts: removing white space, decoding bytes, and the test for U+FFFD
pub record TextRuntime : Type 0 where
  pub without_spaces : String → String
  pub from_hex : String → String
  pub has_replacement : String → Bool

pub data Timestamp : Type 0 where
  at : ℕ → Timestamp
  date_of : Option Json → Timestamp

pub record BaseData : Type 0 where
  pub transaction_hash : Option Json
  pub ledger_index : Option Json
  pub timestamp : Timestamp
  pub from_address : Option String
  pub metadata : List (String × Option Json)

pub record ParsedTransaction : Type 0 where
  pub base : BaseData
  pub activity_type : NftActivityType
  pub nft_token_id : Option String
  pub from_address : Option String
  pub to_address : Option String
  pub amount : Option Amount
  pub metadata : List (String × Option Json)

abbrev pub nft_transaction_types : List String
nft_transaction_types =
    "NFTokenMint" ∷ "NFTokenBurn" ∷ "NFTokenCreateOffer" ∷ "NFTokenAcceptOffer"
    ∷ "NFTokenCancelOffer" ∷ "Payment" ∷ "OfferCreate" ∷ "OfferCancel" ∷ []

-- `startsWith` throws on a type that is there and is not a text.
unfoldable pub is_nft_type : Option Json → Outcome Bool
is_nft_type none = done false
is_nft_type (some null) = done false
is_nft_type (some (text s)) = done (any (λ k. str_eq k s) nft_transaction_types)
is_nft_type (some _) = raised type_error

-- `value?.name || value`
unfoldable pub unwrap : String → Option Json → Option Json
unwrap k v = or_else (field_of k v) v

unfoldable pub is_nft_transaction : Option Json → Outcome Bool
unfolding unwrap is_nft_type or_else
is_nft_transaction transaction =
    let tx = unwrap "tx_json" transaction in
    is_nft_type (or_else (field_of "TransactionType" tx) (field_of "transaction_type" tx))

abbrev pub ripple_epoch : ℕ
ripple_epoch = 946684800000

-- A number counts the seconds since the start of 2000; anything else is a date of the runtime.
unfoldable pub parse_timestamp : Option Json → Timestamp
parse_timestamp (some (number n)) = elim (parse_int n) [
  | none ↦ date_of (some (number n))
  | some d ↦ at (ripple_epoch + d * 1000)
]
parse_timestamp date = date_of date

unfoldable characters : String → ℕ
characters empty = 0
characters (char c s) = suc (characters s)

unfoldable pub decode_hex_string : TextRuntime → String → String
unfolding characters
decode_hex_string rt hex =
    let clean = rt.without_spaces hex in
    let decoded = rt.from_hex clean in
    if (characters clean % 2) == 0
    then (if rt.has_replacement decoded then hex else decoded)
    else hex

-- The decoded URI of a mint; `replace` throws on a value that is not a text, which is returned.
unfoldable pub decoded_uri : TextRuntime → Option Json → Option Json
unfolding decode_hex_string
decoded_uri rt uri = elim (when_truthy uri) [
  | none ↦ some null
  | some v ↦ elim (text_value (some v)) [
    | none ↦ some v
    | some s ↦ some (text (decode_hex_string rt s))
  ]
]
