-- ===== src/Transaction/Data.antt =====
-- src/features/transaction-processing/interfaces/transaction.interface.ts: what the parser makes of
-- a ledger transaction. An optional field is `Option`, and the free-form
-- `metadata` is its JSON. An optional text that is empty counts as absent.
use v2_xrpl_tools.Prelude.{ℕ, Option, String}
use v2_xrpl_tools.Prelude.Json.{Json}

pub data NftActivityType : Type 0 where
  mint burn sale offer_created offer_accepted offer_cancelled transfer : NftActivityType

pub record NftTransactionData : Type 0 where
  pub transaction_hash : String
  pub ledger_index : ℕ
  pub timestamp : ℕ
  pub activity_type : NftActivityType
  pub nft_token_id : Option String
  pub from_address : Option String
  pub to_address : Option String
  pub price_drops : Option String
  pub currency : Option String
  pub issuer : Option String
  pub metadata : Option Json
