-- ===== src/Transaction/Parser/Kinds.antt =====
-- The types of transactions that the parser takes.
use v2_xrpl_tools.Prelude.{
  ◌≡◌, inl, inr, refl, Bool, true, false, Option, none, some, [], ◌∷◌, String, str_eq, arith,
  Bool-cases, Option-cases, any,
}
use v2_xrpl_tools.Prelude.Map
use v2_xrpl_tools.Prelude.Map.{Map}
use v2_xrpl_tools.Prelude.Outcome.{Outcome, done, raised, outcome_cases}
use v2_xrpl_tools.Prelude.Json.{
  Json, null, boolean, number, text, array, object, field_of, text_value, or_else,
}
use v2_xrpl_tools.Transaction.Data.{
  NftActivityType, mint, burn, sale, offer_created, offer_accepted, offer_cancelled,
}
use v2_xrpl_tools.Transaction.Meta.{extract_nft_token_id, extract_offer_details}
use v2_xrpl_tools.Transaction.Parser.{
  base_data, parse_nf_token_mint, parse_nf_token_burn, parse_nf_token_create_offer,
  parse_nf_token_accept_offer, parse_nf_token_cancel_offer, parse_nft_payment, kept, parse_type,
  rethrown, parse_nft_transaction,
}
use v2_xrpl_tools.Transaction.Messages.{
  TextRuntime, BaseData, ParsedTransaction, unwrap, is_nft_transaction, is_nft_type,
  nft_transaction_types,
}

-- the types that become activities, and which ones
abbrev pub activities : Map NftActivityType
activities =
    ("NFTokenMint", mint)
    ∷ ("NFTokenBurn", burn)
    ∷ ("NFTokenCreateOffer", offer_created)
    ∷ ("NFTokenAcceptOffer", offer_accepted)
    ∷ ("NFTokenCancelOffer", offer_cancelled)
    ∷ ("Payment", sale)
    ∷ []

-- the transaction inside a message
abbrev pub inner : Json → Option Json
inner message = unwrap "tx_json" (unwrap "transaction" (some message))

abbrev meta_of : Json → Option Json
meta_of message = or_else (field_of "meta" (some message)) (
    or_else (field_of "meta" (unwrap "transaction" (some message)))
      (field_of "metaData" (some message)))

text_first : (a b : Option Json) (k : String) → text_value a ≡ some k → or_else a b ≡ some (text k)
unfolding text_value or_else
text_first none b k h = grind arith
text_first (some null) b k h = grind arith
text_first (some (boolean x)) b k h = grind arith
text_first (some (number x)) b k h = grind arith
text_first (some (array x)) b k h = grind arith
text_first (some (object x)) b k h = grind arith
text_first (some (text x)) b k h = grind arith

text-is_nft :
    (tx : Option Json) (k : String)
    → field_of "tx_json" tx ≡ none
    → text_value (field_of "TransactionType" tx) ≡ some k
    → (b : Bool) × (is_nft_transaction tx ≡ done b)
unfolding is_nft_transaction unwrap or_else is_nft_type
text-is_nft tx k u t = (
  any (λ j. str_eq j k) nft_transaction_types,
  rw u (rw (text_first (field_of "TransactionType" tx) (field_of "transaction_type" tx) k t) refl),
)

module _ (rt : TextRuntime) where
  mint-type :
      (tx meta : Option Json) (base : BaseData) (p : ParsedTransaction)
      → kept (parse_nf_token_mint rt tx meta base) ≡ done (some p)
      → p.activity_type ≡ mint
  unfolding parse_nf_token_mint
  mint-type tx meta base p h = elim (outcome_cases (extract_nft_token_id meta tx)) [
    | inl (m, f) ↦ grind arith
    | inr (a, f) ↦ grind arith
  ]

  accept-type :
      (tx meta : Option Json) (base : BaseData) (p : ParsedTransaction)
      → kept (parse_nf_token_accept_offer tx meta base) ≡ done (some p)
      → p.activity_type ≡ offer_accepted
  unfolding parse_nf_token_accept_offer
  accept-type tx meta base p h = elim (outcome_cases (extract_offer_details meta tx)) [
    | inl (m, f) ↦ grind arith
    | inr (a, f) ↦ grind arith
  ]

  payment-type :
      (tx meta : Option Json) (base : BaseData) (p : ParsedTransaction)
      → parse_nft_payment tx meta base ≡ done (some p)
      → p.activity_type ≡ sale
  unfolding parse_nft_payment
  payment-type tx meta base p h = elim (outcome_cases (extract_nft_token_id meta none)) [
    | inl (m, f) ↦ grind arith
    | inr (a, f) ↦ grind arith
  ]

  rethrown-done :
      (o : Outcome (Option ParsedTransaction)) (p : ParsedTransaction)
      → rethrown o ≡ done (some p)
      → o ≡ done (some p)
  rethrown-done (done o) p h = h
  rethrown-done (raised m) p h = grind arith

  parse_type-activity :
      (kind : String) (tx meta : Option Json) (base : BaseData) (p : ParsedTransaction)
      → parse_type rt kind tx meta base ≡ done (some p)
      → Map.get kind activities ≡ some p.activity_type
  unfolding parse_type parse_nf_token_burn parse_nf_token_create_offer parse_nf_token_cancel_offer
      Map.get
  parse_type-activity kind tx meta base p h =
      grind
        (arith, mint-type tx meta base p, accept-type tx meta base p, payment-type tx meta base p)

  parse_type-ignored :
      (kind : String) (tx meta : Option Json) (base : BaseData)
      → Map.get kind activities ≡ none
      → parse_type rt kind tx meta base ≡ done none
  unfolding parse_type Map.get
  parse_type-ignored kind tx meta base h = grind arith

  -- A message that gives an activity holds a transaction of one of the six types, and the activity is of
  -- the kind that belongs to that type.
  pub parse_nft_transaction-kind :
      (message : Json) (p : ParsedTransaction)
      → parse_nft_transaction rt message ≡ done (some p)
      → (kind : String) × ((text_value (field_of "TransactionType" (inner message)) ≡ some kind)
          × (Map.get kind activities ≡ some p.activity_type))
  unfolding parse_nft_transaction
  parse_nft_transaction-kind message p h =
      elim (outcome_cases (is_nft_transaction (inner message))) [
        | inl (m, f) ↦ grind arith
        | inr (false, f) ↦ grind arith
        | inr (true, f) ↦
            elim (Option-cases (text_value (field_of "TransactionType" (inner message)))) [
              | inl e ↦ grind arith
              | inr (kind, e) ↦
                  let base =
                    base_data (some message) (unwrap "transaction" (some message))
                      (inner message) in
                  let it = parse_type rt kind (inner message) (meta_of message) base in
                  (
                    kind,
                    (
                      e,
                      parse_type-activity kind (inner message) (meta_of message) base p
                          (rethrown-done it p (grind arith)),
                    ),
                  )
            ]
      ]

  -- A transaction whose type is a text other than those six gives nothing, where it does not wrap another: so do
  -- `OfferCreate` and `OfferCancel`, which the list of NFT transaction types names.
  pub parse_nft_transaction-ignored :
      (message : Json) (kind : String)
      → field_of "tx_json" (inner message) ≡ none
      → text_value (field_of "TransactionType" (inner message)) ≡ some kind
      → Map.get kind activities ≡ none
      → parse_nft_transaction rt message ≡ done none
  unfolding parse_nft_transaction
  parse_nft_transaction-ignored message kind u t h =
      let (b, f) = text-is_nft (inner message) kind u t in
      elim (Bool-cases b) [
        | inl e ↦ grind (arith, f, e, t, parse_type-ignored kind (inner message) _ _ h)
        | inr e ↦ rw (f, e) refl
      ]
