-- ===== src/Xrpl/Relay.antt =====
-- What src/modules/xrpl-connection/services/xrpl-connection-manager.service.ts passes on from the
-- streams of its nodes: the messages about ledgers and transactions, to the message queue and to its
-- subscribers. A message is its JSON, and the publisher's answer is handed in.
use v2_xrpl_tools.Prelude.{
  Bool, true, false, not, Option, none, some, List, [], ◌∷◌, ◌++◌, String, map, get_elem?, filter,
  str_eq, if◌then◌else◌,
}
use v2_xrpl_tools.Prelude.Outcome.{Outcome, done, raised}
use v2_xrpl_tools.Prelude.Words.{split_by}
use v2_xrpl_tools.Prelude.Json.{
  Json, null, boolean, number, text, array, object, closed, field_of, or_else, is_truthy,
}
use v2_xrpl_tools.Queue.Consumer.{Answer, returns, throws}

-- `value && typeof value === 'object'`
abbrev pub is_object : Json → Bool
is_object (array e) = true
is_object (object f) = true
is_object _ = false

-- `value || default`
abbrev pub value_or : Option Json → Json → Json
value_or none d = d
value_or (some v) d = if is_truthy v then v else d

pub record LedgerStreamMessage : Type 0 where
  pub ledger_hash : String
  pub ledger_index : String
  pub ledger_time : Json
  pub txn_count : Json
  pub validated_ledger_index : Json

-- `validated_ledgers?.split('-')?.[1] || ledger_index`; what is there and is not a text throws.
unfoldable pub validated_index : Option Json → String → Outcome Json
unfolding split_by
validated_index none index = done (number index)
validated_index (some null) index = done (number index)
validated_index (some (text s)) index = done (elim (get_elem? (split_by 45 s) 1) [
  | none ↦ number index
  | some part ↦ value_or (some (text part)) (number index)
])
validated_index (some v) index = raised "TypeError"

-- The message about a closed ledger, or none where the data is not one; the time is the runtime's clock.
unfoldable pub ledger_message : String → Json → Outcome (Option LedgerStreamMessage)
unfolding field_of validated_index
ledger_message now message = elim (field_of "ledger_index" (some message)) [
  | some (number index) ↦ elim (field_of "ledger_hash" (some message)) [
    | some (text hash) ↦
        elim (validated_index (field_of "validated_ledgers" (some message)) index) [
          | raised e ↦ raised e
          | done validated ↦ done (
              some (record {
                ledger_hash = hash;
                ledger_index = index;
                ledger_time = value_or (field_of "ledger_time" (some message)) (number now);
                txn_count = value_or (field_of "txn_count" (some message)) (number "0");
                validated_ledger_index = validated;
              }))
        ]
    | _ ↦ done none
  ]
  | _ ↦ done none
]

pub record TransactionStreamMessage : Type 0 where
  pub transaction : Json
  pub meta : Json
  pub engine_result : Json
  pub engine_result_code : Json
  pub engine_result_message : Json
  pub ledger_hash : Json
  pub ledger_index : Json
  pub validated : Bool

-- `value !== false`
abbrev pub is_not_false : Option Json → Bool
is_not_false (some (boolean b)) = b
is_not_false _ = true

-- The message about a transaction, or none where the data is not one.
unfoldable pub transaction_message : Json → Option TransactionStreamMessage
unfolding field_of or_else
transaction_message message =
    if not (is_object message)
    then none
    else let transaction = value_or (field_of "transaction" (some message)) message in
      if not (is_object transaction)
      then none
      else some (record {
        transaction = transaction;
        meta =
            value_or (or_else (field_of "meta" (some message)) (field_of "metaData" (some message)))
              (object closed);
        engine_result = value_or (field_of "engine_result" (some message)) (text "tesSUCCESS");
        engine_result_code = value_or (field_of "engine_result_code" (some message)) (number "0");
        engine_result_message =
            value_or (field_of "engine_result_message" (some message)) (text "");
        ledger_hash = value_or (field_of "ledger_hash" (some message)) (text "");
        ledger_index = value_or (field_of "ledger_index" (some message)) (number "0");
        validated = is_not_false (field_of "validated" (some message));
      })

-- the data of a transaction event in the queue
pub record TransactionEventData : Type 0 where
  pub transaction : Json
  pub meta : Json
  pub ledger_index : Json
  pub ledger_hash : Json
  pub validated : Bool

unfoldable pub transaction_event_data : TransactionStreamMessage → TransactionEventData
transaction_event_data m = record {
  transaction = m.transaction;
  meta = m.meta;
  ledger_index = m.ledger_index;
  ledger_hash = m.ledger_hash;
  validated = m.validated;
}

-- The transactions in the queue, and what each subscriber was told.
pub record Relay : Type 0 where
  pub subscribers : List String
  pub queued : List TransactionEventData
  pub told : List (String × TransactionStreamMessage)

-- `subscribeTransactions` under a new key, and its `unsubscribe`
unfoldable pub subscribe_transactions : String → Relay → Relay
subscribe_transactions id s = record s { subscribers = s.subscribers ++ id ∷ [] }

unfoldable pub unsubscribe : String → Relay → Relay
unsubscribe id s = record s { subscribers = filter (λ c. not (str_eq c id)) s.subscribers }

-- A publisher that throws, or a subscriber that throws, does not keep the message from the others.
unfoldable pub relay_transaction : Answer → Json → Relay → Relay
unfolding transaction_message transaction_event_data
relay_transaction publisher message s = elim (transaction_message message) [
  | none ↦ s
  | some m ↦ record s {
    queued = elim publisher [
      | returns ↦ s.queued ++ transaction_event_data m ∷ []
      | throws ↦ s.queued
    ];
    told = s.told ++ map (λ c. (c, m)) s.subscribers;
  }
]
