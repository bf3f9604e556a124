-- ===== src/Transaction/Consumer.antt =====
-- src/features/transaction-processing/services/transaction-consumer.service.ts: what the service does
-- with the events of the queue, up to `processRawTransaction` of transaction-ingestion.service.ts. What
-- its pipeline does with a message is handed in.
pub mod Events
mod Tests
use v2_xrpl_tools.Prelude.{ℕ, Bool, true, false, Option, none, some, List, [], ◌∷◌, String}
use v2_xrpl_tools.Prelude.Outcome.{Outcome, done, raised}
use v2_xrpl_tools.Prelude.Json.{Json, boolean, object, Fields, closed, field}
use v2_xrpl_tools.Queue.Consumer.{Answer, returns, throws, Action, handle_message}
use v2_xrpl_tools.Queue.Topology.{
  EventType, ledger_closed, transaction_validated, is_nft_event, ledger_queue, transaction_queue,
  nft_queue,
}
use v2_xrpl_tools.Xrpl.Relay.{TransactionEventData}

-- the message that goes into the pipeline
unfoldable pub raw_message : TransactionEventData → Json
raw_message d = object (
    field "transaction" d.transaction (
      field "meta" d.meta
        (field "ledger_index" d.ledger_index (field "validated" (boolean true) closed))))

-- `handleTransaction` of the ingestion logs what its pipeline throws, and returns.
abbrev pub caught_pipeline : Outcome (Unit {0}) → Outcome (Unit {0})
caught_pipeline (done x) = done tt
caught_pipeline (raised e) = done tt

unfoldable pub process_raw_transaction :
    (Json → Outcome (Unit {0})) → TransactionEventData → Outcome (Unit {0})
unfolding raw_message
process_raw_transaction pipeline d = caught_pipeline (pipeline (raw_message d))

-- an event of the queue; only those of transactions have data that is read
pub record ConsumedEvent : Type 0 where
  pub event_type : EventType
  pub event_data : TransactionEventData

unfoldable pub handle_transaction_event :
    (Json → Outcome (Unit {0})) → ConsumedEvent → Outcome (Unit {0})
unfolding process_raw_transaction
handle_transaction_event pipeline e = elim e.event_type [
  | transaction_validated ↦ process_raw_transaction pipeline e.event_data
  | _ ↦ done tt
]

-- The processing of the other two kinds only logs.
unfoldable pub handle_nft_event : ConsumedEvent → Outcome (Unit {0})
handle_nft_event e = elim (is_nft_event e.event_type) [ true ↦ done tt | false ↦ done tt ]

unfoldable pub handle_ledger_event : ConsumedEvent → Outcome (Unit {0})
handle_ledger_event e = elim e.event_type [ ledger_closed ↦ done tt | _ ↦ done tt ]

abbrev pub answer_of : Outcome (Unit {0}) → Answer
answer_of (done x) = returns
answer_of (raised e) = throws

-- the three consumers that the service starts, each with its handler
pub data Subscription : Type 0 where
  transactions nfts ledgers : Subscription

abbrev pub queue_of : Subscription → String
queue_of transactions = transaction_queue
queue_of nfts = nft_queue
queue_of ledgers = ledger_queue

unfoldable pub handler_of :
    Subscription → (Json → Outcome (Unit {0})) → ConsumedEvent → Outcome (Unit {0})
unfolding handle_transaction_event handle_nft_event handle_ledger_event
handler_of transactions pipeline e = handle_transaction_event pipeline e
handler_of nfts pipeline e = handle_nft_event e
handler_of ledgers pipeline e = handle_ledger_event e

-- A delivery to one of the consumers, which acknowledge their messages.
unfoldable pub consume_event :
    Subscription → (Json → Outcome (Unit {0})) → Answer → Option ℕ → ConsumedEvent → List Action
unfolding handler_of handle_message
consume_event k pipeline broker retries e =
    handle_message false (answer_of (handler_of k pipeline e)) broker retries
