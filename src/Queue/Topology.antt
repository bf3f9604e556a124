-- ===== src/Queue/Topology.antt =====
-- What the broker is asked for when a connection is set up (setupExchangesAndQueues of
-- src/modules/queue/services/rabbitmq-connection.service.ts), the names of
-- src/modules/queue/constants/queue.constants.ts, and the keys under which
-- src/modules/queue/services/event-publisher.service.ts publishes.
pub mod Routes
use v2_xrpl_tools.Prelude.{
  ℕ, Bool, true, false, ◌&&◌, Option, none, some, List, [], ◌∷◌, String, str_eq, if◌then◌else◌,
}
use v2_xrpl_tools.Prelude.Outcome.{Outcome, done, raised}
use v2_xrpl_tools.Prelude.Words.{words, strip_prefix}

abbrev pub xrpl_exchange : String
xrpl_exchange = "xrpl.events"

abbrev pub notifications_exchange : String
notifications_exchange = "notifications"

abbrev pub dead_letter_exchange : String
dead_letter_exchange = "dlx"

abbrev pub ledger_queue : String
ledger_queue = "xrpl.ledger.events"

abbrev pub transaction_queue : String
transaction_queue = "xrpl.transaction.events"

abbrev pub nft_queue : String
nft_queue = "xrpl.nft.events"

abbrev pub notification_queue : String
notification_queue = "notifications.send"

abbrev pub dead_letter_queue : String
dead_letter_queue = "dead.letter.queue"

pub data ExchangeKind : Type 0 where
  topic direct fanout : ExchangeKind

-- the arguments of a queue
pub record QueueArguments : Type 0 where
  pub message_ttl : ℕ
  pub max_length : Option ℕ
  pub exchange_of_dead_letters : Option String
  pub max_priority : Option ℕ

-- What the channel is asked for; all exchanges and queues are durable.
pub data BrokerCommand : Type 0 where
  assert_exchange : String → ExchangeKind → BrokerCommand
  assert_queue : String → QueueArguments → BrokerCommand
  bind_queue : (queue exchange key : String) → BrokerCommand

abbrev pub dead_letter_args : QueueArguments
dead_letter_args = record {
  message_ttl = 86400000;
  max_length = none;
  exchange_of_dead_letters = some dead_letter_exchange;
  max_priority = none;
}

abbrev pub exchanges_and_queues : List BrokerCommand
exchanges_and_queues =
    assert_exchange xrpl_exchange topic
    ∷ assert_exchange notifications_exchange direct
    ∷ assert_exchange dead_letter_exchange fanout
    ∷ assert_queue dead_letter_queue (record {
      message_ttl = 604800000;
      max_length = some 100000;
      exchange_of_dead_letters = none;
      max_priority = none;
    })
    ∷ bind_queue dead_letter_queue dead_letter_exchange ""
    ∷ assert_queue ledger_queue dead_letter_args
    ∷ bind_queue ledger_queue xrpl_exchange "ledger.closed"
    ∷ assert_queue transaction_queue dead_letter_args
    ∷ bind_queue transaction_queue xrpl_exchange "transaction.validated"
    ∷ assert_queue nft_queue dead_letter_args
    ∷ bind_queue nft_queue xrpl_exchange "nft.*"
    ∷ assert_queue notification_queue (record dead_letter_args { max_priority = some 10 })
    ∷ bind_queue notification_queue notifications_exchange "notification.send"
    ∷ []

-- the error that a command's failure is thrown as
unfoldable pub command_error : BrokerCommand → String → String
command_error (assert_exchange name kind) e = "Failed to assert exchange"
command_error (assert_queue name a) e = "Failed to assert queue"
command_error (bind_queue queue exchange key) e = e

-- The commands that were given, up to the first that the broker refuses, and that one's error.
unfoldable pub give_commands :
    (BrokerCommand → Outcome (Unit {0}))
    → List BrokerCommand
    → List BrokerCommand × Outcome (Unit {0})
unfolding command_error
give_commands broker [] = ([], done tt)
give_commands broker (c ∷ cs) =
    let (given, o) = give_commands broker cs in
    elim (broker c) [ done x ↦ (c ∷ given, o) | raised e ↦ (c ∷ [], raised (command_error c e)) ]

unfoldable pub setup_exchanges_and_queues :
    (BrokerCommand → Outcome (Unit {0})) → Option ℕ → List BrokerCommand × Outcome (Unit {0})
unfolding give_commands
setup_exchanges_and_queues broker none = ([], raised "Failed to create RabbitMQ channel")
setup_exchanges_and_queues broker (some channel) = give_commands broker exchanges_and_queues

pub data EventType : Type 0 where
  ledger_closed transaction_validated notification_send : EventType
  nft_minted nft_burned nft_offer_created nft_offer_cancelled nft_offer_accepted : EventType

abbrev pub event_type_text : EventType → String
event_type_text ledger_closed = "ledger.closed"
event_type_text transaction_validated = "transaction.validated"
event_type_text notification_send = "notification.send"
event_type_text nft_minted = "nft.minted"
event_type_text nft_burned = "nft.burned"
event_type_text nft_offer_created = "nft.offer.created"
event_type_text nft_offer_cancelled = "nft.offer.cancelled"
event_type_text nft_offer_accepted = "nft.offer.accepted"

abbrev pub is_nft_event : EventType → Bool
is_nft_event ledger_closed = false
is_nft_event transaction_validated = false
is_nft_event notification_send = false
is_nft_event _ = true

unfoldable pub without_nft : String → String
unfolding strip_prefix
without_nft t = elim (strip_prefix "nft." t) [ none ↦ t | some rest ↦ rest ]

-- The key of an event: for an NFT event `nft.` before its type, where the first `nft.` is taken out; in the
-- types of these events it stands at the start.
unfoldable pub routing_key : EventType → String
unfolding without_nft
routing_key ledger_closed = "ledger.closed"
routing_key transaction_validated = "transaction.validated"
routing_key notification_send = "notification.send"
routing_key e = words ("nft." ∷ without_nft (event_type_text e) ∷ [])
