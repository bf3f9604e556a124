-- ===== src/Queue/Publisher.antt =====
-- src/modules/queue/services/event-publisher.service.ts: publishing one event, and a batch. The
-- channel's answers are handed in; an event is the text that it is sent as.
pub mod Draining
use v2_xrpl_tools.Prelude.{
  ℕ, suc, Bool, true, false, not, Option, none, some, List, [], ◌∷◌, String, map, if◌then◌else◌,
}
use v2_xrpl_tools.Prelude.Map
use v2_xrpl_tools.Prelude.Map.{Map}
use v2_xrpl_tools.Prelude.Outcome.{Outcome, done, raised}

pub record PublishOptions : Type 0 where
  pub persistent : Option Bool
  pub priority : Option ℕ
  pub expiration : Option String
  pub message_id : Option String
  pub timestamp : Option ℕ
  pub correlation_id : Option String
  pub headers : Map String

-- an event, and the text that it is sent as
pub record QueueEvent : Type 0 where
  pub event_id : String
  pub event_type : String
  pub correlation_id : Option String
  pub content : String

pub record MessageOptions : Type 0 where
  pub persistent : Bool
  pub message_id : String
  pub timestamp : ℕ
  pub correlation_id : Option String
  pub priority : Option ℕ
  pub expiration : Option String
  pub headers : Map String

pub record Publication : Type 0 where
  pub exchange : String
  pub routing_key : String
  pub content : String
  pub options : MessageOptions

-- `a ?? b`
abbrev pub present {ℓ} : {A : Type ℓ} → Option A → A → A
present none d = d
present (some a) d = a

-- `a ?? b`, where `b` can be missing
abbrev pub first_of {ℓ} : {A : Type ℓ} → Option A → Option A → Option A
first_of none b = b
first_of (some a) b = some a

-- the spread of headers over those that are there
unfoldable pub spread : Map String → Map String → Map String
unfolding Map.set
spread [] m = m
spread ((k, v) ∷ more) m = spread more (Map.set k v m)

unfoldable pub message_options : ℕ → PublishOptions → QueueEvent → MessageOptions
unfolding spread
message_options now o e = record {
  persistent = present o.persistent true;
  message_id = present o.message_id e.event_id;
  timestamp = present o.timestamp now;
  correlation_id = first_of o.correlation_id e.correlation_id;
  priority = o.priority;
  expiration = o.expiration;
  headers = spread o.headers (("x-event-type", e.event_type) ∷ ("x-event-id", e.event_id) ∷ []);
}

unfoldable pub publication : ℕ → String → String → PublishOptions → QueueEvent → Publication
unfolding message_options
publication now exchange key o e = record {
  exchange = exchange;
  routing_key = key;
  content = e.content;
  options = message_options now o e;
}

-- the answer of `channel.publish`: whether its buffer has room for more, or an error
unfoldable pub published : Outcome Bool → Outcome (Unit {0})
published (raised e) = raised "Failed to publish message to queue"
published (done ready) = if not ready then raised "Failed to publish message to queue" else done tt

-- What the channel is given, and how the call ends; without a channel the event is dropped.
unfoldable pub publish_event :
    (Publication → Outcome Bool)
    → Option ℕ
    → ℕ
    → String
    → String
    → PublishOptions
    → QueueEvent
    → List Publication × Outcome (Unit {0})
unfolding publication published
publish_event channel none now exchange key o e = ([], done tt)
publish_event channel (some c) now exchange key o e =
    let p = publication now exchange key o e in (p ∷ [], published (channel p))

unfoldable pub batch_publication : ℕ → String → String → PublishOptions → QueueEvent → Publication
unfolding spread
batch_publication now exchange key o e = record {
  exchange = exchange;
  routing_key = key;
  content = e.content;
  options = record {
    persistent = present o.persistent true;
    message_id = e.event_id;
    timestamp = now;
    correlation_id = e.correlation_id;
    priority = o.priority;
    expiration = none;
    headers =
        spread o.headers
          (("x-event-type", e.event_type) ∷ ("x-event-id", e.event_id) ∷ ("x-batch", "true") ∷ []);
  };
}

-- What a batch does: it waits until the buffer is drained, or gives the channel an event, with the answer.
pub data BatchAction : Type 0 where
  drained : BatchAction
  publishes : Publication → Bool → BatchAction

-- `channel k p` is the answer to the `k`-th publication of the batch.
unfoldable pub publish_all :
    (ℕ → Publication → Outcome Bool)
    → ℕ
    → Bool
    → List Publication
    → List BatchAction × Outcome (Unit {0})
publish_all channel k can_publish [] = ([], done tt)
publish_all channel k can_publish (p ∷ ps) = elim (channel k p) [
  | raised e ↦
      (if can_publish then [] else drained ∷ [], raised "Failed to publish message to queue")
  | done ready ↦
      let (actions, o) = publish_all channel (suc k) ready ps in
      (
        if can_publish then publishes p ready ∷ actions else drained ∷ publishes p ready ∷ actions,
        o,
      )
]

-- `now` is the time at which an event is published.
unfoldable pub publish_batch :
    (ℕ → Publication → Outcome Bool)
    → Option ℕ
    → (QueueEvent → ℕ)
    → String
    → String
    → PublishOptions
    → List QueueEvent
    → List BatchAction × Outcome (Unit {0})
unfolding publish_all batch_publication
publish_batch channel none now exchange key o events = ([], done tt)
publish_batch channel (some c) now exchange key o events =
    publish_all channel 0 true (map (λ e. batch_publication (now e) exchange key o e) events)
