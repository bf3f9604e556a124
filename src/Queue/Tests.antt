-- ===== src/Queue/Tests.antt =====
-- The broker's connection, publisher and consumers on concrete input.
use v2_xrpl_tools.Prelude.{
  ℕ, ◌≡◌, ◌≤◌, ◌≢◌, refl, Bool, true, false, none, some, List, [], ◌∷◌, String, map, arith, ◌==◌,
  not,
}
use v2_xrpl_tools.Prelude.Outcome.{Outcome, done, raised}
use v2_xrpl_tools.Prelude.Words.{split_by}
use v2_xrpl_tools.Queue.Connection.{
  ConnectionState, connects, fails_connecting, fails_channel, ConnectionEvent, connection_error,
  connection_closed, timer_fires, run_events,
}
use v2_xrpl_tools.Queue.Connection.Losses.{
  reconnections, reconnections-bounded, IsUnnoticed, attempts_left, unreachable-IsUnnoticed,
}
use v2_xrpl_tools.Queue.Topology.{
  exchanges_and_queues, xrpl_exchange, routing_key, nft_offer_created,
}
use v2_xrpl_tools.Queue.Topology.Routes.{words_match, reached, routing_key-reached}
use v2_xrpl_tools.Queue.Publisher.{
  PublishOptions, QueueEvent, Publication, batch_publication, publish_event, publish_batch,
}
use v2_xrpl_tools.Queue.Publisher.Draining.{IsDrained, IsPrefix, given, publish_batch-IsDrained}

abbrev connected : ConnectionState
connected = record {
  connection = some 1;
  channel = some 1;
  reconnect_attempts = 0;
  timers = [];
  listened = 1 ∷ [];
}

abbrev losses : List ConnectionEvent
losses =
    connection_error 100
    ∷ connection_closed 200
    ∷ timer_fires 5100 2 fails_connecting
    ∷ timer_fires 10200 3 fails_channel
    ∷ []

fails_connecting-fails : fails_connecting ≢ connects
fails_connecting-fails h = grind arith

fails_channel-fails : fails_channel ≢ connects
fails_channel-fails h = grind arith

reconnections-bounded_example : reconnections losses connected ≤ 5
reconnections-bounded_example =
    reconnections-bounded losses connected
      (tt, (tt, (fails_connecting-fails, (fails_channel-fails, tt))))

two_reconnections : reconnections losses connected ≡ 2
unfolding reconnections
two_reconnections = refl

abbrev down_events : List ConnectionEvent
down_events =
    connection_error 100
    ∷ connection_closed 100
    ∷ timer_fires 5100 2 fails_connecting
    ∷ timer_fires 10100 3 fails_connecting
    ∷ []

unreachable-IsUnnoticed_example :
    IsUnnoticed connected (run_events down_events connected)
    × (attempts_left (run_events down_events connected) ≤ 5)
unreachable-IsUnnoticed_example =
    unreachable-IsUnnoticed down_events connected (tt, (tt, (refl, (refl, tt))))

-- One loss uses two of the five attempts, and nothing is left that would connect again.
loss_not_repaired :
    ((run_events down_events connected).timers ≡ [])
    × ((run_events down_events connected).reconnect_attempts ≡ 2)
unfolding run_events
loss_not_repaired = (refl, refl)

abbrev topics : String → String → Bool
topics pattern key =
    unfold split_by words_match in words_match (split_by 46 pattern) (split_by 46 key)

routing_key-reached_example :
    reached topics xrpl_exchange (routing_key nft_offer_created) exchanges_and_queues ≡ []
unfolding words_match split_by
routing_key-reached_example = routing_key-reached topics nft_offer_created (λ pattern key h. refl)

abbrev event : String → QueueEvent
event id = record {
  event_id = id;
  event_type = "nft.minted";
  correlation_id = none;
  content = "{}";
}

abbrev no_options : PublishOptions
no_options = record {
  persistent = none;
  priority = none;
  expiration = none;
  message_id = none;
  timestamp = none;
  correlation_id = none;
  headers = [];
}

-- a buffer that is full after the first event
abbrev full_once : ℕ → Publication → Outcome Bool
full_once k p = done (not (k == 0))

publish_batch-IsDrained_example :
    let r =
      publish_batch full_once
        (some 1)
        (λ e. 7)
        "xrpl.events"
        "nft.minted"
        no_options
        (event "a" ∷ event "b" ∷ []) in
    let ps =
      map
        (λ e. batch_publication 7 "xrpl.events" "nft.minted" no_options e)
        (event "a" ∷ event "b" ∷ []) in
    IsDrained true r.0 × (IsPrefix (given r.0) ps × (r.1 ≡ done tt → given r.0 ≡ ps))
publish_batch-IsDrained_example =
    publish_batch-IsDrained full_once 1 (λ e. 7) "xrpl.events" "nft.minted" no_options
      (event "a" ∷ event "b" ∷ [])

-- An event is reported as not published though the channel has taken it.
taken_but_failed :
    (publish_event (λ p. done false) (some 1) 7 "xrpl.events" "nft.minted" no_options (event "a")).1
    ≡ raised "Failed to publish message to queue"
unfolding publish_event
taken_but_failed = refl
