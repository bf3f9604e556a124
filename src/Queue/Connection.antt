-- ===== src/Queue/Connection.antt =====
-- src/modules/queue/services/rabbitmq-connection.service.ts: the connection to the broker, its loss
-- and its reconnection. A connection and its channel have one number, which is handed in, as are the
-- answers of the broker. What the broker is asked for when a connection is set up stands in Queue.Topology.
pub mod Losses
use v2_xrpl_tools.Prelude.{
  ℕ, zero, suc, ◌+◌, ◌*◌, Bool, true, false, ◌&&◌, Option, none, some, List, [], ◌∷◌, leb, ◌==◌,
  any, String, is_some, if◌then◌else◌,
}
use v2_xrpl_tools.Queue.Consumer.{Answer, returns, throws}

pub record ConnectionState : Type 0 where
  pub connection : Option ℕ
  pub channel : Option ℕ
  pub reconnect_attempts : ℕ
  pub timers : List ℕ
  pub listened : List ℕ

abbrev pub initial : ConnectionState
initial = record {
  connection = none;
  channel = none;
  reconnect_attempts = 0;
  timers = [];
  listened = [];
}

abbrev pub max_reconnect_attempts : ℕ
max_reconnect_attempts = 5

abbrev pub reconnect_delay : ℕ
reconnect_delay = 5000

-- the call of the broker's library at which `connect` fails, or none
pub data ConnectResult : Type 0 where
  connects fails_connecting fails_channel fails_prefetch : ConnectResult

-- The listeners are set behind the calls that can fail.
unfoldable pub connect : ℕ → ConnectResult → ConnectionState → Answer × ConnectionState
connect n connects s = (
  returns,
  record s {
    connection = some n;
    channel = some n;
    listened = n ∷ s.listened;
    reconnect_attempts = 0;
  },
)
connect n fails_connecting s = (throws, s)
connect n fails_channel s = (throws, record s { connection = some n })
connect n fails_prefetch s = (throws, record s { connection = some n; channel = some n })

-- What closing the channel and the connection answers; the first that throws ends the block.
unfoldable pub disconnect : Answer → Answer → ConnectionState → ConnectionState
disconnect channel_answer connection_answer s =
    let shut = record s { channel = none } in
    let ended =
      if is_some s.connection
      then elim connection_answer [ returns ↦ record shut { connection = none } | throws ↦ shut ]
      else shut in
    if is_some s.channel then elim channel_answer [ returns ↦ ended | throws ↦ s ] else ended

abbrev pub get_channel : ConnectionState → Option ℕ
get_channel s = s.channel

abbrev pub is_connected : ConnectionState → Bool
is_connected s = is_some s.connection && is_some s.channel

unfoldable pub handle_connection_error : ℕ → ConnectionState → ConnectionState
handle_connection_error now s =
    if leb max_reconnect_attempts s.reconnect_attempts then s else record s {
      reconnect_attempts = suc s.reconnect_attempts;
      timers = (now + reconnect_delay * suc s.reconnect_attempts) ∷ s.timers;
    }

-- the timers without the one that is due
unfoldable pub without : ℕ → List ℕ → List ℕ
without due [] = []
without due (t ∷ ts) = let rest = without due ts in if t == due then ts else t ∷ rest

-- What can happen to the service: its start, the `error` and the `close` of a connection that is listened
-- to, each of which has its own listener, a timer that is due, and the service's stop. A connection that the
-- network loses emits both.
pub data ConnectionEvent : Type 0 where
  module_init : ℕ → ConnectResult → ConnectionEvent
  connection_error connection_closed : ℕ → ConnectionEvent
  timer_fires : ℕ → ℕ → ConnectResult → ConnectionEvent
  module_destroy : Answer → Answer → ConnectionEvent

-- Errors of `connect` and of the setup behind it are caught by the callers.
unfoldable pub on_event : ConnectionEvent → ConnectionState → ConnectionState
unfolding connect disconnect without handle_connection_error
on_event (module_init n r) s = (connect n r s).1
on_event (connection_error now) s = handle_connection_error now s
on_event (connection_closed now) s = handle_connection_error now s
on_event (timer_fires due n r) s =
    if any (λ t. t == due) s.timers
    then (connect n r (record s { timers = without due s.timers })).1
    else s
on_event (module_destroy a b) s = disconnect a b s

unfoldable pub run_events : List ConnectionEvent → ConnectionState → ConnectionState
unfolding on_event
run_events [] s = s
run_events (e ∷ es) s = run_events es (on_event e s)

-- src/modules/queue/services/queue-health.service.ts
pub record QueueHealth : Type 0 where
  pub status : String
  pub message : String

unfoldable pub get_queue_health : ConnectionState → QueueHealth
get_queue_health s = elim (get_channel s) [
  | some c ↦ record { status = "healthy"; message = "RabbitMQ connection is active" }
  | none ↦ record { status = "degraded"; message = "RabbitMQ channel not available" }
]
