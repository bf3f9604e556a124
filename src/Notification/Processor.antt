-- ===== src/Notification/Processor.antt =====
-- src/features/notifications/services/notification-processor.service.ts. The state is the table of
-- notifications, the timers that are set, with the time at which each is due, and the attempts
-- that were made. An attempt runs as one step: between two of its awaits no other call touches the
-- row of the notification. The database's reads and writes succeed; log lines are left out.
pub mod Tracking
pub mod Timers
pub mod Batches
pub mod Attempts
pub mod Liveness
pub mod Rows
pub mod Lifecycle
mod Tests
use Prim.Native.String.{◌++◌ as str_append}
use v2_xrpl_tools.Prelude.{
  ℕ, suc, ◌+◌, ◌-◌, ◌*◌, Bool, true, false, not, ◌&&◌, Option, none, some, List, [], ◌∷◌, ◌++◌,
  String, str_eq, ltb, leb, if◌then◌else◌, filter, get_elem?, length,
}
use v2_xrpl_tools.Prelude.Map
use v2_xrpl_tools.Prelude.Map.{Map}
use v2_xrpl_tools.Notification.Data.{
  Status, pending, sent, failed, Notification, NotificationChannel, NotificationResult, Activity,
  AlertConfig, NotificationPayload, truthy,
}
use v2_xrpl_tools.Notification.Payload.{build_notification_payload, max_retries}
use v2_xrpl_tools.Prelude.Outcome.{Outcome, done, raised}

-- The channels' services and the relations that the query loads, as they answer at one time.
pub record Services : Type 0 where
  pub discord : NotificationPayload → Outcome NotificationResult
  pub email : NotificationPayload → Outcome NotificationResult
  pub webhook : NotificationPayload → Outcome NotificationResult
  pub activity : String → Option Activity
  pub alert_config : String → Option AlertConfig

pub record Processor : Type 0 where
  pub notifications : Map Notification
  pub timers : Map ℕ
  pub attempts : Map ℕ

-- `repository.update`: a row that is missing is no error.
unfoldable pub update : String → (Notification → Notification) → Processor → Processor
update id f s = elim (Map.get id s.notifications) [
  | none ↦ s
  | some n ↦ record s { notifications = Map.set id (f n) s.notifications }
]

unfoldable pub send_notification : Services → NotificationPayload → Outcome NotificationResult
send_notification services p =
    if str_eq p.channel.type "discord"
    then services.discord p
    else if str_eq p.channel.type "email"
    then services.email p
    else if str_eq p.channel.type "webhook"
    then services.webhook p
    else raised (str_append "Unsupported notification channel: " p.channel.type)

unfoldable pub apply_result : ℕ → NotificationResult → Notification → Notification
unfolding truthy
apply_result now r n =
    if r.success
    then record n { status = sent; sent_at = some now; error_message = none }
    else record n {
      status = failed;
      error_message = elim (truthy r.error) [ none ↦ some "Unknown error" | some e ↦ some e ];
    }

unfoldable pub update_notification_status : ℕ → String → NotificationResult → Processor → Processor
unfolding update apply_result
update_notification_status now id r s = update id (apply_result now r) s

abbrev pub retry_delays : List ℕ
retry_delays = 1000 ∷ 5000 ∷ 15000 ∷ []

-- `retryAfter || retryDelays[next - 1] || 30000`: zero counts as absent
unfoldable pub positive_or : Option ℕ → ℕ → ℕ
positive_or none d = d
positive_or (some n) d = if leb n 0 then d else n

unfoldable pub retry_delay : Option ℕ → ℕ → ℕ
unfolding positive_or
retry_delay retry_after next =
    positive_or retry_after (positive_or (get_elem? retry_delays (next - 1)) 30000)

unfoldable pub retried : ℕ → Option ℕ → Notification → Notification
unfolding retry_delay
retried now retry_after n = record n {
  status = pending;
  retry_count = suc n.retry_count;
  scheduled_at = now + retry_delay retry_after (suc n.retry_count);
  error_message = none;
}

unfoldable pub schedule_retry : ℕ → String → Option ℕ → Processor → Processor
unfolding update retried
schedule_retry now id retry_after s = elim (Map.get id s.notifications) [
  | none ↦ s
  | some n ↦
      let s' = update id (retried now retry_after) s in
      record s' { timers = (id, now + retry_delay retry_after (suc n.retry_count)) ∷ s'.timers }
]

-- The body of the `try`: the row is read again, with its relations.
unfoldable pub attempt : Services → Notification → Processor → Outcome NotificationResult
unfolding send_notification build_notification_payload
attempt services n s = elim (Map.get n.id s.notifications) [
  | none ↦ raised (str_append "Activity data not found for notification " n.id)
  | some full ↦ elim (services.activity full.activity_id) [
    | none ↦ raised (str_append "Activity data not found for notification " n.id)
    | some activity ↦ elim (services.alert_config full.alert_config_id) [
      | none ↦ raised (str_append "Alert config not found for notification " n.id)
      | some alert ↦ elim (build_notification_payload full activity alert) [
        | raised e ↦ raised e
        | done payload ↦ send_notification services payload
      ]
    ]
  ]
]

-- The `catch` block records the message as the result of a failed send.
abbrev pub failure : String → NotificationResult
failure e = record { success = false; message_id = none; error = some e; retry_after = none }

-- What follows a send that returned, and one that threw.
unfoldable pub conclude : ℕ → Notification → Outcome NotificationResult → Processor → Processor
unfolding update_notification_status schedule_retry
conclude now n (done r) s =
    let s' = update_notification_status now n.id r s in
    if not r.success && ltb n.retry_count max_retries
    then schedule_retry now n.id r.retry_after s'
    else s'
conclude now n (raised e) s =
    let s' = update_notification_status now n.id (failure e) s in
    if ltb n.retry_count max_retries then schedule_retry now n.id none s' else s'

unfoldable pub process_notification : Services → ℕ → Notification → Processor → Processor
unfolding attempt conclude
process_notification services now n s =
    let s' = conclude now n (attempt services n s) s in
    record s' { attempts = (n.id, now) ∷ s'.attempts }

abbrev pub is_pending : Status → Bool
is_pending pending = true
is_pending sent = false
is_pending failed = false

unfoldable pub process_retry_notification : Services → ℕ → String → Processor → Processor
unfolding process_notification
process_retry_notification services now id s = elim (Map.get id s.notifications) [
  | none ↦ s
  | some n ↦ if is_pending n.status then process_notification services now n s else s
]

-- The database names the rows: the row of the i-th channel has the i-th of its new keys.
unfoldable pub create_notification_records :
    (ℕ → String) → ℕ → String → String → String → ℕ → List NotificationChannel → List Notification
create_notification_records new_id i user alert activity now [] = []
create_notification_records new_id i user alert activity now (c ∷ cs) =
    record {
      id = new_id i;
      user_id = user;
      alert_config_id = alert;
      activity_id = activity;
      channel = c.type;
      status = pending;
      retry_count = 0;
      scheduled_at = now;
      sent_at = none;
      created_at = now;
      error_message = none;
    }
    ∷ create_notification_records new_id (suc i) user alert activity now cs

unfoldable pub save_all : List Notification → Processor → Processor
save_all [] s = s
save_all (n ∷ ns) s = save_all ns (record s { notifications = Map.set n.id n s.notifications })

unfoldable pub process_all : Services → ℕ → List Notification → Processor → Processor
unfolding process_notification
process_all services now [] s = s
process_all services now (n ∷ ns) s =
    process_all services now ns (process_notification services now n s)

unfoldable pub process_activity_notifications :
    Services
    → (ℕ → String)
    → ℕ
    → String
    → String
    → String
    → List NotificationChannel
    → Processor
    → Processor
unfolding create_notification_records save_all process_all
process_activity_notifications services new_id now user alert activity channels s =
    let ns =
      create_notification_records new_id 0 user alert activity now
        (filter (λ c. c.enabled) channels) in
    process_all services now ns (save_all ns s)

-- The rows created before the cutoff go, whatever their status; a key has one row.
unfoldable pub delete_older : ℕ → Map Notification → Map Notification
delete_older cutoff [] = []
delete_older cutoff ((k, n) ∷ m) =
    let rest = delete_older cutoff m in
    if ltb n.created_at cutoff then Map.delete k rest else (k, n) ∷ rest

-- `now` and the result in milliseconds
unfoldable pub cleanup_old_notifications : ℕ → ℕ → Processor → ℕ × Processor
unfolding delete_older
cleanup_old_notifications now older_than_days s =
    let kept = delete_older (now - older_than_days * 86400000) s.notifications in
    (length s.notifications - length kept, record s { notifications = kept })

pub data Health : Type 0 where
  healthy degraded unhealthy : Health

-- `healthCheck`, where the database answers the count or throws with a message
unfoldable pub health_check : Outcome ℕ → Health × List String
health_check (done n) = (healthy, [])
health_check (raised e) = (degraded, str_append "Database connectivity error: " e ∷ [])
