-- ===== src/Health.antt =====
-- src/features/health/services/health-check.service.ts: the health of the parts and of the system,
-- and the check from end to end. What the parts answer is handed in; times and latencies are left out
-- but for those of the checks from end to end.
pub mod Overall
pub mod Failures
mod Tests
use v2_xrpl_tools.Prelude.{
  ℕ, zero, suc, Bool, true, false, not, Option, none, some, List, [], ◌∷◌, String, str_eq, ltb,
  ◌==◌, if◌then◌else◌, filter, length, map, is_some,
}
use v2_xrpl_tools.Prelude.Decimal.{show}
use v2_xrpl_tools.Prelude.Outcome.{Outcome, done, raised, ◌>>=◌}
use v2_xrpl_tools.Prelude.Json.{Json, when_truthy}
use v2_xrpl_tools.Prelude.Words.{words}
use v2_xrpl_tools.Queue.Connection.{QueueHealth}
use v2_xrpl_tools.Xrpl.Nodes.{ConnectionHealthStatus}

pub record HealthCheckResult : Type 0 where
  pub status : String
  pub details : Option String
  pub error : Option String

-- the answer of a service that checks itself
pub record ServiceHealth : Type 0 where
  pub status : String
  pub issues : List String

-- What the parts answer, or throw. What the cache is asked for is read, but not compared with what was
-- stored: `redis_get` may be any value.
pub record HealthAnswers : Type 0 where
  pub database : Outcome (Unit {0})
  pub xrpl : Outcome ConnectionHealthStatus
  pub queue : Outcome QueueHealth
  pub redis_set : Outcome (Unit {0})
  pub redis_get : Outcome (Option Json)
  pub redis_del : Outcome (Unit {0})
  pub redis_hit_rate : String
  pub alerts : Outcome ServiceHealth
  pub notifications : Outcome ServiceHealth

abbrev pub reported : String → Option String → HealthCheckResult
reported status details = record { status = status; details = details; error = none }

-- the `catch` of a check
abbrev pub caught_check : Outcome HealthCheckResult → HealthCheckResult
caught_check (done r) = r
caught_check (raised e) = record { status = "unhealthy"; details = none; error = some e }

unfoldable pub check_database_health : HealthAnswers → HealthCheckResult
check_database_health a = caught_check (do _ ← a.database; done (reported "healthy" none))

unfoldable pub connection_result : ConnectionHealthStatus → HealthCheckResult
connection_result h =
    if h.healthy_nodes == 0
    then record { status = "unhealthy"; details = none; error = some "Not connected to XRPL" }
    else if ltb 0 h.unhealthy_nodes
    then reported "degraded"
        (some (words (show h.unhealthy_nodes ∷ " XRPL connections are unhealthy" ∷ [])))
    else reported "healthy" (some (words (show h.healthy_nodes ∷ " healthy connections" ∷ [])))

unfoldable pub check_xrpl_connection_health : HealthAnswers → HealthCheckResult
unfolding connection_result
check_xrpl_connection_health a = caught_check (do h ← a.xrpl; done (connection_result h))

unfoldable pub check_message_queue_health : HealthAnswers → HealthCheckResult
check_message_queue_health a =
    caught_check (do h ← a.queue; done (reported h.status (some h.message)))

abbrev pub thrown_unless : Bool → String → Outcome (Unit {0})
thrown_unless true e = done tt
thrown_unless false e = raised e

unfoldable pub check_redis_health : HealthAnswers → HealthCheckResult
check_redis_health a = caught_check (do
  _ ← a.redis_set
  retrieved ← a.redis_get
  _ ← thrown_unless (is_some (when_truthy retrieved)) "Failed to retrieve test value"
  _ ← a.redis_del
  done (reported "healthy" (some (words ("Hit rate: " ∷ a.redis_hit_rate ∷ "%" ∷ [])))))

-- a placeholder in the code
abbrev pub get_stuck_metadata_items : ℕ
get_stuck_metadata_items = 0

unfoldable pub check_metadata_enrichment_health : HealthAnswers → HealthCheckResult
check_metadata_enrichment_health a =
    if ltb 10 get_stuck_metadata_items
    then reported "degraded"
        (some (words (show get_stuck_metadata_items ∷ " items stuck in metadata queue" ∷ [])))
    else reported "healthy" none

-- `issues.join(', ')`, where there are any
abbrev joined_issues : List String → Option String
joined_issues [] = none
joined_issues (i ∷ []) = some i
joined_issues (i ∷ is) = elim (joined_issues is) [
  | none ↦ some i
  | some rest ↦ some (words (i ∷ ", " ∷ rest ∷ []))
]

abbrev pub service_result : ServiceHealth → HealthCheckResult
service_result h = reported h.status (joined_issues h.issues)

unfoldable pub check_alert_processing_health : HealthAnswers → HealthCheckResult
check_alert_processing_health a = caught_check (do h ← a.alerts; done (service_result h))

unfoldable pub check_notification_health : HealthAnswers → HealthCheckResult
check_notification_health a = caught_check (do h ← a.notifications; done (service_result h))

pub record ComponentHealth : Type 0 where
  pub name : String
  pub status : String
  pub details : HealthCheckResult

abbrev pub resolve_health_result : HealthCheckResult → String → ComponentHealth
resolve_health_result r name = record { name = name; status = r.status; details = r }

pub record SystemHealth : Type 0 where
  pub status : String
  pub components : List ComponentHealth

abbrev pub count_status : String → List ComponentHealth → ℕ
count_status s cs = length (filter (λ c. str_eq c.status s) cs)

unfoldable pub overall_status : List ComponentHealth → String
overall_status cs =
    if ltb 0 (count_status "unhealthy" cs)
    then "unhealthy"
    else if ltb 0 (count_status "degraded" cs)
    then "degraded"
    else "healthy"

-- Every check catches what it calls, so none of them is rejected.
unfoldable pub get_system_health : HealthAnswers → SystemHealth
unfolding overall_status
get_system_health a =
    let components =
      resolve_health_result (check_database_health a) "Database"
      ∷ resolve_health_result (check_xrpl_connection_health a) "XRPL Connection"
      ∷ resolve_health_result (check_message_queue_health a) "Message Queue"
      ∷ resolve_health_result (check_redis_health a) "Redis Cache"
      ∷ resolve_health_result (check_metadata_enrichment_health a) "Metadata Enrichment"
      ∷ resolve_health_result (check_alert_processing_health a) "Alert Processing"
      ∷ resolve_health_result (check_notification_health a) "Notifications"
      ∷ [] in
    record { status = overall_status components; components = components }

-- What the check from end to end asks for.
pub record EndToEndAnswers : Type 0 where
  pub now : ℕ
  pub user_count : Outcome ℕ
  pub xrpl : Outcome ConnectionHealthStatus
  pub recent_activity : Outcome ℕ
  pub recent_notifications : Outcome ℕ

pub record EndToEndState : Type 0 where
  pub last_end_to_end_test : Option ℕ
  pub end_to_end_failure_count : ℕ

pub record EndToEndHealthCheck : Type 0 where
  pub status : String
  pub last_test_at : ℕ
  pub last_success_at : Option ℕ
  pub failure_count : ℕ
  pub transaction_processed : Option Bool
  pub alert_matched : Option Bool
  pub notification_sent : Option Bool
  pub error : Option String

-- The first steps of the check: whether transactions were recorded, or the error that ends it.
unfoldable pub recent_transactions : EndToEndAnswers → Outcome Bool
recent_transactions a = do
  users ← a.user_count
  _ ← thrown_unless (not (users == 0)) "No users found in system"
  xrpl ← a.xrpl
  _ ← thrown_unless (not (xrpl.healthy_nodes == 0)) "XRPL not connected"
  activity ← a.recent_activity
  done (ltb 0 activity)

-- the `catch` of the check, with what was found before
unfoldable pub failed_check :
    EndToEndAnswers
    → Option Bool
    → Option Bool
    → String
    → EndToEndState
    → EndToEndHealthCheck × EndToEndState
failed_check a processed matched e s =
    let n = suc s.end_to_end_failure_count in
    (
      record {
        status = "unhealthy";
        last_test_at = a.now;
        last_success_at = none;
        failure_count = n;
        transaction_processed = processed;
        alert_matched = matched;
        notification_sent = none;
        error = some e;
      },
      record { last_end_to_end_test = some a.now; end_to_end_failure_count = n },
    )

unfoldable pub perform_end_to_end_health_check :
    EndToEndAnswers → EndToEndState → EndToEndHealthCheck × EndToEndState
unfolding recent_transactions failed_check
perform_end_to_end_health_check a s = elim (recent_transactions a) [
  | raised e ↦ failed_check a none none e s
  | done processed ↦ elim a.recent_notifications [
    | raised e ↦ failed_check a (some processed) (some true) e s
    | done n ↦ (
      record {
        status = "healthy";
        last_test_at = a.now;
        last_success_at = some a.now;
        failure_count = 0;
        transaction_processed = some processed;
        alert_matched = some true;
        notification_sent = some (ltb 0 n);
        error = none;
      },
      record { last_end_to_end_test = some a.now; end_to_end_failure_count = 0 },
    )
  ]
]
