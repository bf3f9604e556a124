-- ===== src/Health/Tests.antt =====
-- A system of which all parts answer well.
use v2_xrpl_tools.Health.{recent_transactions}
use v2_xrpl_tools.Health.Failures.{passes}
use v2_xrpl_tools.Health.{check_metadata_enrichment_health}
use v2_xrpl_tools.Health.{check_redis_health}
use v2_xrpl_tools.Health.{check_message_queue_health}
use v2_xrpl_tools.Health.{check_xrpl_connection_health}
use v2_xrpl_tools.Health.{check_database_health}
use v2_xrpl_tools.Prelude.{some, ℕ, ◌≡◌, ◌<◌, refl, none, [], ◌∷◌}
use v2_xrpl_tools.Prelude.Json.{text}
use v2_xrpl_tools.Prelude.Outcome.{Outcome, done, raised}
use v2_xrpl_tools.Queue.Connection.{QueueHealth, get_queue_health, initial}
use v2_xrpl_tools.Xrpl.Nodes.{ConnectionHealthStatus}
use v2_xrpl_tools.Health.{
  HealthAnswers, get_system_health, check_alert_processing_health, check_notification_health,
  EndToEndAnswers,
}
use v2_xrpl_tools.Health.Overall.{IsTaken, IsUp, get_system_health-healthy}
use v2_xrpl_tools.Health.Failures.{after_checks, failure_count-failures_since}

abbrev nodes : ConnectionHealthStatus
nodes = record { total_nodes = 2; healthy_nodes = 2; unhealthy_nodes = 0 }

abbrev well : HealthAnswers
well = record {
  database = done tt;
  xrpl = done nodes;
  queue = done (record { status = "healthy"; message = "RabbitMQ connection is active" });
  redis_set = done tt;
  redis_get = done (some (text "T"));
  redis_del = done tt;
  redis_hit_rate = "0.00";
  alerts = done (record { status = "healthy"; issues = [] });
  notifications = done (record { status = "healthy"; issues = [] });
}

get_system_health-healthy_example :
    (well.database ≡ done tt)
    × (((h : ConnectionHealthStatus) × ((well.xrpl ≡ done h)
            × ((0 < h.healthy_nodes) × (h.unhealthy_nodes ≡ 0))))
        × (((q : QueueHealth) × ((well.queue ≡ done q) × IsUp q.status))
            × (IsTaken well.redis_get
                × (IsUp (check_alert_processing_health well).status
                    × IsUp (check_notification_health well).status))))
unfolding get_system_health check_database_health check_xrpl_connection_health
    check_message_queue_health check_redis_health check_metadata_enrichment_health
    check_alert_processing_health check_notification_health
get_system_health-healthy_example = get_system_health-healthy well refl

-- The queue without a channel makes the system degraded.
without_channel :
    (get_system_health (record well { queue = done (get_queue_health initial) })).status
    ≡ "degraded"
unfolding get_system_health check_database_health check_xrpl_connection_health
    check_message_queue_health get_queue_health check_redis_health check_metadata_enrichment_health
    check_alert_processing_health check_notification_health
without_channel = refl

abbrev checked : Outcome ℕ → EndToEndAnswers
checked users = record {
  now = 9;
  user_count = users;
  xrpl = done nodes;
  recent_activity = done 0;
  recent_notifications = done 0;
}

failure_count-failures_since_example :
    (after_checks (checked (done 0) ∷ checked (done 3) ∷ checked (raised "gone") ∷ []) (record {
      last_end_to_end_test = none;
      end_to_end_failure_count = 4;
    })).end_to_end_failure_count
    ≡ 1
unfolding passes recent_transactions
failure_count-failures_since_example =
    failure_count-failures_since
      (checked (done 0) ∷ checked (done 3) ∷ checked (raised "gone") ∷ [])
      (record { last_end_to_end_test = none; end_to_end_failure_count = 4 })
