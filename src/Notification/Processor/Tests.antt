-- ===== src/Notification/Processor/Tests.antt =====
-- The notification processor on a failing service.
use v2_xrpl_tools.Prelude.{
  ◌-◌, ◌*◌, ℕ, ◌≤◌, ◌≡◌, refl, true, false, Option, none, some, [], ◌∷◌, false, String,
}
use v2_xrpl_tools.Prelude.Map
use v2_xrpl_tools.Notification.Data.{
  Status, pending, failed, Notification, NotificationChannel, AlertConfig,
}
use v2_xrpl_tools.Prelude.Outcome.{raised}
use v2_xrpl_tools.Notification.Processor.{
  Services, Processor, process_activity_notifications, process_retry_notification,
  create_notification_records,
}
use v2_xrpl_tools.Notification.Processor.Liveness.{Settles, reach-Settles}
use v2_xrpl_tools.Notification.Processor.Lifecycle.{Change, notified, life, Step-Change}
use v2_xrpl_tools.Notification.Processor.Attempts.{
  Step, notify, fire, Reach, start, next, empty, attempts-bounded, pending-IsScheduled,
}

abbrev down : Services
down = record {
  discord = λ p. raised "down";
  email = λ p. raised "down";
  webhook = λ p. raised "down";
  activity = λ id. none;
  alert_config = λ id. none;
}

abbrev discord_channel : NotificationChannel
discord_channel = record { type = "discord"; enabled = true; config = [] }

abbrev created : Processor
created = process_activity_notifications down (λ i. "n") 0 "u" "a" "x" (discord_channel ∷ []) empty

abbrev retried : ℕ → Processor → Processor
retried now s = process_retry_notification down now "n" (record s { timers = [] })

created_reached : Reach created
unfolding create_notification_records Map.get Map.occurs
created_reached = next empty created start (
    notify down (λ i. "n") 0 "u" "a" "x" (discord_channel ∷ []) empty
      ((refl, (refl, refl)), (tt, refl)))

abbrev row : Status → ℕ → ℕ → Option String → Notification
row st retries scheduled error = record {
  id = "n";
  user_id = "u";
  alert_config_id = "a";
  activity_id = "x";
  channel = "discord";
  status = st;
  retry_count = retries;
  scheduled_at = scheduled;
  sent_at = none;
  created_at = 0;
  error_message = error;
}

reach-Settles_example : Settles (λ k. down) (λ k. 1000 * (5 - k)) "n" 4 created
reach-Settles_example = reach-Settles (λ k. down) (λ k. 1000 * (5 - k)) "n" created created_reached

abbrev first_notification : Step empty created
first_notification =
    notify down (λ i. "n") 0 "u" "a" "x" (discord_channel ∷ []) empty
      (unfold create_notification_records Map.get Map.occurs in ((refl, (refl, refl)), (tt, refl)))

Step-Change_example : Change notified (life "n" empty) (life "n" created)
Step-Change_example = Step-Change empty created "n" start first_notification

attempts-bounded_example : Map.occurs "n" created.attempts ≤ 4
attempts-bounded_example = attempts-bounded created created_reached "n"

created_found : Map.get "n" created.notifications ≡ some (row pending 1 1000 none)
unfolding process_activity_notifications Map.get Map.set
created_found = refl

pending-IsScheduled_example :
    (Map.occurs "n" created.timers ≡ 1) × (Map.occurs "n" created.attempts ≡ 1)
pending-IsScheduled_example =
    pending-IsScheduled created "n" (row pending 1 1000 none) created_reached created_found refl

retried_reached :
    (now due : ℕ) (s : Processor) → Reach s → s.timers ≡ ("n", due) ∷ [] → Reach (retried now s)
retried_reached now due s h e = next s (retried now s) h (fire down now "n" due [] [] s e)

abbrev given_up : Processor
given_up = retried 21000 (retried 6000 (retried 1000 created))

given_up_reached : Reach given_up
unfolding process_activity_notifications process_retry_notification Map.get Map.set
given_up_reached =
    retried_reached 21000 21000 (retried 6000 (retried 1000 created))
      (retried_reached 6000 6000 (retried 1000 created)
        (retried_reached 1000 1000 created created_reached refl) refl)
      refl

given_up_found :
    Map.get "n" given_up.notifications
    ≡ some (row failed 3 21000 (some "Activity data not found for notification n"))
unfolding process_activity_notifications process_retry_notification Map.get Map.set
given_up_found = refl

abbrev two_discords : AlertConfig
two_discords = record {
  id = "a";
  user_id = "u";
  notification_channels =
      record { type = "discord"; enabled = false; config = [] } ∷ discord_channel ∷ [];
}
