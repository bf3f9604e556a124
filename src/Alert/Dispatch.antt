-- ===== src/Alert/Dispatch.antt =====
-- src/features/alerts/services/alert-notification.service.ts: from a recorded activity to the
-- notifications of the alerts that match it. It uses the matching and the notification processor. The
-- notifications of one activity are made one after the other; they share no row.
pub mod Recipients
mod Tests
use v2_xrpl_tools.Prelude.{
  ℕ, suc, Bool, true, false, not, ◌&&◌, Option, none, some, List, [], ◌∷◌, filter, String, str_eq,
  if◌then◌else◌, ◌++◌, length, ltb, ◌==◌,
}
use v2_xrpl_tools.Prelude.Json.{Json}
use v2_xrpl_tools.Prelude.Outcome.{Outcome, done, raised}
use v2_xrpl_tools.Prelude.Words.{words}
use v2_xrpl_tools.Notification.Data.{NotificationChannel}
use v2_xrpl_tools.Notification.Processor.{
  Services, Processor, process_activity_notifications, Health, healthy, degraded, unhealthy,
}
use v2_xrpl_tools.Alert.Data.{AlertConfigEntity, AlertMatchResult, ActivityNft, NftActivity}
use v2_xrpl_tools.Alert.Repository.{Table, find_by_id}
use v2_xrpl_tools.Alert.Traits.{Runtime}
use v2_xrpl_tools.Alert.Matching.{find_matching_alerts}

-- an activity with its relations, the fields that the matching reads
pub record ActivityEntity : Type 0 where
  pub id : String
  pub activity_type : String
  pub price_drops : Option String
  pub nft : Option ActivityNft

-- an empty text is left out
abbrev pub present : Option String → Option String
present none = none
present (some s) = if str_eq s "" then none else some s

unfoldable pub convert_to_nft_activity : ActivityEntity → NftActivity
convert_to_nft_activity a = record {
  id = a.id;
  activity_type = a.activity_type;
  price_drops = present a.price_drops;
  nft = elim a.nft [
    | none ↦ none
    | some n ↦ some (record { collection_id = present n.collection_id; traits = n.traits })
  ];
}

-- the arguments of `processActivityNotifications`
pub record Request : Type 0 where
  pub user_id : String
  pub alert_config_id : String
  pub activity_id : String
  pub channels : List NotificationChannel

-- What a match asks for: nothing where its alert is gone, or has no channels.
unfoldable pub request_for : Table → String → AlertMatchResult → Option Request
unfolding find_by_id
request_for table activity_id r = elim (find_by_id r.alert_config_id table) [
  | none ↦ none
  | some a ↦ elim a.notification_channels [
    | [] ↦ none
    | c ∷ cs ↦ some (record {
      user_id = a.user_id;
      alert_config_id = r.alert_config_id;
      activity_id = activity_id;
      channels = c ∷ cs;
    })
  ]
]

abbrev pub cons_request : Option Request → List Request → List Request
cons_request none l = l
cons_request (some r) l = r ∷ l

unfoldable pub requests_for : Table → String → List AlertMatchResult → List Request
unfolding request_for
requests_for table activity_id [] = []
requests_for table activity_id (r ∷ rs) =
    cons_request (request_for table activity_id r) (requests_for table activity_id rs)

-- The i-th request takes its keys from the i-th family.
unfoldable pub generate_notifications :
    Services → (ℕ → ℕ → String) → ℕ → ℕ → List Request → Processor → Processor
unfolding process_activity_notifications
generate_notifications services new_id i now [] p = p
generate_notifications services new_id i now (r ∷ rs) p =
    generate_notifications services new_id (suc i) now rs (
      process_activity_notifications services (new_id i) now r.user_id r.alert_config_id
        r.activity_id r.channels p)

module _ (runtime : Runtime) where
  unfoldable pub requests : Table → ActivityEntity → List Request
  unfolding find_matching_alerts convert_to_nft_activity requests_for
  requests table activity = requests_for table activity.id (
      filter (λ r. r.matched)
        (find_matching_alerts runtime table (convert_to_nft_activity activity)))

  unfoldable pub process_activity :
      Services → (ℕ → ℕ → String) → ℕ → Table → ActivityEntity → Processor → Processor
  unfolding requests generate_notifications
  process_activity services new_id now table activity p =
      generate_notifications services new_id 0 now (requests table activity) p

  -- each activity has its families of keys
  unfoldable pub process_activity_batch :
      Services → (ℕ → ℕ → ℕ → String) → ℕ → ℕ → Table → List ActivityEntity → Processor → Processor
  unfolding process_activity
  process_activity_batch services new_id i now table [] p = p
  process_activity_batch services new_id i now table (a ∷ rest) p =
      process_activity_batch services new_id (suc i) now table rest
        (process_activity services (new_id i) now table a p)

-- the activity that the health check asks for
abbrev probe : NftActivity
probe = record { id = "health-check"; activity_type = "mint"; price_drops = none; nft = none }

abbrev check_error {ℓ} : {A : Type ℓ} → String → Outcome A → List String
check_error what (done a) = []
check_error what (raised e) = words (what ∷ " error: " ∷ e ∷ []) ∷ []

unfoldable pub status_of : List String → Health
status_of issues =
    if length issues == 0 then healthy else if ltb (length issues) 2 then degraded else unhealthy

-- The matching catches what it meets, the failure of its query included, so its answer is never an
-- error; the answer of the count is handed in.
unfoldable pub health_check : Runtime → Table → Outcome ℕ → Health × List String
unfolding find_matching_alerts status_of
health_check runtime table count =
    let issues =
      check_error "Alert matching service" (done (find_matching_alerts runtime table probe))
      ++ check_error "Database connectivity" count in
    (status_of issues, issues)
