-- ===== src/Alert/Config.antt =====
-- src/features/alerts/services/alert-config.service.ts over the table of alerts. The clock and the
-- new key are handed in; the collection that a query joins to an alert is left out of the response.
pub mod Ownership
pub mod Bounds
pub mod Listing
pub mod Paging
mod Tests
use v2_xrpl_tools.Prelude.{
  ℕ, zero, suc, ◌+◌, ◌-◌, ◌*◌, ◌/◌, min, Bool, true, false, not, ◌&&◌, Option, none, some, List, [],
  ◌∷◌, String, str_eq, ltb, leb, filter, length, if◌then◌else◌, is_some, map,
}
use v2_xrpl_tools.Prelude.Map
use v2_xrpl_tools.Prelude.Map.{Map}
use v2_xrpl_tools.Prelude.Decimal.{big_int}
use v2_xrpl_tools.Notification.Data.{NotificationChannel, truthy}
use v2_xrpl_tools.Alert.Data.{TraitFilter, AlertConfigEntity}
use v2_xrpl_tools.Alert.Repository
use v2_xrpl_tools.Alert.Repository.{
  AlertQuery, Table, CreateData, Updates, AlertCounts, alerts, owned,
}

pub data Exception : Type 0 where
  not_found forbidden : Exception
  bad_request other : String → Exception

pub data Response (A : Type 0) : Type 0 where
  ok : A → Response A
  thrown : Exception → Response A

-- the settings of a channel, `channel.config?.name` where it is not empty
abbrev pub setting : String → NotificationChannel → Option String
setting name c = truthy (Map.get name c.config)

unfoldable pub channel_error : NotificationChannel → Option String
unfolding truthy
channel_error c =
    if str_eq c.type "discord" && not (is_some (setting "discordWebhookUrl" c))
    then some "Discord webhook URL is required for Discord notifications"
    else if str_eq c.type "email" && not (is_some (setting "email" c))
    then some "Email address is required for email notifications"
    else if str_eq c.type "webhook" && not (is_some (setting "webhookUrl" c))
    then some "Webhook URL is required for webhook notifications"
    else none

unfoldable pub first_error : List NotificationChannel → Option String
unfolding channel_error
first_error [] = none
first_error (c ∷ cs) =
    let rest = first_error cs in elim (channel_error c) [ none ↦ rest | some e ↦ some e ]

unfoldable pub validate_notification_channels : List NotificationChannel → Option Exception
unfolding first_error
validate_notification_channels channels = elim (filter (λ c. c.enabled) channels) [
  | [] ↦ some (bad_request "At least one notification channel must be enabled")
  | (c ∷ cs) ↦ elim (first_error (c ∷ cs)) [ none ↦ none | some e ↦ some (bad_request e) ]
]

-- the check of the price range, where both bounds are given
unfoldable pub check_prices : Option ℕ → Option ℕ → Option Exception
check_prices none high = some (other "Cannot convert to a BigInt")
check_prices (some a) none = some (other "Cannot convert to a BigInt")
check_prices (some a) (some b) =
    if leb b a then some (bad_request "Minimum price must be less than maximum price") else none

unfoldable pub check_range : Option String → Option String → Option Exception
unfolding check_prices
check_range (some low) (some high) = check_prices (big_int low) (big_int high)
check_range _ _ = none

unfoldable pub validate_price_range : Option String → Option String → Option Exception
unfolding truthy check_range
validate_price_range low high = check_range (truthy low) (truthy high)

unfoldable pub create : String → ℕ → CreateData → Table → Response AlertConfigEntity × Table
unfolding validate_price_range validate_notification_channels Repository.create
create id now d m = elim (validate_price_range d.min_price_drops d.max_price_drops) [
  | some e ↦ (thrown e, m)
  | none ↦ elim (validate_notification_channels d.notification_channels) [
    | some e ↦ (thrown e, m)
    | none ↦ let (a, m') = Repository.create id now d m in (ok a, m')
  ]
]

unfoldable pub find_by_id : String → Option String → Table → Response AlertConfigEntity
unfolding truthy
find_by_id id user m = elim (Map.get id m) [
  | none ↦ thrown not_found
  | some a ↦ elim (truthy user) [
    | none ↦ ok a
    | some u ↦ if str_eq a.user_id u then ok a else thrown forbidden
  ]
]

-- A row that is missing at the end of an update, or none that was deleted, is an error.
unfoldable pub saved :
    String → Option AlertConfigEntity × Table → Response AlertConfigEntity × Table
saved message (none, m) = (thrown (other message), m)
saved message (some a, m) = (ok a, m)

unfoldable pub checked_channels : Option (List NotificationChannel) → Option Exception
unfolding validate_notification_channels
checked_channels none = none
checked_channels (some cs) = validate_notification_channels cs

unfoldable pub update : ℕ → String → String → Updates → Table → Response AlertConfigEntity × Table
unfolding validate_price_range checked_channels saved Repository.update
update now id user u m = elim (Map.get id m) [
  | none ↦ (thrown not_found, m)
  | some a ↦
      if not (str_eq a.user_id user)
      then (thrown forbidden, m)
      else elim (validate_price_range u.min_price_drops u.max_price_drops) [
        | some e ↦ (thrown e, m)
        | none ↦ elim (checked_channels u.notification_channels) [
          | some e ↦ (thrown e, m)
          | none ↦ saved "Failed to update alert configuration" (Repository.update now id u m)
        ]
      ]
]

unfoldable pub deleted : Bool × Table → Response Unit × Table
deleted (true, m) = (ok tt, m)
deleted (false, m) = (thrown (other "Failed to delete alert configuration"), m)

unfoldable pub delete : String → String → Table → Response Unit × Table
unfolding deleted Repository.delete
delete id user m = elim (Map.get id m) [
  | none ↦ (thrown not_found, m)
  | some a ↦
      if not (str_eq a.user_id user)
      then (thrown forbidden, m)
      else deleted (Repository.delete id m)
]

abbrev pub only_active : Bool → Updates
only_active b = record {
  name = none;
  collection_id = none;
  activity_types = none;
  min_price_drops = none;
  max_price_drops = none;
  trait_filters = none;
  notification_channels = none;
  is_active = some b;
}

unfoldable pub toggle_active : ℕ → String → String → Table → Response AlertConfigEntity × Table
unfolding saved Repository.update
toggle_active now id user m = elim (Map.get id m) [
  | none ↦ (thrown not_found, m)
  | some a ↦
      if not (str_eq a.user_id user)
      then (thrown forbidden, m)
      else saved "Failed to toggle alert configuration"
          (Repository.update now id (only_active (not a.is_active)) m)
]

-- `alertsByActivityType`
unfoldable pub count_type : String → Map ℕ → Map ℕ
count_type t m = elim (Map.get t m) [ none ↦ Map.set t 1 m | some n ↦ Map.set t (n + 1) m ]

unfoldable pub count_types : List String → Map ℕ → Map ℕ
unfolding count_type
count_types [] m = m
count_types (t ∷ ts) m = count_types ts (count_type t m)

unfoldable pub count_alert_types : List AlertConfigEntity → Map ℕ → Map ℕ
unfolding count_types
count_alert_types [] m = m
count_alert_types (a ∷ rest) m = count_alert_types rest (count_types a.activity_types m)

unfoldable pub get_alert_stats : String → Table → AlertCounts × Map ℕ
unfolding Repository.get_alert_stats count_alert_types
get_alert_stats user m =
    (Repository.get_alert_stats user m, count_alert_types (owned user (alerts m)) [])
