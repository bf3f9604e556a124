-- ===== src/Alert/Repository.antt =====
-- src/features/alerts/repositories/alert-config.repository.ts: the table of alerts, by their ids.
use v2_xrpl_tools.Prelude.{
  ℕ, suc, ◌-◌, Bool, true, false, not, ◌&&◌, Option, none, some, List, [], ◌∷◌, String, str_eq,
  filter, length, any, ltb, take, drop, if◌then◌else◌,
}
use v2_xrpl_tools.Prelude.Map
use v2_xrpl_tools.Prelude.Map.{Map}
use v2_xrpl_tools.Notification.Data.{NotificationChannel, truthy}
use v2_xrpl_tools.Alert.Data.{TraitFilter, AlertConfigEntity}

abbrev pub Table : Type 0
Table = Map AlertConfigEntity

abbrev pub alerts : Table → List AlertConfigEntity
alerts [] = []
alerts ((k, a) ∷ m) = a ∷ alerts m

unfoldable pub find_by_id : String → Table → Option AlertConfigEntity
find_by_id id m = Map.get id m

-- the options of `findByUserId`
pub record AlertQuery : Type 0 where
  pub is_active : Option Bool
  pub collection_id : Option String
  pub skip : Option ℕ
  pub take : Option ℕ

abbrev pub has_state : Option Bool → Bool → Bool
has_state none b = true
has_state (some true) b = b
has_state (some false) b = not b

abbrev pub has_collection : Option String → Option String → Bool
has_collection none c = true
has_collection (some w) none = false
has_collection (some w) (some c) = str_eq c w

-- the conditions of the query
unfoldable pub selects : String → Option Bool → Option String → AlertConfigEntity → Bool
unfolding truthy
selects user state collection a =
    str_eq a.user_id user
    && (has_state state a.is_active && has_collection (truthy collection) a.collection_id)

-- `ORDER BY createdAt DESC`; alerts of the same time stay in the order of the table
unfoldable pub insert_newest : AlertConfigEntity → List AlertConfigEntity → List AlertConfigEntity
insert_newest a [] = a ∷ []
insert_newest a (b ∷ list) =
    let rest = insert_newest a list in
    if ltb a.created_at b.created_at then b ∷ rest else a ∷ b ∷ list

unfoldable pub newest_first : List AlertConfigEntity → List AlertConfigEntity
unfolding insert_newest
newest_first [] = []
newest_first (a ∷ list) = insert_newest a (newest_first list)

-- A limit of zero is not set.
unfoldable pub limited : Option ℕ → List AlertConfigEntity → List AlertConfigEntity
limited (some (suc n)) list = take (suc n) list
limited _ list = list

unfoldable pub skipped : Option ℕ → List AlertConfigEntity → List AlertConfigEntity
skipped none list = list
skipped (some n) list = drop n list

-- `getManyAndCount`: the rows of the window, and how many the conditions select
unfoldable pub find_by_user_id : String → AlertQuery → Table → List AlertConfigEntity × ℕ
unfolding selects newest_first limited skipped
find_by_user_id user q m =
    let rows = filter (selects user q.is_active q.collection_id) (alerts m) in
    (limited q.take (skipped q.skip (newest_first rows)), length rows)

unfoldable pub find_active_alerts : Table → List AlertConfigEntity
find_active_alerts m = filter (λ a. a.is_active) (alerts m)

unfoldable pub find_by_collection_id : String → Table → List AlertConfigEntity
find_by_collection_id id m =
    filter (λ a. has_collection (some id) a.collection_id && a.is_active) (alerts m)

pub record CreateData : Type 0 where
  pub user_id : String
  pub name : String
  pub collection_id : Option String
  pub activity_types : List String
  pub min_price_drops : Option String
  pub max_price_drops : Option String
  pub trait_filters : Option (List TraitFilter)
  pub notification_channels : List NotificationChannel

-- The database makes the key, and fills the columns that have defaults.
unfoldable pub create : String → ℕ → CreateData → Table → AlertConfigEntity × Table
unfolding truthy
create id now d m =
    let a : AlertConfigEntity = record {
      id = id;
      user_id = d.user_id;
      name = d.name;
      collection_id = truthy d.collection_id;
      activity_types = d.activity_types;
      min_price_drops = truthy d.min_price_drops;
      max_price_drops = truthy d.max_price_drops;
      trait_filters = d.trait_filters;
      notification_channels = d.notification_channels;
      is_active = true;
      created_at = now;
      updated_at = now;
    } in
    (a, Map.set id a m)

-- What an update may set; none leaves the column.
pub record Updates : Type 0 where
  pub name : Option String
  pub collection_id : Option String
  pub activity_types : Option (List String)
  pub min_price_drops : Option String
  pub max_price_drops : Option String
  pub trait_filters : Option (List TraitFilter)
  pub notification_channels : Option (List NotificationChannel)
  pub is_active : Option Bool

unfoldable pub default {ℓ} : {A : Type ℓ} → Option A → A → A
default none old = old
default (some new) old = new

-- `updates.x !== undefined`, then `updates.x || null`
unfoldable pub or_null : Option String → Option String → Option String
unfolding truthy
or_null none old = old
or_null (some new) old = truthy (some new)

unfoldable pub kept_filters :
    Option (List TraitFilter) → Option (List TraitFilter) → Option (List TraitFilter)
kept_filters none old = old
kept_filters (some new) old = some new

unfoldable pub updated : ℕ → Updates → AlertConfigEntity → AlertConfigEntity
unfolding default or_null kept_filters
updated now u a = record a {
  name = default u.name a.name;
  collection_id = or_null u.collection_id a.collection_id;
  activity_types = default u.activity_types a.activity_types;
  min_price_drops = or_null u.min_price_drops a.min_price_drops;
  max_price_drops = or_null u.max_price_drops a.max_price_drops;
  trait_filters = kept_filters u.trait_filters a.trait_filters;
  notification_channels = default u.notification_channels a.notification_channels;
  is_active = default u.is_active a.is_active;
  updated_at = now;
}

unfoldable pub update : ℕ → String → Updates → Table → Option AlertConfigEntity × Table
unfolding updated
update now id u m = elim (Map.get id m) [
  | none ↦ (none, m)
  | some a ↦ (some (updated now u a), Map.set id (updated now u a) m)
]

unfoldable pub delete : String → Table → Bool × Table
delete id m = (Map.has id m, Map.delete id m)

pub record AlertCounts : Type 0 where
  pub total_alerts : ℕ
  pub active_alerts : ℕ
  pub inactive_alerts : ℕ

abbrev pub owned : String → List AlertConfigEntity → List AlertConfigEntity
owned user list = filter (λ a. str_eq a.user_id user) list

unfoldable pub count_by_user_id : String → Table → ℕ
count_by_user_id user m = length (owned user (alerts m))

unfoldable pub get_alert_stats : String → Table → AlertCounts
get_alert_stats user m =
    let total = length (owned user (alerts m)) in
    let active = length (filter (λ a. a.is_active) (owned user (alerts m))) in
    record { total_alerts = total; active_alerts = active; inactive_alerts = total - active }

-- the condition on the collection: `collectionId IS NULL OR collectionId = :collectionId`
unfoldable pub in_collection : Option String → Option String → Bool
in_collection wanted none = true
in_collection none (some c) = false
in_collection (some w) (some c) = str_eq c w

unfoldable pub is_candidate : String → Option String → AlertConfigEntity → Bool
unfolding in_collection truthy
is_candidate activity_type collection a =
    a.is_active
    && (any (λ t. str_eq activity_type t) a.activity_types
        && in_collection (truthy collection) a.collection_id)

unfoldable pub find_alerts_matching_activity :
    String → Option String → Table → List AlertConfigEntity
unfolding is_candidate
find_alerts_matching_activity activity_type collection m =
    filter (is_candidate activity_type collection) (alerts m)

unfoldable pub exists : String → Option String → Table → Bool
unfolding truthy
exists id user m = elim (Map.get id m) [
  | none ↦ false
  | some a ↦ elim (truthy user) [ none ↦ true | some u ↦ str_eq a.user_id u ]
]
