-- ===== src/Alert/Config/Tests.antt =====
-- The alert service on one user's alert.
use v2_xrpl_tools.Prelude.{
  ◌≡◌, refl, ℕ, true, false, Option, map, filter, length, none, some, [], ◌∷◌, String,
}
use v2_xrpl_tools.Notification.Data.{NotificationChannel}
use v2_xrpl_tools.Alert.Data.{AlertConfigEntity, NftActivity}
use v2_xrpl_tools.Alert.Repository.{Table, CreateData}
use v2_xrpl_tools.Alert.Traits.{Runtime}
use v2_xrpl_tools.Alert.Config.{create}
use v2_xrpl_tools.Alert.Config.Listing.{ListOptions, find_by_user_id}
use v2_xrpl_tools.Alert.Config.Paging.{IsNewestFirst, all_pages, selected, all_pages-IsNewestFirst}
use v2_xrpl_tools.Alert.Config.Bounds.{Created, create-IsRange}

abbrev webhook : NotificationChannel
webhook = record { type = "webhook"; enabled = true; config = ("webhookUrl", "http://x") ∷ [] }

abbrev alert : Option String → AlertConfigEntity
alert top = record {
  id = "a";
  user_id = "u";
  name = "sales";
  collection_id = none;
  activity_types = "sale" ∷ [];
  min_price_drops = some "500";
  max_price_drops = top;
  trait_filters = none;
  notification_channels = webhook ∷ [];
  is_active = true;
  created_at = 1;
  updated_at = 1;
}

abbrev table : Table
table = ("a", alert (some "900")) ∷ []

abbrev wanted : CreateData
wanted = record {
  user_id = "u";
  name = "sales";
  collection_id = none;
  activity_types = "sale" ∷ [];
  min_price_drops = some "500";
  max_price_drops = some "900";
  trait_filters = none;
  notification_channels = webhook ∷ [];
}

create-IsRange_example : Created wanted [] (create "a" 1 wanted [])
create-IsRange_example = create-IsRange "a" 1 wanted []

abbrev plain : Runtime
plain = record {
  number_of = λ s. none;
  less = λ s t. false;
  lower = λ s. s;
  shown = λ v. "";
  includes = λ s t. false;
}

abbrev sale : NftActivity
sale = record { id = "s"; activity_type = "sale"; price_drops = some "600"; nft = none }

abbrev made : String → ℕ → String × AlertConfigEntity
made id t = (id, record (alert none) { id = id; created_at = t })

-- three alerts on two pages, and one of another user
abbrev listed : Table
listed =
    made "a" 1
    ∷ made "b" 3
    ∷ ("c", record (alert none) { id = "c"; user_id = "v" })
    ∷ made "d" 2
    ∷ []

abbrev two_each : ListOptions
two_each = record { is_active = none; collection_id = none; page = none; limit = some 2 }

second_page :
    map (λ a. a.id) (find_by_user_id "u" (record two_each { page = some 2 }) listed).alerts
    ≡ "a" ∷ []
unfolding find_by_user_id
second_page = refl

all_pages-IsNewestFirst_example :
    IsNewestFirst (all_pages "u" two_each listed)
    × (length (filter (λ a. a.is_active) (all_pages "u" two_each listed))
        ≡ length (filter (λ a. a.is_active) (selected "u" two_each listed)))
all_pages-IsNewestFirst_example = all_pages-IsNewestFirst "u" two_each listed (λ a. a.is_active)
