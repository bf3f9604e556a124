-- ===== src/Alert/Dispatch/Tests.antt =====
-- A sale on a table of two alerts.
use v2_xrpl_tools.Prelude.Map
use v2_xrpl_tools.Alert.Repository.{find_alerts_matching_activity}
use v2_xrpl_tools.Prelude.{◌≡◌, refl, true, false, none, [], ◌∷◌, String, All, map}
use v2_xrpl_tools.Notification.Data.{NotificationChannel}
use v2_xrpl_tools.Alert.Data.{AlertConfigEntity}
use v2_xrpl_tools.Alert.Repository.{Table, find_by_id}
use v2_xrpl_tools.Alert.Traits.{Runtime}
use v2_xrpl_tools.Alert.Dispatch.{ActivityEntity, requests}
use v2_xrpl_tools.Alert.Dispatch.Recipients.{IsOwed, requests-IsOwed}

abbrev plain : Runtime
plain = record {
  number_of = λ s. none;
  less = λ s t. false;
  lower = λ s. s;
  shown = λ v. "";
  includes = λ s t. false;
}

abbrev discord : NotificationChannel
discord = record { type = "discord"; enabled = true; config = [] }

abbrev alert : String → String → String → AlertConfigEntity
alert id user type = record {
  id = id;
  user_id = user;
  name = "any";
  collection_id = none;
  activity_types = type ∷ [];
  min_price_drops = none;
  max_price_drops = none;
  trait_filters = none;
  notification_channels = discord ∷ [];
  is_active = true;
  created_at = 1;
  updated_at = 1;
}

abbrev table : Table
table = ("a", alert "a" "ann" "sale") ∷ ("b", alert "b" "bob" "mint") ∷ []

abbrev sale : ActivityEntity
sale = record { id = "s"; activity_type = "sale"; price_drops = none; nft = none }

only_ann : map (λ q. q.user_id) (requests plain table sale) ≡ "ann" ∷ []
unfolding requests find_alerts_matching_activity Map.get
only_ann = refl

requests-IsOwed_example : All (IsOwed plain table sale) (requests plain table sale)
unfolding find_by_id Map.get
requests-IsOwed_example = requests-IsOwed plain table sale (refl, (refl, tt))
