-- ===== src/Alert/Matching/Tests.antt =====
-- The matching service on a table of two alerts.
use v2_xrpl_tools.Prelude.{
  ◌≡◌, refl, true, false, Option, none, some, List, [], ◌∷◌, String, map, filter,
}
use v2_xrpl_tools.Prelude.Decimal.{big_int}
use v2_xrpl_tools.Notification.Data.{truthy}
use v2_xrpl_tools.Prelude.Outcome.{done, raised}
use v2_xrpl_tools.Alert.Data.{TraitFilter, AlertConfigEntity, NftActivity, AlertMatchResult}
use v2_xrpl_tools.Prelude.Json.{text, array, end, element, object, closed, field}
use v2_xrpl_tools.Alert.Repository.{Table, alerts, find_alerts_matching_activity}
use v2_xrpl_tools.Alert.Matching.{
  nft_collection, price_of, evaluate_alert_match, evaluate_all, find_matching_alerts,
}
use v2_xrpl_tools.Alert.Traits.{Runtime}
use v2_xrpl_tools.Alert.Matching.Criteria.{accepts, is_matched, evaluate_alert_match-accepts}
use v2_xrpl_tools.Alert.Matching.Selection.{find_matching_alerts_complete}

abbrev plain : Runtime
plain = record {
  number_of = λ s. none;
  less = λ s t. false;
  lower = λ s. s;
  shown = λ v. "";
  includes = λ s t. false;
}

abbrev alert : String → Option String → Option (List TraitFilter) → AlertConfigEntity
alert id low filters = record {
  id = id;
  user_id = "u";
  name = "sales";
  collection_id = none;
  activity_types = "sale" ∷ [];
  min_price_drops = low;
  max_price_drops = none;
  trait_filters = filters;
  notification_channels = [];
  is_active = true;
  created_at = 1;
  updated_at = 1;
}

abbrev gold : Option (List TraitFilter)
gold = some (record { trait_type = "Metal"; value = text "gold"; operator = "equals" } ∷ [])

abbrev sale : NftActivity
sale = record {
  id = "s";
  activity_type = "sale";
  price_drops = some "600";
  nft = some (record {
    collection_id = none;
    traits = some (
        array (
          element (object (field "trait_type" (text "Metal") (field "value" (text "gold") closed)))
            end));
  });
}

abbrev table : Table
table = ("a", alert "a" (some "500") gold) ∷ ("b", alert "b" (some "700") none) ∷ []

abbrev broken : Table
broken = ("a", alert "a" none none) ∷ ("b", alert "b" (some "0.5") none) ∷ []

evaluate_alert_match-accepts_example :
    is_matched (evaluate_alert_match plain (alert "a" (some "500") gold) sale)
    ≡ accepts plain (alert "a" (some "500") gold) sale
evaluate_alert_match-accepts_example =
    evaluate_alert_match-accepts plain (alert "a" (some "500") gold) sale

gold-sale_found : is_matched (evaluate_alert_match plain (alert "a" (some "500") gold) sale) ≡ true
unfolding evaluate_alert_match truthy price_of big_int
gold-sale_found = refl

broken_selected :
    find_alerts_matching_activity sale.activity_type (nft_collection sale) broken ≡ alerts broken
unfolding find_alerts_matching_activity truthy
broken_selected = refl

broken_raised :
    evaluate_alert_match plain (alert "b" (some "0.5") none) sale
    ≡ raised "Cannot convert 0.5 to a BigInt"
unfolding evaluate_alert_match truthy price_of big_int
broken_raised = refl

abbrev results : List AlertMatchResult
results =
    record {
      alert_config_id = "a";
      matched = true;
      reasons =
          "Activity type matches: sale" ∷ "Alert applies to all collections"
          ∷ "Price is above minimum: 600 >= 500" ∷ "Trait Metal equals gold" ∷ [];
    }
    ∷ record {
      alert_config_id = "b";
      matched = false;
      reasons = "Price 600 is below minimum 700" ∷ [];
    }
    ∷ []

table_evaluated :
    evaluate_all plain
      (find_alerts_matching_activity sale.activity_type (nft_collection sale) table)
      sale
    ≡ done results
unfolding find_alerts_matching_activity evaluate_all truthy price_of big_int
table_evaluated = refl

find_matching_alerts_complete_example :
    let selected = find_alerts_matching_activity sale.activity_type (nft_collection sale) table in
    (map (λ r. r.matched) (find_matching_alerts plain table sale)
      ≡ map (λ a. accepts plain a sale) selected)
    × (filter (λ a. accepts plain a sale) selected
        ≡ filter (λ a. accepts plain a sale) (alerts table))
find_matching_alerts_complete_example =
    find_matching_alerts_complete plain table sale results (unfold truthy in (refl, (refl, tt)))
      table_evaluated
