-- ===== src/Alert/Matching.antt =====
-- src/features/alerts/services/alert-matching.service.ts. Prices are texts of digits. The
-- conversions of the runtime are a parameter.
pub mod Criteria
pub mod Selection
mod Tests
use Prim.Native.String.{◌++◌ as str_append}
use v2_xrpl_tools.Prelude.{
  ℕ, Bool, true, false, not, ◌&&◌, ◌||◌, Option, none, some, List, [], ◌∷◌, ◌++◌, String, str_eq,
  ltb, any, is_some, if◌then◌else◌,
}
use v2_xrpl_tools.Prelude.Decimal.{big_int}
use v2_xrpl_tools.Notification.Data.{truthy}
use v2_xrpl_tools.Prelude.Outcome.{Outcome, done, raised}
use v2_xrpl_tools.Alert.Data.{
  TraitFilter, AlertConfigEntity, AlertMatchResult, ActivityNft, NftActivity,
}
use v2_xrpl_tools.Prelude.Json.{
  Json, null, boolean, number, text, array, object, Elements, end, element, Fields, closed, field,
}
use v2_xrpl_tools.Alert.Repository.{Table, find_alerts_matching_activity}
use v2_xrpl_tools.Prelude.Json.{is_truthy}
use v2_xrpl_tools.Alert.Traits.{Runtime, FilterResult, evaluate_trait_filters}
use v2_xrpl_tools.Prelude.Words.{words}

-- `BigInt` throws on what is no number.
unfoldable pub price_of : String → Outcome ℕ
price_of s = elim (big_int s) [
  | none ↦ raised (words ("Cannot convert " ∷ s ∷ " to a BigInt" ∷ []))
  | some n ↦ done n
]

abbrev pub text_or_empty : Option String → String
text_or_empty none = ""
text_or_empty (some s) = s

-- `activity.nft?.collectionId`
abbrev pub nft_collection : NftActivity → Option String
nft_collection activity = elim activity.nft [ none ↦ none | some n ↦ n.collection_id ]

abbrev pub collection_of : NftActivity → Option String
collection_of activity = truthy (nft_collection activity)

-- `traitFilters`, none being the same as an empty array
abbrev pub filters_of : AlertConfigEntity → List TraitFilter
filters_of a = elim a.trait_filters [ none ↦ [] | some fs ↦ fs ]

abbrev pub truthy_traits : Option Json → Option Json
truthy_traits none = none
truthy_traits (some v) = if is_truthy v then some v else none

-- `activity.nft?.traits`
abbrev pub traits_of : NftActivity → Option Json
traits_of activity = elim activity.nft [ none ↦ none | some n ↦ truthy_traits n.traits ]

unfoldable pub has_price_filters : AlertConfigEntity → Bool
has_price_filters a = is_some (truthy a.min_price_drops) || is_some (truthy a.max_price_drops)

unfoldable pub rejected : AlertConfigEntity → String → Outcome AlertMatchResult
rejected a reason = done (record { alert_config_id = a.id; matched = false; reasons = reason ∷ [] })

module _ (runtime : Runtime) where
  -- the trait filters, and the result where they are met
  unfoldable pub match_traits :
      AlertConfigEntity → NftActivity → List String → Outcome AlertMatchResult
  unfolding rejected evaluate_trait_filters
  match_traits a activity reasons = elim (filters_of a) [
    | [] ↦ done (record { alert_config_id = a.id; matched = true; reasons = reasons })
    | (f ∷ fs) ↦ elim (traits_of activity) [
      | none ↦ rejected a "Alert has trait filters but NFT has no trait information"
      | some traits ↦ elim (evaluate_trait_filters runtime (f ∷ fs) [] traits) [
        | raised e ↦ raised e
        | done r ↦
            if not r.matched
            then done (record { alert_config_id = a.id; matched = false; reasons = r.reasons })
            else done
                (record { alert_config_id = a.id; matched = true; reasons = reasons ++ r.reasons })
      ]
    ]
  ]

  -- `if (alert.maxPriceDrops)`, where the activity has a price
  unfoldable pub match_max :
      AlertConfigEntity → NftActivity → String → ℕ → List String → Outcome AlertMatchResult
  unfolding match_traits price_of
  match_max a activity drops price reasons = elim (truthy a.max_price_drops) [
    | none ↦ match_traits a activity reasons
    | some top ↦ elim (price_of top) [
      | raised e ↦ raised e
      | done n ↦
          if ltb n price
          then rejected a (words ("Price " ∷ drops ∷ " is above maximum " ∷ top ∷ []))
          else match_traits a activity
              (reasons ++ words ("Price is below maximum: " ∷ drops ∷ " <= " ∷ top ∷ []) ∷ [])
    ]
  ]

  unfoldable pub match_min :
      AlertConfigEntity → NftActivity → String → ℕ → List String → Outcome AlertMatchResult
  unfolding match_max price_of
  match_min a activity drops price reasons = elim (truthy a.min_price_drops) [
    | none ↦ match_max a activity drops price reasons
    | some low ↦ elim (price_of low) [
      | raised e ↦ raised e
      | done n ↦
          if ltb price n
          then rejected a (words ("Price " ∷ drops ∷ " is below minimum " ∷ low ∷ []))
          else match_max a activity drops price
              (reasons ++ words ("Price is above minimum: " ∷ drops ∷ " >= " ∷ low ∷ []) ∷ [])
    ]
  ]

  unfoldable pub match_price :
      AlertConfigEntity → NftActivity → List String → Outcome AlertMatchResult
  unfolding match_min price_of has_price_filters
  match_price a activity reasons =
      if not (has_price_filters a)
      then match_traits a activity reasons
      else elim (truthy activity.price_drops) [
        | none ↦ rejected a "Alert has price filters but activity has no price information"
        | some drops ↦ elim (price_of drops) [
          | raised e ↦ raised e
          | done price ↦ match_min a activity drops price reasons
        ]
      ]

  unfoldable pub match_collection :
      AlertConfigEntity → NftActivity → List String → Outcome AlertMatchResult
  unfolding match_price
  match_collection a activity reasons = elim (truthy a.collection_id) [
    | none ↦ match_price a activity (reasons ++ "Alert applies to all collections" ∷ [])
    | some c ↦
        if is_some (collection_of activity) && str_eq c (text_or_empty (collection_of activity))
        then match_price a activity (reasons ++ words ("Collection matches: " ∷ c ∷ []) ∷ [])
        else rejected a "Collection does not match"
  ]

  unfoldable pub evaluate_alert_match : AlertConfigEntity → NftActivity → Outcome AlertMatchResult
  unfolding match_collection rejected
  evaluate_alert_match a activity =
      if not a.is_active
      then rejected a "Alert is not active"
      else if not (any (λ t. str_eq t activity.activity_type) a.activity_types)
      then rejected a "Activity type does not match"
      else match_collection a activity
          (words ("Activity type matches: " ∷ activity.activity_type ∷ []) ∷ [])

  unfoldable pub evaluate_all :
      List AlertConfigEntity → NftActivity → Outcome (List AlertMatchResult)
  unfolding evaluate_alert_match
  evaluate_all [] activity = done []
  evaluate_all (a ∷ rest) activity =
      let later = evaluate_all rest activity in
      elim (evaluate_alert_match a activity) [
        | raised e ↦ raised e
        | done r ↦ elim later [ raised e ↦ raised e | done rs ↦ done (r ∷ rs) ]
      ]

  -- An exception is logged, and no alert matches.
  unfoldable pub find_matching_alerts : Table → NftActivity → List AlertMatchResult
  unfolding evaluate_all
  find_matching_alerts m activity =
      elim (evaluate_all
        (find_alerts_matching_activity activity.activity_type (nft_collection activity) m)
        activity) [ raised e ↦ [] | done rs ↦ rs ]
