-- ===== src/Alert/Matching/Criteria.antt =====
-- When an alert matches an activity, said by its criteria alone.
use v2_xrpl_tools.Prelude.{
  ℕ, ◌≡◌, refl, sym, ap, ◌∙◌, inl, inr, Bool, true, false, not, ◌&&◌, ◌||◌, Option, none, some,
  List, [], ◌∷◌, String, str_eq, ltb, leb, any, if◌then◌else◌, arith, Bool-cases, Option-cases,
}
use v2_xrpl_tools.Prelude.Decimal.{big_int}
use v2_xrpl_tools.Notification.Data.{truthy}
use v2_xrpl_tools.Prelude.Outcome.{Outcome, done, raised}
use v2_xrpl_tools.Alert.Data.{TraitFilter, AlertConfigEntity, AlertMatchResult, NftActivity}
use v2_xrpl_tools.Prelude.Json.{Json}
use v2_xrpl_tools.Alert.Matching.{
  price_of, rejected, filters_of, traits_of, collection_of, match_traits, match_max, match_min,
  has_price_filters, match_price, match_collection, evaluate_alert_match,
}
use v2_xrpl_tools.Alert.Traits.{
  Runtime, find_trait_value, is_missing, value_or_null, FilterResult, no_match,
  evaluate_trait_filter, evaluate_trait_filters,
}
use v2_xrpl_tools.Prelude.Words.{words}

abbrev pub is_matched : Outcome AlertMatchResult → Bool
is_matched (raised e) = false
is_matched (done r) = r.matched

abbrev pub meets : (ℕ → Bool) → Option String → Bool
meets test none = true
meets test (some bound) = elim (big_int bound) [ none ↦ false | some n ↦ test n ]

abbrev pub price_accepted : AlertConfigEntity → Option String → Bool
price_accepted a none = false
price_accepted a (some drops) = elim (big_int drops) [
  | none ↦ false
  | some p ↦
      meets (λ n. leb n p) (truthy a.min_price_drops)
      && meets (λ n. leb p n) (truthy a.max_price_drops)
]

abbrev pub collection_accepted : Option String → Option String → Bool
collection_accepted none of_nft = true
collection_accepted (some c) none = false
collection_accepted (some c) (some d) = str_eq c d

and_assoc : (a b c : Bool) → ((a && b) && c) ≡ (a && (b && c))
and_assoc true b c = refl
and_assoc false b c = refl

module _ (runtime : Runtime) where
  -- the trait is there, and passes the filter
  abbrev pub trait_accepted : Json → TraitFilter → Bool
  trait_accepted traits f = elim (find_trait_value traits f.trait_type) [
    | raised e ↦ false
    | done found ↦
        not (is_missing found) && (evaluate_trait_filter runtime f (value_or_null found)).matched
  ]

  abbrev pub all_accepted : List TraitFilter → Json → Bool
  all_accepted [] traits = true
  all_accepted (f ∷ fs) traits = trait_accepted traits f && all_accepted fs traits

  abbrev pub traits_accepted : List TraitFilter → Option Json → Bool
  traits_accepted [] traits = true
  traits_accepted (f ∷ fs) none = false
  traits_accepted (f ∷ fs) (some traits) = all_accepted (f ∷ fs) traits

  unfoldable pub accepts : AlertConfigEntity → NftActivity → Bool
  unfolding has_price_filters
  accepts a activity =
      a.is_active
      && (any (λ t. str_eq t activity.activity_type) a.activity_types
          && (collection_accepted (truthy a.collection_id) (collection_of activity)
              && ((not (has_price_filters a) || price_accepted a (truthy activity.price_drops))
                  && traits_accepted (filters_of a) (traits_of activity))))

  abbrev filters_passed : Outcome FilterResult → Bool
  filters_passed (raised e) = false
  filters_passed (done r) = r.matched

  evaluate_trait_filters_lem :
      (fs : List TraitFilter) (rs : List String) (traits : Json)
      → filters_passed (evaluate_trait_filters runtime fs rs traits) ≡ all_accepted fs traits
  unfolding evaluate_trait_filters no_match
  evaluate_trait_filters_lem [] rs traits = refl
  evaluate_trait_filters_lem (f ∷ fs) rs traits =
      go (find_trait_value traits f.trait_type) refl
        (λ rs'. evaluate_trait_filters_lem fs rs' traits)
    where
      go :
          (o : Outcome (Option Json))
          → find_trait_value traits f.trait_type ≡ o
          → ((rs' : List String)
              → filters_passed (evaluate_trait_filters runtime fs rs' traits)
                ≡ all_accepted fs traits)
          → filters_passed (evaluate_trait_filters runtime (f ∷ fs) rs traits)
            ≡ all_accepted (f ∷ fs) traits
      go (raised m) e h = rw (evaluate_trait_filters, all_accepted, trait_accepted, e) refl
      go (done found) e h = elim (Bool-cases (is_missing found)) [
        | inl m ↦ rw (evaluate_trait_filters, all_accepted, trait_accepted, e, m) refl
        | inr m ↦
            elim (Bool-cases (evaluate_trait_filter runtime f (value_or_null found)).matched) [
              | inl k ↦ rw (evaluate_trait_filters, all_accepted, trait_accepted, e, m, k) (h _)
              | inr k ↦ rw (evaluate_trait_filters, all_accepted, trait_accepted, e, m, k) refl
            ]
      ]

  match_traits_lem :
      (a : AlertConfigEntity) (activity : NftActivity) (rs : List String)
      → is_matched (match_traits runtime a activity rs)
        ≡ traits_accepted (filters_of a) (traits_of activity)
  unfolding match_traits rejected
  match_traits_lem a activity rs = go (filters_of a) (traits_of activity) refl refl
    where
      go :
          (fs : List TraitFilter) (traits : Option Json)
          → filters_of a ≡ fs
          → traits_of activity ≡ traits
          → is_matched (match_traits runtime a activity rs) ≡ traits_accepted fs traits
      go [] traits e k = rw (match_traits, e) refl
      go (f ∷ fs) none e k = rw (match_traits, e, k) refl
      go (f ∷ fs) (some traits) e k =
          concluded (evaluate_trait_filters runtime (f ∷ fs) [] traits) refl
            (evaluate_trait_filters_lem (f ∷ fs) [] traits)
        where
          concluded :
              (o : Outcome FilterResult)
              → evaluate_trait_filters runtime (f ∷ fs) [] traits ≡ o
              → filters_passed o ≡ all_accepted (f ∷ fs) traits
              → is_matched (match_traits runtime a activity rs) ≡ all_accepted (f ∷ fs) traits
          concluded (raised m) q h = rw (match_traits, e, k, q) h
          concluded (done r) q h = elim (Bool-cases r.matched) [
            | inl b ↦ rw (match_traits, e, k, q, b) (sym b ∙ h)
            | inr b ↦ rw (match_traits, e, k, q, b) (sym b ∙ h)
          ]

  match_max_lem :
      (a : AlertConfigEntity) (activity : NftActivity) (drops : String) (p : ℕ) (rs : List String)
      → is_matched (match_max runtime a activity drops p rs) ≡ (
          meets (λ n. leb p n) (truthy a.max_price_drops)
          && traits_accepted (filters_of a) (traits_of activity))
  unfolding match_max price_of rejected
  match_max_lem a activity drops p rs = go (truthy a.max_price_drops) refl
    where
      go :
          (o : Option String)
          → truthy a.max_price_drops ≡ o
          → is_matched (match_max runtime a activity drops p rs)
            ≡ (meets (λ n. leb p n) o && traits_accepted (filters_of a) (traits_of activity))
      go none e = rw (match_max, e) (match_traits_lem a activity rs)
      go (some b) e = elim (Option-cases (big_int b)) [
        | inl k ↦ rw (match_max, e, price_of, meets, k) refl
        | inr (n, k) ↦ elim (Bool-cases (ltb n p)) [
          | inl m ↦
              let c : leb p n ≡ false = ground arith in
              rw (match_max, e, price_of, meets, k, m, c) refl
          | inr m ↦
              let c : leb p n ≡ true = ground arith in
              rw (match_max, e, price_of, meets, k, m, c) (match_traits_lem a activity _)
        ]
      ]

  match_min_lem :
      (a : AlertConfigEntity) (activity : NftActivity) (drops : String) (p : ℕ) (rs : List String)
      → is_matched (match_min runtime a activity drops p rs) ≡ (
          meets (λ n. leb n p) (truthy a.min_price_drops)
          && (meets (λ n. leb p n) (truthy a.max_price_drops)
              && traits_accepted (filters_of a) (traits_of activity)))
  unfolding match_min price_of rejected
  match_min_lem a activity drops p rs = go (truthy a.min_price_drops) refl
    where
      go :
          (o : Option String)
          → truthy a.min_price_drops ≡ o
          → is_matched (match_min runtime a activity drops p rs) ≡ (
              meets (λ n. leb n p) o
              && (meets (λ n. leb p n) (truthy a.max_price_drops)
                  && traits_accepted (filters_of a) (traits_of activity)))
      go none e = rw (match_min, e) (match_max_lem a activity drops p rs)
      go (some b) e = elim (Option-cases (big_int b)) [
        | inl k ↦ rw (match_min, e, price_of, meets, k) refl
        | inr (n, k) ↦ elim (Bool-cases (ltb p n)) [
          | inl m ↦
              let c : leb n p ≡ false = ground arith in
              rw (match_min, e, price_of, meets, k, m, c) refl
          | inr m ↦
              let c : leb n p ≡ true = ground arith in
              rw (match_min, e, price_of, meets, k, m, c) (match_max_lem a activity drops p _)
        ]
      ]

  match_price_lem :
      (a : AlertConfigEntity) (activity : NftActivity) (rs : List String)
      → is_matched (match_price runtime a activity rs) ≡ (
          (not (has_price_filters a) || price_accepted a (truthy activity.price_drops))
          && traits_accepted (filters_of a) (traits_of activity))
  unfolding match_price price_of rejected
  match_price_lem a activity rs = go (truthy activity.price_drops) refl
    where
      go :
          (o : Option String)
          → truthy activity.price_drops ≡ o
          → is_matched (match_price runtime a activity rs) ≡ (
              (not (has_price_filters a) || price_accepted a o)
              && traits_accepted (filters_of a) (traits_of activity))
      go o e = elim (Bool-cases (has_price_filters a)) [
        | inr h ↦ rw (match_price, h) (match_traits_lem a activity rs)
        | inl h ↦ priced o e h
      ]
        where
          priced :
              (o : Option String)
              → truthy activity.price_drops ≡ o
              → has_price_filters a ≡ true
              → is_matched (match_price runtime a activity rs) ≡ (
                  (not (has_price_filters a) || price_accepted a o)
                  && traits_accepted (filters_of a) (traits_of activity))
          priced none e h = rw (match_price, h, e) refl
          priced (some d) e h = elim (Option-cases (big_int d)) [
            | inl k ↦ rw (match_price, h, e, price_of, price_accepted, k) refl
            | inr (p, k) ↦
                rw (match_price, h, e, price_of, price_accepted, k)
                  (match_min_lem a activity d p rs
                    ∙ sym (
                        and_assoc (meets (λ n. leb n p) (truthy a.min_price_drops))
                          (meets (λ n. leb p n) (truthy a.max_price_drops))
                          (traits_accepted (filters_of a) (traits_of activity))))
          ]

  match_collection_lem :
      (a : AlertConfigEntity) (activity : NftActivity) (rs : List String)
      → is_matched (match_collection runtime a activity rs) ≡ (
          collection_accepted (truthy a.collection_id) (collection_of activity)
          && ((not (has_price_filters a) || price_accepted a (truthy activity.price_drops))
              && traits_accepted (filters_of a) (traits_of activity)))
  unfolding match_collection rejected
  match_collection_lem a activity rs =
      go (truthy a.collection_id) (collection_of activity) refl refl
    where
      go :
          (c d : Option String)
          → truthy a.collection_id ≡ c
          → collection_of activity ≡ d
          → is_matched (match_collection runtime a activity rs) ≡ (
              collection_accepted c d
              && ((not (has_price_filters a) || price_accepted a (truthy activity.price_drops))
                  && traits_accepted (filters_of a) (traits_of activity)))
      go none d e k = rw (match_collection, e) (match_price_lem a activity _)
      go (some c) none e k = rw (match_collection, e, k) refl
      go (some c) (some d) e k = elim (Bool-cases (str_eq c d)) [
        | inl b ↦ rw (match_collection, e, k, b) (match_price_lem a activity _)
        | inr b ↦ rw (match_collection, e, k, b) refl
      ]

  -- The evaluation of an alert matches an activity exactly where the alert is active, names the
  -- activity's type, is for its collection or for all, has no price bounds or is met by the price,
  -- and has no trait filters or is met by the traits; an exception counts as no match.
  pub evaluate_alert_match-accepts :
      (a : AlertConfigEntity) (activity : NftActivity)
      → is_matched (evaluate_alert_match runtime a activity) ≡ accepts a activity
  unfolding evaluate_alert_match rejected accepts
  evaluate_alert_match-accepts a activity =
      let named = any (λ t. str_eq t activity.activity_type) a.activity_types in
      let reasons : List String =
        words ("Activity type matches: " ∷ activity.activity_type ∷ []) ∷ [] in
      guarded a.is_active named (match_collection runtime a activity reasons)
      ∙ ap (λ x. a.is_active && (named && x)) (match_collection_lem a activity reasons)
    where
      guarded :
          (b c : Bool) (m : Outcome AlertMatchResult)
          → is_matched (
              if not b
              then rejected a "Alert is not active"
              else if not c
              then rejected a "Activity type does not match"
              else m)
            ≡ (b && (c && is_matched m))
      guarded false c m = refl
      guarded true false m = refl
      guarded true true m = refl
