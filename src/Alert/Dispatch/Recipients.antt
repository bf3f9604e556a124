-- ===== src/Alert/Dispatch/Recipients.antt =====
-- Who is notified of an activity.
use v2_xrpl_tools.Prelude.{
  ℕ, ◌⊎◌, ◌≡◌, refl, sym, ap, ◌∙◌, Bool, true, ◌&&◌, none, some, List, [], ◌∷◌, ◌++◌, filter,
  String, str_eq, All, arith, subst, Bool-cases, Option-cases, inl, inr, any, is_some,
}
use v2_xrpl_tools.Prelude.Outcome.{done, outcome_cases}
use v2_xrpl_tools.Prelude.Words.{words}
use v2_xrpl_tools.Notification.Data.{truthy}
use v2_xrpl_tools.Alert.Data.{AlertConfigEntity, AlertMatchResult, NftActivity}
use v2_xrpl_tools.Alert.Repository.{
  Table, alerts, find_by_id, find_alerts_matching_activity, is_candidate,
}
use v2_xrpl_tools.Alert.Traits.{Runtime}
use v2_xrpl_tools.Alert.Matching.{
  match_traits, match_max, match_min, match_price, match_collection, evaluate_alert_match,
  evaluate_all, find_matching_alerts, nft_collection, rejected, collection_of, text_or_empty,
}
use v2_xrpl_tools.Alert.Matching.Criteria.{accepts, is_matched, evaluate_alert_match-accepts}
use v2_xrpl_tools.Alert.Dispatch.{
  ActivityEntity, Request, convert_to_nft_activity, request_for, requests_for, requests,
}

All-filter {ℓ κ} :
    {A : Type ℓ} (P : A → Type κ) (t : A → Bool) (l : List A) → All P l → All P (filter t l)
All-filter P t [] h = h
All-filter P t (x ∷ l) (p, h) = elim (Bool-cases (t x)) [
  | inl e ↦ rw e (p, All-filter P t l h)
  | inr e ↦ rw e (All-filter P t l h)
]

list_cases {ℓ} : {A : Type ℓ} (l : List A) → (l ≡ []) ⊎ ((x : A) × (xs : List A) × (l ≡ x ∷ xs))
list_cases [] = inl refl
list_cases (x ∷ xs) = inr (x, xs, refl)

module _ (runtime : Runtime) where
  match_traits-id :
      (a : AlertConfigEntity) (activity : NftActivity) (reasons : List String)
      (r : AlertMatchResult)
      → match_traits runtime a activity reasons ≡ done r
      → r.alert_config_id ≡ a.id
  unfolding match_traits rejected
  match_traits-id a activity reasons r h = grind arith

  match_max-id :
      (a : AlertConfigEntity) (activity : NftActivity) (drops : String) (price : ℕ)
      (reasons : List String) (r : AlertMatchResult)
      → match_max runtime a activity drops price reasons ≡ done r
      → r.alert_config_id ≡ a.id
  unfolding match_max rejected
  match_max-id a activity drops price reasons r h = grind (arith, match_traits-id a activity)

  match_min-id :
      (a : AlertConfigEntity) (activity : NftActivity) (drops : String) (price : ℕ)
      (reasons : List String) (r : AlertMatchResult)
      → match_min runtime a activity drops price reasons ≡ done r
      → r.alert_config_id ≡ a.id
  unfolding match_min rejected
  match_min-id a activity drops price reasons r h = grind (arith, match_max-id a activity)

  match_price-id :
      (a : AlertConfigEntity) (activity : NftActivity) (reasons : List String)
      (r : AlertMatchResult)
      → match_price runtime a activity reasons ≡ done r
      → r.alert_config_id ≡ a.id
  unfolding match_price rejected
  match_price-id a activity reasons r h =
      grind (arith, match_min-id a activity, match_traits-id a activity)

  match_collection-id :
      (a : AlertConfigEntity) (activity : NftActivity) (reasons : List String)
      (r : AlertMatchResult)
      → match_collection runtime a activity reasons ≡ done r
      → r.alert_config_id ≡ a.id
  unfolding match_collection rejected
  match_collection-id a activity reasons r h = elim (Option-cases (truthy a.collection_id)) [
    | inl e ↦
        match_price-id a activity (reasons ++ "Alert applies to all collections" ∷ []) r
          (sym (rw (match_collection, e) refl) ∙ h)
    | inr (c, e) ↦
        elim (Bool-cases
          (is_some (collection_of activity) && str_eq c (text_or_empty (collection_of activity)))) [
            | inl b ↦
                match_price-id a activity (reasons ++ words ("Collection matches: " ∷ c ∷ []) ∷ [])
                  r (sym (rw (match_collection, e, b) refl) ∙ h)
            | inr b ↦
                let k : rejected a "Collection does not match" ≡ done r =
                  sym (rw (match_collection, e, b) refl) ∙ h in
                grind (arith, k)
          ]
  ]

  evaluate_alert_match-id :
      (a : AlertConfigEntity) (activity : NftActivity) (r : AlertMatchResult)
      → evaluate_alert_match runtime a activity ≡ done r
      → r.alert_config_id ≡ a.id
  unfolding evaluate_alert_match rejected
  evaluate_alert_match-id a activity r h = elim (Bool-cases a.is_active) [
    | inr e ↦
        let k : rejected a "Alert is not active" ≡ done r =
          sym (rw (evaluate_alert_match, e) refl) ∙ h in
        grind (arith, k)
    | inl e ↦ elim (Bool-cases (any (λ t. str_eq t activity.activity_type) a.activity_types)) [
      | inr b ↦
          let k : rejected a "Activity type does not match" ≡ done r =
            sym (rw (evaluate_alert_match, e, b) refl) ∙ h in
          grind (arith, k)
      | inl b ↦
          match_collection-id a activity
            (words ("Activity type matches: " ∷ activity.activity_type ∷ []) ∷ []) r
            (sym (rw (evaluate_alert_match, e, b) refl) ∙ h)
    ]
  ]

  -- what is known of a result: its alert, and whether it matches
  abbrev IsSound : Table → NftActivity → AlertMatchResult → Type 0
  IsSound table activity r =
      (a : AlertConfigEntity) × ((find_by_id r.alert_config_id table ≡ some a)
        × (r.matched ≡ accepts runtime a activity))

  evaluate_all-IsSound :
      (table : Table) (activity : NftActivity) (rest : List AlertConfigEntity)
      (rs : List AlertMatchResult)
      → All (λ a. find_by_id a.id table ≡ some a) rest
      → evaluate_all runtime rest activity ≡ done rs
      → All (IsSound table activity) rs
  unfolding evaluate_all
  evaluate_all-IsSound table activity [] rs k h =
      subst (All (IsSound table activity)) {x = []} {y = rs} (grind arith) tt
  evaluate_all-IsSound table activity (a ∷ rest) rs (g, k) h =
      elim (outcome_cases (evaluate_alert_match runtime a activity)) [
        | inl (m, e) ↦ absurd (grind arith)
        | inr (r, e) ↦ elim (outcome_cases (evaluate_all runtime rest activity)) [
          | inl (m, f) ↦ absurd (grind arith)
          | inr (more, f) ↦
              let found : find_by_id r.alert_config_id table ≡ some a =
                ap (λ i. find_by_id i table) (evaluate_alert_match-id a activity r e) ∙ g in
              let verdict : r.matched ≡ accepts runtime a activity =
                ap is_matched (sym e) ∙ evaluate_alert_match-accepts runtime a activity in
              subst (All (IsSound table activity)) {x = r ∷ more} {y = rs} (grind arith)
                ((a, (found, verdict)), evaluate_all-IsSound table activity rest more k f)
        ]
      ]

  find_matching_alerts-IsSound :
      (table : Table) (activity : NftActivity)
      → All (λ a. find_by_id a.id table ≡ some a) (alerts table)
      → All (IsSound table activity) (find_matching_alerts runtime table activity)
  unfolding find_matching_alerts find_alerts_matching_activity
  find_matching_alerts-IsSound table activity h =
      let selected =
        find_alerts_matching_activity activity.activity_type (nft_collection activity) table in
      elim (outcome_cases (evaluate_all runtime selected activity)) [
        | inl (m, e) ↦ rw (find_matching_alerts, e) tt
        | inr (rs, e) ↦
            rw (find_matching_alerts, e)
              (evaluate_all-IsSound table activity selected rs
                (All-filter (λ a. find_by_id a.id table ≡ some a)
                  (is_candidate activity.activity_type (nft_collection activity)) (alerts table) h)
                e)
      ]

  -- a request to the owner of an alert that the activity meets, over the alert's own channels
  abbrev pub IsOwed : Table → ActivityEntity → Request → Type 0
  IsOwed table activity q =
      (a : AlertConfigEntity) × ((find_by_id q.alert_config_id table ≡ some a)
        × ((accepts runtime a (convert_to_nft_activity activity) ≡ true)
            × ((q.user_id ≡ a.user_id)
                × ((q.channels ≡ a.notification_channels) × (q.activity_id ≡ activity.id)))))

  request_for-IsOwed :
      (table : Table) (activity : ActivityEntity) (r : AlertMatchResult) (q : Request)
      → IsSound table (convert_to_nft_activity activity) r
      → r.matched ≡ true
      → request_for table activity.id r ≡ some q
      → IsOwed table activity q
  unfolding request_for
  request_for-IsOwed table activity r q (a, (f, v)) m h =
      elim (list_cases a.notification_channels) [
        | inl e ↦
            let k : none ≡ some q = sym (rw (request_for, f, e) refl) ∙ h in
            absurd (grind (arith, k))
        | inr (c, cs, e) ↦
            let made : Request = record {
              user_id = a.user_id;
              alert_config_id = r.alert_config_id;
              activity_id = activity.id;
              channels = c ∷ cs;
            } in
            let k : some made ≡ some q = sym (rw (request_for, f, e) refl) ∙ h in
            let same : made ≡ q = grind (arith, k) in
            subst (IsOwed table activity) same (a, (f, (sym v ∙ m, (refl, (sym e, refl)))))
      ]

  requests_for-IsOwed :
      (table : Table) (activity : ActivityEntity) (rs : List AlertMatchResult)
      → All (IsSound table (convert_to_nft_activity activity)) rs
      → All (IsOwed table activity) (requests_for table activity.id (filter (λ r. r.matched) rs))
  unfolding requests_for
  requests_for-IsOwed table activity [] h = tt
  requests_for-IsOwed table activity (r ∷ rs) (p, h) = elim (Bool-cases r.matched) [
    | inr e ↦ rw e (requests_for-IsOwed table activity rs h)
    | inl e ↦ elim (Option-cases (request_for table activity.id r)) [
      | inl f ↦ rw (e, f) (requests_for-IsOwed table activity rs h)
      | inr (q, f) ↦
          rw (e, f)
            (request_for-IsOwed table activity r q p e f, requests_for-IsOwed table activity rs h)
    ]
  ]

  -- In a table where each alert is found by its key, every notification that an activity asks for goes to
  -- the owner of an alert of the table that the activity meets, over the channels of that alert, and is about
  -- that activity.
  pub requests-IsOwed :
      (table : Table) (activity : ActivityEntity)
      → All (λ a. find_by_id a.id table ≡ some a) (alerts table)
      → All (IsOwed table activity) (requests runtime table activity)
  unfolding requests
  requests-IsOwed table activity h =
      requests_for-IsOwed table activity
        (find_matching_alerts runtime table (convert_to_nft_activity activity))
        (find_matching_alerts-IsSound table (convert_to_nft_activity activity) h)
