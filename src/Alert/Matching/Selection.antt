-- ===== src/Alert/Matching/Selection.antt =====
-- The alerts that the database selects, and what an exception does to all of them.
use v2_xrpl_tools.Prelude.{
  ◌≡◌, refl, sym, ap, ◌∙◌, Bool, true, false, ◌&&◌, Option, none, some, List, [], ◌∷◌, ◌++◌, String,
  str_eq, eq_iff, any, All, filter, map, arith, subst,
}
use v2_xrpl_tools.Notification.Data.{truthy}
use v2_xrpl_tools.Prelude.Outcome.{Outcome, done, raised}
use v2_xrpl_tools.Alert.Data.{AlertConfigEntity, AlertMatchResult, NftActivity}
use v2_xrpl_tools.Alert.Repository.{
  Table, alerts, in_collection, is_candidate, find_alerts_matching_activity,
}
use v2_xrpl_tools.Alert.Matching.{
  nft_collection, collection_of, evaluate_alert_match, evaluate_all, find_matching_alerts,
}
use v2_xrpl_tools.Alert.Traits.{Runtime}
use v2_xrpl_tools.Alert.Matching.Criteria.{
  accepts, is_matched, evaluate_alert_match-accepts, collection_accepted,
}

-- an alert's collection is not the empty text, as the column is a uuid
abbrev pub HasCollectionId : AlertConfigEntity → Type 0
HasCollectionId a = truthy a.collection_id ≡ a.collection_id

collection_accepted-in_collection :
    (c d : Option String) → collection_accepted c d ≡ true → in_collection d c ≡ true
unfolding in_collection
collection_accepted-in_collection none d h = refl
collection_accepted-in_collection (some c) none h = h
collection_accepted-in_collection (some c) (some d) h = h

any-flipped : (s : String) (xs : List String) → any (λ t. str_eq t s) xs ≡ any (λ t. str_eq s t) xs
any-flipped s [] = refl
any-flipped s (x ∷ xs) = ground (arith, any-flipped s xs, eq_iff x s, eq_iff s x)

split_and : (a b : Bool) → (a && b) ≡ true → (a ≡ true) × (b ≡ true)
split_and true b h = (refl, h)
split_and false b h = ground arith

module _ (runtime : Runtime) where
  -- What the database leaves out could not match.
  accepts-is_candidate :
      (a : AlertConfigEntity) (activity : NftActivity)
      → HasCollectionId a
      → accepts runtime a activity ≡ true
      → is_candidate activity.activity_type (nft_collection activity) a ≡ true
  unfolding accepts is_candidate
  accepts-is_candidate a activity h k =
      let named = any (λ t. str_eq t activity.activity_type) a.activity_types in
      let (active, more) = split_and a.is_active _ k in
      let (type, rest) = split_and named _ more in
      let (collection, _) =
        split_and (collection_accepted (truthy a.collection_id) (collection_of activity)) _ rest in
      let found : in_collection (collection_of activity) a.collection_id ≡ true =
        subst (λ c. in_collection (collection_of activity) c ≡ true) h
          (collection_accepted-in_collection (truthy a.collection_id) (collection_of activity)
            collection) in
      ap
        (λ x.
          x
          && (any (λ t. str_eq activity.activity_type t) a.activity_types
              && in_collection (collection_of activity) a.collection_id))
        active
      ∙ ap (λ x. x && in_collection (collection_of activity) a.collection_id)
          (sym (any-flipped activity.activity_type a.activity_types) ∙ type)
      ∙ found

  filter-selected :
      (activity : NftActivity) (rest : List AlertConfigEntity)
      → All HasCollectionId rest
      → filter
          (λ a. accepts runtime a activity)
          (filter (is_candidate activity.activity_type (nft_collection activity)) rest)
        ≡ filter (λ a. accepts runtime a activity) rest
  filter-selected activity [] h = refl
  filter-selected activity (a ∷ rest) (i, h) =
      ground (arith, accepts-is_candidate a activity i, filter-selected activity rest h)

  Agrees : Outcome (List AlertMatchResult) → List Bool → Type 0
  Agrees (raised e) verdicts = Unit
  Agrees (done rs) verdicts = map (λ r. r.matched) rs ≡ verdicts

  Agrees-evaluate_all :
      (rest : List AlertConfigEntity) (activity : NftActivity)
      → Agrees (evaluate_all runtime rest activity) (map (λ a. accepts runtime a activity) rest)
  unfolding evaluate_all Agrees
  Agrees-evaluate_all [] activity = refl
  Agrees-evaluate_all (a ∷ rest) activity =
      go (evaluate_alert_match runtime a activity) (evaluate_all runtime rest activity)
        (evaluate_alert_match-accepts runtime a activity) (Agrees-evaluate_all rest activity)
    where
      go :
          (o : Outcome AlertMatchResult) (later : Outcome (List AlertMatchResult))
          → is_matched o ≡ accepts runtime a activity
          → Agrees later (map (λ b. accepts runtime b activity) rest)
          → Agrees
              (elim o [
                | raised e ↦ raised e
                | done r ↦ elim later [ raised e ↦ raised e | done rs ↦ done (r ∷ rs) ]
              ])
              (accepts runtime a activity ∷ map (λ b. accepts runtime b activity) rest)
      go (raised e) later h k = tt
      go (done r) (raised e) h k = tt
      go (done r) (done rs) h k = rw (h, k) refl

  evaluate_all-raised :
      (before : List AlertConfigEntity) (a : AlertConfigEntity) (after : List AlertConfigEntity)
      (activity : NftActivity) (e : String)
      → evaluate_alert_match runtime a activity ≡ raised e
      → (m : String) × (evaluate_all runtime (before ++ a ∷ after) activity ≡ raised m)
  unfolding evaluate_all
  evaluate_all-raised [] a after activity e h = (e, rw (evaluate_all, h) refl)
  evaluate_all-raised (b ∷ before) a after activity e h =
      go (evaluate_alert_match runtime b activity) (evaluate_all-raised before a after activity e h)
    where
      go :
          (o : Outcome AlertMatchResult)
          → (m : String) × (evaluate_all runtime (before ++ a ∷ after) activity ≡ raised m)
          → (m : String) × ((elim o [
            | raised e' ↦ raised e'
            | done r ↦ elim (evaluate_all runtime (before ++ a ∷ after) activity) [
              | raised e' ↦ raised e'
              | done rs ↦ done (r ∷ rs)
            ]
          ])
              ≡ raised m)
      go (raised e') (m, k) = (e', refl)
      go (done r) (m, k) = (m, rw k refl)

  -- Where no evaluation throws, the results for an activity say of each alert that the database
  -- selected whether the criteria accept it, and the database left out none that they accept. The
  -- collection of an alert is not the empty text.
  pub find_matching_alerts_complete :
      (m : Table) (activity : NftActivity) (rs : List AlertMatchResult)
      → All HasCollectionId (alerts m)
      → evaluate_all runtime
          (find_alerts_matching_activity activity.activity_type (nft_collection activity) m)
          activity
        ≡ done rs
      → let selected =
          find_alerts_matching_activity activity.activity_type (nft_collection activity) m in
        (map (λ r. r.matched) (find_matching_alerts runtime m activity)
          ≡ map (λ a. accepts runtime a activity) selected)
        × (filter (λ a. accepts runtime a activity) selected
            ≡ filter (λ a. accepts runtime a activity) (alerts m))
  unfolding find_matching_alerts find_alerts_matching_activity Agrees
  find_matching_alerts_complete m activity rs h e =
      let selected =
        find_alerts_matching_activity activity.activity_type (nft_collection activity) m in
      let agreed : Agrees (done rs) (map (λ a. accepts runtime a activity) selected) =
        subst (λ o. Agrees o (map (λ a. accepts runtime a activity) selected)) e
          (Agrees-evaluate_all selected activity) in
      (rw (find_matching_alerts, e) agreed, filter-selected activity (alerts m) h)

  -- If the evaluation of one selected alert throws, no alert matches the activity: the results of
  -- the others are lost with it.
  pub find_matching_alerts-raised :
      (m : Table) (activity : NftActivity) (before : List AlertConfigEntity) (a : AlertConfigEntity)
      (after : List AlertConfigEntity) (e : String)
      → find_alerts_matching_activity activity.activity_type (nft_collection activity) m
        ≡ before ++ a ∷ after
      → evaluate_alert_match runtime a activity ≡ raised e
      → find_matching_alerts runtime m activity ≡ []
  unfolding find_matching_alerts
  find_matching_alerts-raised m activity before a after e h k =
      let (message, thrown) = evaluate_all-raised before a after activity e k in
      rw (find_matching_alerts, h, thrown) refl
