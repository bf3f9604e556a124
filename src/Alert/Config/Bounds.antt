-- ===== src/Alert/Config/Bounds.antt =====
-- What the checks of the price range promise, and where they do not reach.
use v2_xrpl_tools.Prelude.{
  ℕ, ◌≡◌, ◌<◌, refl, ap, ◌∙◌, inl, inr, Bool, true, false, not, Option, none, some, List, [], ◌∷◌,
  String, str_eq, eq_iff, arith, Bool-cases, Option-cases, leb, ◌&&◌, ◌||◌, any, filter,
}
use v2_xrpl_tools.Prelude.Decimal.{big_int}
use v2_xrpl_tools.Prelude.Map
use v2_xrpl_tools.Prelude.Map.{get-set, get-set-same}
use v2_xrpl_tools.Notification.Data.{truthy, NotificationChannel}
use v2_xrpl_tools.Alert.Data.{AlertConfigEntity, NftActivity}
use v2_xrpl_tools.Alert.Repository
use v2_xrpl_tools.Alert.Repository.{Table, Updates, CreateData, updated}
use v2_xrpl_tools.Alert.Matching.{has_price_filters, collection_of, filters_of, traits_of}
use v2_xrpl_tools.Alert.Traits.{Runtime}
use v2_xrpl_tools.Alert.Matching.Criteria.{
  accepts, price_accepted, meets, collection_accepted, traits_accepted,
}
use v2_xrpl_tools.Alert.Config.{
  Response, ok, thrown, bad_request, create, update, saved, validate_price_range, check_range,
  check_prices, validate_notification_channels,
}

-- Where both bounds are given they are numbers, and the lower one is less.
abbrev pub IsRange : Option String → Option String → Type 0
IsRange (some l) (some h) =
    (a : ℕ) × ((b : ℕ) × ((big_int l ≡ some a) × ((big_int h ≡ some b) × (a < b))))
IsRange _ _ = Unit

validate_price_range-IsRange :
    (low high : Option String)
    → validate_price_range low high ≡ none
    → IsRange (truthy low) (truthy high)
unfolding validate_price_range check_range check_prices
validate_price_range-IsRange low high h = ranged (truthy low) (truthy high) h
  where
    priced :
        (l k : String) (x y : Option ℕ)
        → big_int l ≡ x
        → big_int k ≡ y
        → check_prices x y ≡ none
        → IsRange (some l) (some k)
    priced l k none y e f h = absurd (ground arith)
    priced l k (some a) none e f h = absurd (ground arith)
    priced l k (some a) (some b) e f h = (a, (b, (e, (f, ground arith))))

    ranged : (l k : Option String) → check_range l k ≡ none → IsRange l k
    ranged none k h = tt
    ranged (some l) none h = tt
    ranged (some l) (some k) h = priced l k (big_int l) (big_int k) refl refl h

filter-none :
    (p : NotificationChannel → Bool) (cs : List NotificationChannel)
    → any p cs ≡ false
    → filter p cs ≡ []
filter-none p [] h = refl
filter-none p (c ∷ cs) h = ground (arith, filter-none p cs)

validated-enabled :
    (cs : List NotificationChannel)
    → validate_notification_channels cs ≡ none
    → any (λ c. c.enabled) cs ≡ true
unfolding validate_notification_channels
validated-enabled cs h = elim (Bool-cases (any (λ c. c.enabled) cs)) [
  | inl e ↦ e
  | inr e ↦
      let refused : validate_notification_channels cs
          ≡ some (bad_request "At least one notification channel must be enabled") =
        rw (validate_notification_channels, filter-none (λ c. c.enabled) cs e) refl in
      absurd (ground (arith, h, refused))
]

-- what an answer says of the table
abbrev pub Created : CreateData → Table → Response AlertConfigEntity × Table → Type 0
Created d m (thrown e, m') = m' ≡ m
Created d m (ok a, m') =
    (Map.get a.id m' ≡ some a)
    × (IsRange a.min_price_drops a.max_price_drops
        × (any (λ c. c.enabled) a.notification_channels ≡ true))

-- An alert that is created has a proper price range, if it has both bounds, and at least one
-- channel that is enabled; a refused call leaves the table as it is.
pub create-IsRange :
    (id : String) (now : ℕ) (d : CreateData) (m : Table) → Created d m (create id now d m)
unfolding create validate_price_range validate_notification_channels Repository.create
create-IsRange id now d m =
    elim (Option-cases (validate_price_range d.min_price_drops d.max_price_drops)) [
      | inr (e, p) ↦ rw (create, p) refl
      | inl p ↦ elim (Option-cases (validate_notification_channels d.notification_channels)) [
        | inr (e, q) ↦ rw (create, p, q) refl
        | inl q ↦
            rw (create, p, q)
              (
                get-set-same id (Repository.create id now d m).0 m,
                (
                  validate_price_range-IsRange d.min_price_drops d.max_price_drops p,
                  validated-enabled d.notification_channels q,
                ),
              )
      ]
    ]

abbrev pub only_max : String → Updates
only_max top = record {
  name = none;
  collection_id = none;
  activity_types = none;
  min_price_drops = none;
  max_price_drops = some top;
  trait_filters = none;
  notification_channels = none;
  is_active = none;
}

-- An update that gives only one bound is not checked against the bound that stays: whatever the
-- lower bound is, the owner can set any upper bound that is not empty.
pub update-unchecked :
    (now : ℕ) (id user top : String) (m : Table) (a : AlertConfigEntity)
    → Map.get id m ≡ some a
    → a.user_id ≡ user
    → truthy (some top) ≡ some top
    → Map.get id (update now id user (only_max top) m).1
      ≡ some (record a { max_price_drops = some top; updated_at = now })
unfolding update saved Repository.update updated truthy
update-unchecked now id user top m a h e t =
    let b : AlertConfigEntity = record a { max_price_drops = some top; updated_at = now } in
    let new : updated now (only_max top) a ≡ b =
      ap (λ o. record a { max_price_drops = o; updated_at = now }) t in
    let stored : Repository.update now id (only_max top) m ≡ (some b, Map.set id b m) =
      rw (Repository.update, h, new) refl in
    let owner : str_eq a.user_id user ≡ true = ground (arith, eq_iff a.user_id user) in
    let done : update now id user (only_max top) m ≡ (ok b, Map.set id b m) =
      rw (update, h, owner, stored) refl in
    ap (λ r. Map.get id r.1) done ∙ ground (arith, get-set id id b m, eq_iff id id)

crossed-price_accepted :
    (a : AlertConfigEntity) (l k : String) (x y : ℕ) (o : Option String)
    → truthy a.min_price_drops ≡ some l
    → truthy a.max_price_drops ≡ some k
    → big_int l ≡ some x
    → big_int k ≡ some y
    → y < x
    → price_accepted a o ≡ false
crossed-price_accepted a l k x y none e f g h lt = refl
crossed-price_accepted a l k x y (some d) e f g h lt = elim (Option-cases (big_int d)) [
  | inl p ↦ rw (price_accepted, p) refl
  | inr (n, p) ↦
      let apart : (leb x n && leb n y) ≡ false = ground arith in
      rw (price_accepted, p, e, f, meets, g, h) apart
]

shut : (a b c d : Bool) → (a && (b && (c && (false && d)))) ≡ false
shut true true true d = refl
shut true true false d = refl
shut true false c d = refl
shut false b c d = refl

-- An alert whose lower bound is above its upper bound matches no activity.
pub crossed-accepts :
    (runtime : Runtime) (a : AlertConfigEntity) (activity : NftActivity) (l k : String) (x y : ℕ)
    → truthy a.min_price_drops ≡ some l
    → truthy a.max_price_drops ≡ some k
    → big_int l ≡ some x
    → big_int k ≡ some y
    → y < x
    → accepts runtime a activity ≡ false
unfolding accepts has_price_filters
crossed-accepts runtime a activity l k x y e f g h lt =
    let named = any (λ t. str_eq t activity.activity_type) a.activity_types in
    let collection = collection_accepted (truthy a.collection_id) (collection_of activity) in
    let refused : (not (has_price_filters a) || price_accepted a (truthy activity.price_drops))
        ≡ false =
      rw (has_price_filters, e)
        (crossed-price_accepted a l k x y (truthy activity.price_drops) e f g h lt) in
    ap
      (λ b.
        a.is_active
        && (named
            && (collection && (b && traits_accepted runtime (filters_of a) (traits_of activity)))))
      refused
    ∙ shut a.is_active named collection
        (traits_accepted runtime (filters_of a) (traits_of activity))
