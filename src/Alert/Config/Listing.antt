-- ===== src/Alert/Config/Listing.antt =====
-- `findByUserId` and `findSummaryByUserId` of alert-config.service.ts: the pages of a user's alerts.
use v2_xrpl_tools.Prelude.{
  ℕ, zero, ◌+◌, ◌-◌, ◌*◌, ◌/◌, min, Bool, Option, none, some, List, String, map,
}
use v2_xrpl_tools.Notification.Data.{truthy}
use v2_xrpl_tools.Alert.Data.{AlertConfigEntity}
use v2_xrpl_tools.Alert.Repository
use v2_xrpl_tools.Alert.Repository.{AlertQuery, Table}

pub record Page : Type 0 where
  pub skip : ℕ
  pub limit : ℕ
  pub page : ℕ

-- the page that `findByUserId` asks for: absent and zero count as the default
unfoldable pub page_of : Option ℕ → Option ℕ → Page
page_of page limit =
    let p = or_default page 1 in
    let l = min (or_default limit 20) 100 in record { skip = (p - 1) * l; limit = l; page = p }
  where
    or_default : Option ℕ → ℕ → ℕ
    or_default none d = d
    or_default (some zero) d = d
    or_default (some n) d = n

-- `Math.ceil(total / limit)`
unfoldable pub total_pages : ℕ → ℕ → ℕ
total_pages total limit = (total + (limit - 1)) / limit

-- the options of `findByUserId`
pub record ListOptions : Type 0 where
  pub is_active : Option Bool
  pub collection_id : Option String
  pub page : Option ℕ
  pub limit : Option ℕ

pub record AlertPage : Type 0 where
  pub alerts : List AlertConfigEntity
  pub total : ℕ
  pub page : ℕ
  pub limit : ℕ
  pub total_pages : ℕ

unfoldable pub find_by_user_id : String → ListOptions → Table → AlertPage
unfolding page_of total_pages truthy Repository.find_by_user_id
find_by_user_id user o m =
    let p = page_of o.page o.limit in
    let (rows, total) =
      Repository.find_by_user_id user
        (record {
          is_active = o.is_active;
          collection_id = truthy o.collection_id;
          skip = some p.skip;
          take = some p.limit;
        })
        m in
    record {
      alerts = rows;
      total = total;
      page = p.page;
      limit = p.limit;
      total_pages = total_pages total p.limit;
    }

pub record AlertConfigSummary : Type 0 where
  pub id : String
  pub name : String
  pub activity_types : List String
  pub is_active : Bool
  pub created_at : ℕ
  pub notification_count : ℕ
  pub collection_name : Option String

-- The query joins the collection, whose name is looked up here, and not the notifications: their
-- count is that of a missing list.
unfoldable pub summary : (String → Option String) → AlertConfigEntity → AlertConfigSummary
unfolding truthy
summary name_of a = record {
  id = a.id;
  name = a.name;
  activity_types = a.activity_types;
  is_active = a.is_active;
  created_at = a.created_at;
  notification_count = 0;
  collection_name = elim a.collection_id [ none ↦ none | some c ↦ truthy (name_of c) ];
}

abbrev all_of_user : AlertQuery
all_of_user = record { is_active = none; collection_id = none; skip = none; take = none }

unfoldable pub find_summary_by_user_id :
    (String → Option String) → String → Table → List AlertConfigSummary
unfolding summary Repository.find_by_user_id
find_summary_by_user_id name_of user m =
    map (summary name_of) (Repository.find_by_user_id user all_of_user m).0
