-- ===== src/Alert/Config/Ownership.antt =====
-- Who may change an alert, and what the changes do.
use v2_xrpl_tools.Prelude.{
  ℕ, ◌≡◌, ◌≢◌, refl, ap, ◌∙◌, Bool, true, false, not, Option, none, some, String, str_eq, eq_iff,
  arith,
}
use v2_xrpl_tools.Prelude.Map
use v2_xrpl_tools.Prelude.Map.{get-set, get-delete}
use v2_xrpl_tools.Alert.Data.{AlertConfigEntity}
use v2_xrpl_tools.Alert.Repository
use v2_xrpl_tools.Alert.Repository.{Table, Updates, updated, alerts, owned}
use v2_xrpl_tools.Alert.Config.{
  ok, thrown, not_found, forbidden, find_by_id, update, delete, toggle_active, saved, deleted,
  only_active,
}

not_owner :
    (a : AlertConfigEntity) (user : String) → a.user_id ≢ user → str_eq a.user_id user ≡ false
not_owner a user h = ground (arith, eq_iff a.user_id user)

-- A user who does not own an alert can neither change, delete, nor switch it: each call is
-- forbidden and leaves the table as it is.
pub changes-forbidden :
    (now : ℕ) (id user : String) (u : Updates) (m : Table) (a : AlertConfigEntity)
    → Map.get id m ≡ some a
    → a.user_id ≢ user
    → (update now id user u m ≡ (thrown forbidden, m))
      × ((delete id user m ≡ (thrown forbidden, m))
          × (toggle_active now id user m ≡ (thrown forbidden, m)))
unfolding update delete toggle_active
changes-forbidden now id user u m a h d =
    let n = not_owner a user d in
    (rw (update, h, n) refl, (rw (delete, h, n) refl, rw (toggle_active, h, n) refl))

is_owner : (a : AlertConfigEntity) (user : String) → a.user_id ≡ user → str_eq a.user_id user ≡ true
is_owner a user h = ground (arith, eq_iff a.user_id user)

delete-owned :
    (id user : String) (m : Table) (a : AlertConfigEntity)
    → Map.get id m ≡ some a
    → a.user_id ≡ user
    → delete id user m ≡ (ok tt, Map.delete id m)
unfolding delete deleted Repository.delete
delete-owned id user m a h e =
    let removed : Repository.delete id m ≡ (true, Map.delete id m) =
      rw (Repository.delete, h) refl in
    rw (delete, h, is_owner a user e, removed) refl

-- The owner's deletion removes the alert and no other: afterwards it is not found by anyone, and
-- every other alert is as before.
pub delete-find_by_id :
    (id user : String) (m : Table) (a : AlertConfigEntity)
    → Map.get id m ≡ some a
    → a.user_id ≡ user
    → ((reader : Option String) → find_by_id id reader (delete id user m).1 ≡ thrown not_found)
      × ((other : String) → id ≢ other → Map.get other (delete id user m).1 ≡ Map.get other m)
unfolding find_by_id
delete-find_by_id id user m a h e = (
  λ reader.
      let gone : Map.get id (delete id user m).1 ≡ none =
        ap (λ r. Map.get id r.1) (delete-owned id user m a h e)
        ∙ ground (arith, get-delete id id m, eq_iff id id) in
      rw (find_by_id, gone) refl,
  λ other d.
      ap (λ r. Map.get other r.1) (delete-owned id user m a h e)
      ∙ ground (arith, get-delete id other m, eq_iff id other),
)

toggle_active-owned :
    (now : ℕ) (id user : String) (m : Table) (a : AlertConfigEntity)
    → Map.get id m ≡ some a
    → a.user_id ≡ user
    → Map.get id (toggle_active now id user m).1
      ≡ some (record a { is_active = not a.is_active; updated_at = now })
unfolding toggle_active saved Repository.update updated
toggle_active-owned now id user m a h e =
    let b : AlertConfigEntity = record a { is_active = not a.is_active; updated_at = now } in
    let stored : Repository.update now id (only_active (not a.is_active)) m
        ≡ (some b, Map.set id b m) =
      rw (Repository.update, h) refl in
    let switched : toggle_active now id user m ≡ (ok b, Map.set id b m) =
      rw (toggle_active, h, is_owner a user e, stored) refl in
    ap (λ r. Map.get id r.1) switched ∙ ground (arith, get-set id id b m, eq_iff id id)

not-not : (b : Bool) → not (not b) ≡ b
not-not true = refl
not-not false = refl

-- Two calls that switch an alert leave it as active, or as inactive, as it was.
pub toggle_active-toggle_active :
    (now later : ℕ) (id user : String) (m : Table) (a : AlertConfigEntity)
    → Map.get id m ≡ some a
    → a.user_id ≡ user
    → let m' = (toggle_active now id user m).1 in
      Map.get id (toggle_active later id user m').1 ≡ some (record a { updated_at = later })
toggle_active-toggle_active now later id user m a h e =
    let b : AlertConfigEntity = record a { is_active = not a.is_active; updated_at = now } in
    toggle_active-owned later id user (toggle_active now id user m).1 b
      (toggle_active-owned now id user m a h e) e
    ∙ ap (λ x. some (record a { is_active = x; updated_at = later })) (not-not a.is_active)
