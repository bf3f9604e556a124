-- ===== src/Auth/Repository.antt =====
-- src/features/users/repositories/user.repository.ts: the table of users, by their ids. A write by
-- the database's `update` leaves the table where there is no row, and else stamps the row.
use v2_xrpl_tools.Prelude.{
  ℕ, Bool, true, false, Option, none, some, List, [], ◌∷◌, String, str_eq, find?, is_some,
}
use v2_xrpl_tools.Prelude.Map
use v2_xrpl_tools.Notification.Data.{truthy}
use v2_xrpl_tools.Auth.Data.{UserEntity, UserTable}

abbrev pub users : UserTable → List UserEntity
users [] = []
users ((k, u) ∷ m) = u ∷ users m

abbrev pub find_user_by_id : String → UserTable → Option UserEntity
find_user_by_id id m = Map.get id m

abbrev pub find_user_by_email : (String → String) → String → UserTable → Option UserEntity
find_user_by_email to_lower_case email m =
    find? (λ u. str_eq u.email (to_lower_case email)) (users m)

-- The database makes the key, and fills the columns that have defaults.
unfoldable pub create_user :
    (String → String)
    → String
    → ℕ
    → String
    → String
    → Option String
    → Option String
    → UserTable
    → UserEntity × UserTable
unfolding truthy
create_user to_lower_case id now email password_hash first_name last_name m =
    let u : UserEntity = record {
      id = id;
      email = to_lower_case email;
      password_hash = password_hash;
      first_name = truthy first_name;
      last_name = truthy last_name;
      is_active = true;
      email_verified = false;
      last_login_at = none;
      created_at = now;
      updated_at = now;
    } in
    (u, Map.set id u m)

unfoldable pub write_user : ℕ → String → (UserEntity → UserEntity) → UserTable → UserTable
write_user now id f m = elim (Map.get id m) [
  | none ↦ m
  | some u ↦ Map.set id (record (f u) { updated_at = now }) m
]

unfoldable pub update_last_login : ℕ → String → UserTable → UserTable
unfolding write_user
update_last_login now id m = write_user now id (λ u. record u { last_login_at = some now }) m

-- what a column gets: a value that is not set leaves it
abbrev pub column : Option String → Option String → Option String
column none old = old
column (some new) old = some new

unfoldable pub update_profile :
    ℕ → String → Option String → Option String → UserTable → Option UserEntity × UserTable
unfolding write_user
update_profile now id first_name last_name m =
    let m' =
      write_user now id
        (λ u. record u {
          first_name = column first_name u.first_name;
          last_name = column last_name u.last_name;
        })
        m in
    (find_user_by_id id m', m')

unfoldable pub update_password : ℕ → String → String → UserTable → UserTable
unfolding write_user
update_password now id password_hash m =
    write_user now id (λ u. record u { password_hash = password_hash }) m

unfoldable pub deactivate_user : ℕ → String → UserTable → UserTable
unfolding write_user
deactivate_user now id m = write_user now id (λ u. record u { is_active = false }) m

unfoldable pub activate_user : ℕ → String → UserTable → UserTable
unfolding write_user
activate_user now id m = write_user now id (λ u. record u { is_active = true }) m

unfoldable pub mark_email_verified : ℕ → String → UserTable → UserTable
unfolding write_user
mark_email_verified now id m = write_user now id (λ u. record u { email_verified = true }) m

unfoldable pub email_exists : (String → String) → String → UserTable → Bool
email_exists to_lower_case email m = is_some (find_user_by_email to_lower_case email m)
