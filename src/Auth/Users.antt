-- ===== src/Auth/Users.antt =====
-- src/features/users/services/user.service.ts over the table of users. The clock and the new key
-- are handed in.
pub mod Rows
pub mod Accounts
use v2_xrpl_tools.Prelude.{
  ℕ, Bool, true, false, not, Option, none, some, List, [], ◌∷◌, String, length, filter,
  if◌then◌else◌, is_some,
}
use v2_xrpl_tools.Prelude.Outcome.{Outcome, done, raised}
use v2_xrpl_tools.Prelude.Words.{words}
use v2_xrpl_tools.Notification.Data.{truthy}
use v2_xrpl_tools.Auth.Data.{
  HttpError, unauthorized_exception, conflict_exception, not_found_exception, bad_request_exception,
  other_error, Attempt, completed, failed, UserEntity, UserTable, Claims, JwtTokens,
  AuthenticatedUser, UserResponse, LoginResult, CreateUserDto, AuthRuntime, JwtConfig,
}
use v2_xrpl_tools.Auth.Passwords.{validate_password_strength}
use v2_xrpl_tools.Auth.Tokens.{generate_tokens, verify_refresh_token}
use v2_xrpl_tools.Auth.Repository.{
  users, find_user_by_id, find_user_by_email, create_user, update_last_login, update_profile,
  update_password, deactivate_user, activate_user, mark_email_verified, email_exists,
}

-- `hashPassword` and `comparePassword` of the password service
unfoldable pub hash_password : AuthRuntime → String → Attempt String
hash_password rt p = elim (rt.hash p) [
  | done h ↦ completed h
  | raised e ↦ failed (other_error "Failed to process password")
]

unfoldable pub compare_password : AuthRuntime → String → String → Bool
compare_password rt p h = elim (rt.compare p h) [ done b ↦ b | raised e ↦ false ]

unfoldable pub to_user_response : UserEntity → UserResponse
unfolding truthy
to_user_response u = record {
  id = u.id;
  email = u.email;
  is_active = u.is_active;
  email_verified = u.email_verified;
  first_name = truthy u.first_name;
  last_name = truthy u.last_name;
  last_login_at = u.last_login_at;
  created_at = u.created_at;
  updated_at = u.updated_at;
}

-- `errors.join(', ')`
abbrev joined : List String → String
joined [] = ""
joined (e ∷ []) = e
joined (e ∷ es) = words (e ∷ ", " ∷ joined es ∷ [])

-- the error of a password that is not strong enough
unfoldable pub weak_password : String → Option HttpError
unfolding validate_password_strength
weak_password p = elim (validate_password_strength p) [
  | [] ↦ none
  | (e ∷ es) ↦
      some (bad_request_exception (words ("Password validation failed: " ∷ joined (e ∷ es) ∷ [])))
]

unfoldable pub create :
    AuthRuntime → String → ℕ → CreateUserDto → UserTable → Attempt UserResponse × UserTable
unfolding email_exists weak_password hash_password create_user to_user_response
create rt id now d m =
    if email_exists rt.to_lower_case d.email m
    then (failed (conflict_exception "User with this email already exists"), m)
    else elim (weak_password d.password) [
      | some e ↦ (failed e, m)
      | none ↦ elim (hash_password rt d.password) [
        | failed e ↦ (failed e, m)
        | completed h ↦
            let (u, m') =
              create_user rt.to_lower_case id now d.email h d.first_name d.last_name m in
            (completed (to_user_response u), m')
      ]
    ]

unfoldable pub find_by_id : String → UserTable → Option UserResponse
unfolding to_user_response
find_by_id id m = elim (find_user_by_id id m) [ none ↦ none | some u ↦ some (to_user_response u) ]

unfoldable pub find_by_email : AuthRuntime → String → UserTable → Option UserResponse
unfolding to_user_response
find_by_email rt email m = elim (find_user_by_email rt.to_lower_case email m) [
  | none ↦ none
  | some u ↦ some (to_user_response u)
]

abbrev pub no_user : HttpError
no_user = not_found_exception "User not found"

unfoldable pub updated_response : Option UserEntity × UserTable → Attempt UserResponse × UserTable
unfolding to_user_response
updated_response (none, m) = (failed (other_error "Failed to update user profile"), m)
updated_response (some u, m) = (completed (to_user_response u), m)

unfoldable pub update_user_profile :
    ℕ → String → Option String → Option String → UserTable → Attempt UserResponse × UserTable
unfolding update_profile updated_response
update_user_profile now id first_name last_name m = elim (find_user_by_id id m) [
  | none ↦ (failed no_user, m)
  | some u ↦ updated_response (update_profile now id first_name last_name m)
]

unfoldable pub change_password :
    AuthRuntime → ℕ → String → String → String → UserTable → Attempt Unit × UserTable
unfolding compare_password weak_password hash_password update_password
change_password rt now id current new m = elim (find_user_by_id id m) [
  | none ↦ (failed no_user, m)
  | some u ↦
      if not (compare_password rt current u.password_hash)
      then (failed (unauthorized_exception "Current password is incorrect"), m)
      else elim (weak_password new) [
        | some e ↦ (failed e, m)
        | none ↦ elim (hash_password rt new) [
          | failed e ↦ (failed e, m)
          | completed h ↦ (completed tt, update_password now id h m)
        ]
      ]
]

-- a write that asks first for the user
abbrev on_user : String → UserTable → UserTable → Attempt Unit × UserTable
on_user id m m' = if is_some (find_user_by_id id m) then (completed tt, m') else (failed no_user, m)

unfoldable pub deactivate : ℕ → String → UserTable → Attempt Unit × UserTable
unfolding deactivate_user
deactivate now id m = on_user id m (deactivate_user now id m)

unfoldable pub activate : ℕ → String → UserTable → Attempt Unit × UserTable
unfolding activate_user
activate now id m = on_user id m (activate_user now id m)

unfoldable pub verify_email : ℕ → String → UserTable → Attempt Unit × UserTable
unfolding mark_email_verified
verify_email now id m = on_user id m (mark_email_verified now id m)

unfoldable pub authenticated : UserEntity → AuthenticatedUser
unfolding truthy
authenticated u = record {
  id = u.id;
  email = u.email;
  role = "user";
  first_name = truthy u.first_name;
  last_name = truthy u.last_name;
  created_at = u.created_at;
  updated_at = u.updated_at;
}

unfoldable pub validate_user : AuthRuntime → String → String → UserTable → Option AuthenticatedUser
unfolding compare_password authenticated
validate_user rt email password m = elim (find_user_by_email rt.to_lower_case email m) [
  | none ↦ none
  | some u ↦
      if not u.is_active
      then none
      else if not (compare_password rt password u.password_hash)
      then none
      else some (authenticated u)
]

-- the payload of a user's tokens
abbrev pub token_payload : AuthenticatedUser → Claims
token_payload a = record {
  sub = a.id;
  email = some a.email;
  role = some a.role;
  type = none;
  created_at = none;
}

unfoldable pub with_tokens : AuthenticatedUser → Attempt JwtTokens → Attempt LoginResult
with_tokens a (failed e) = failed e
with_tokens a (completed t) = completed (record { user = a; tokens = t })

unfoldable pub login :
    AuthRuntime → JwtConfig → ℕ → String → String → UserTable → Attempt LoginResult × UserTable
unfolding validate_user update_last_login with_tokens generate_tokens
login rt c now email password m = elim (validate_user rt email password m) [
  | none ↦ (failed (unauthorized_exception "Invalid email or password"), m)
  | some a ↦ (with_tokens a (generate_tokens rt c (token_payload a)), update_last_login now a.id m)
]

-- the `catch` of the refresh, which has one message for all that is thrown
unfoldable pub invalid_refresh : Attempt LoginResult → Attempt LoginResult
invalid_refresh (failed e) = failed (unauthorized_exception "Invalid refresh token")
invalid_refresh (completed r) = completed r

-- the tokens for a user of the table, who has to be active
unfoldable pub tokens_for : AuthRuntime → JwtConfig → Option UserEntity → Attempt LoginResult
unfolding authenticated with_tokens generate_tokens
tokens_for rt c none = failed (unauthorized_exception "User not found or inactive")
tokens_for rt c (some u) =
    if not u.is_active
    then failed (unauthorized_exception "User not found or inactive")
    else with_tokens (authenticated u) (generate_tokens rt c (token_payload (authenticated u)))

unfoldable pub refresh_tokens : AuthRuntime → JwtConfig → String → UserTable → Attempt LoginResult
unfolding verify_refresh_token tokens_for invalid_refresh
refresh_tokens rt c token m = elim (verify_refresh_token rt c token) [
  | failed e ↦ invalid_refresh (failed e)
  | completed payload ↦ invalid_refresh (tokens_for rt c (find_user_by_id payload.sub m))
]

pub record UserCounts : Type 0 where
  pub total_users : ℕ
  pub active_users : ℕ
  pub verified_users : ℕ

unfoldable pub get_user_stats : UserTable → UserCounts
get_user_stats m = record {
  total_users = length (users m);
  active_users = length (filter (λ u. u.is_active) (users m));
  verified_users = length (filter (λ u. u.email_verified) (users m));
}
