-- ===== src/Auth/Guard.antt =====
-- src/features/auth/guards: which requests pass; and the routes of
-- src/features/auth/controllers/auth.controller.ts that do more than call a service.
pub mod Registration
pub mod Access
pub mod Refresh
use v2_xrpl_tools.Prelude.{
  ℕ, Bool, true, false, not, Option, none, some, List, [], ◌∷◌, String, str_eq, any, if◌then◌else◌,
}
use v2_xrpl_tools.Notification.Data.{truthy}
use v2_xrpl_tools.Auth.Data.{
  HttpError, unauthorized_exception, Attempt, completed, failed, UserTable, Claims, UserResponse,
  LoginResult, CreateUserDto, AuthRuntime, JwtConfig,
}
use v2_xrpl_tools.Auth.Tokens.{
  extract_token_from_header, verify_access_token, verify_api_key, either,
}
use v2_xrpl_tools.Auth.Users.{create, login, find_by_id}

-- `request.user`
pub record RequestUser : Type 0 where
  pub id : String
  pub email : String
  pub role : String
  pub first_name : Option String
  pub last_name : Option String

unfoldable pub request_user : Claims → UserResponse → RequestUser
unfolding truthy
request_user payload u = record {
  id = u.id;
  email = u.email;
  role = either (truthy payload.role) "user";
  first_name = u.first_name;
  last_name = u.last_name;
}

unfoldable pub active_user : Claims → Option UserResponse → Attempt RequestUser
unfolding request_user
active_user payload none = failed (unauthorized_exception "User not found or inactive")
active_user payload (some u) =
    if not u.is_active
    then failed (unauthorized_exception "User not found or inactive")
    else completed (request_user payload u)

unfoldable pub with_token : AuthRuntime → JwtConfig → String → UserTable → Attempt RequestUser
unfolding verify_access_token active_user find_by_id
with_token rt c token m = elim (verify_access_token rt c token) [
  | failed e ↦ failed e
  | completed payload ↦ active_user payload (find_by_id payload.sub m)
]

-- The guard throws, or lets the request pass, with the user that it attaches to it; a public route has none.
unfoldable pub can_activate :
    AuthRuntime → JwtConfig → Bool → Option String → UserTable → Attempt (Option RequestUser)
unfolding truthy extract_token_from_header with_token
can_activate rt c is_public header m = if is_public then completed none else elim (truthy header) [
  | none ↦ failed (unauthorized_exception "Authorization header is missing")
  | some h ↦ elim (extract_token_from_header h) [
    | none ↦ failed (unauthorized_exception "Invalid authorization header format")
    | some token ↦ elim (with_token rt c token m) [
      | failed e ↦ failed e
      | completed u ↦ completed (some u)
    ]
  ]
]

-- `RolesGuard`, for the role of the request's user
unfoldable pub has_required_role : Option (List String) → String → Bool
has_required_role none role = true
has_required_role (some roles) role = any (λ r. str_eq role r) roles

pub record RegisterDto : Type 0 where
  pub email : String
  pub password : String
  pub confirm_password : String
  pub first_name : Option String
  pub last_name : Option String

unfoldable pub create_user_dto : RegisterDto → CreateUserDto
unfolding truthy
create_user_dto d = record {
  email = d.email;
  password = d.password;
  first_name = truthy d.first_name;
  last_name = truthy d.last_name;
}

-- a registration, and the login that follows it, each with its time
unfoldable pub register :
    AuthRuntime
    → JwtConfig
    → String
    → ℕ
    → ℕ
    → RegisterDto
    → UserTable
    → Attempt LoginResult × UserTable
unfolding create login create_user_dto
register rt c id now later d m =
    if not (str_eq d.password d.confirm_password)
    then (failed (unauthorized_exception "Passwords do not match"), m)
    else elim (create rt id now (create_user_dto d) m).0 [
      | failed e ↦ (failed e, m)
      | completed u ↦ login rt c later d.email d.password (create rt id now (create_user_dto d) m).1
    ]

-- the route that checks the key of an API, with the id and the address of its user
unfoldable pub verify_api_key_route :
    AuthRuntime → JwtConfig → String → UserTable → Attempt (String × String)
unfolding verify_api_key find_by_id
verify_api_key_route rt c key m = elim (verify_api_key rt c key) [
  | failed e ↦ failed (unauthorized_exception "Invalid API key")
  | completed id ↦ elim (find_by_id id m) [
    | none ↦ failed (unauthorized_exception "Invalid API key")
    | some u ↦ completed (id, u.email)
  ]
]
