-- ===== src/Auth/Data.antt =====
-- The data of users and tokens: src/database/entities/user.entity.ts, the interfaces under
-- src/features/auth and src/features/users, and the exceptions that they throw.
use v2_xrpl_tools.Prelude.{ℕ, ◌≡◌, refl, ◌⊎◌, inl, inr, Bool, Option, String}
use v2_xrpl_tools.Prelude.Map.{Map}
use v2_xrpl_tools.Prelude.Outcome.{Outcome}

pub data HttpError : Type 0 where
  unauthorized_exception conflict_exception not_found_exception bad_request_exception other_error :
      String → HttpError

-- a call that returns, or throws
pub data Attempt (A : Type 0) : Type 0 where
  completed : A → Attempt A
  failed : HttpError → Attempt A

pub attempt_cases :
    {A : Type 0} (o : Attempt A)
    → ((e : HttpError) × (o ≡ failed e)) ⊎ ((a : A) × (o ≡ completed a))
attempt_cases (completed a) = inr (a, refl)
attempt_cases (failed e) = inl (e, refl)

pub record UserEntity : Type 0 where
  pub id : String
  pub email : String
  pub password_hash : String
  pub first_name : Option String
  pub last_name : Option String
  pub is_active : Bool
  pub email_verified : Bool
  pub last_login_at : Option ℕ
  pub created_at : ℕ
  pub updated_at : ℕ

abbrev pub UserTable : Type 0
UserTable = Map UserEntity

-- What a token carries, without the times that the library adds.
pub record Claims : Type 0 where
  pub sub : String
  pub email : Option String
  pub role : Option String
  pub type : Option String
  pub created_at : Option String

pub record JwtTokens : Type 0 where
  pub access_token : String
  pub refresh_token : String
  pub expires_in : String

pub record AuthenticatedUser : Type 0 where
  pub id : String
  pub email : String
  pub role : String
  pub first_name : Option String
  pub last_name : Option String
  pub created_at : ℕ
  pub updated_at : ℕ

pub record UserResponse : Type 0 where
  pub id : String
  pub email : String
  pub is_active : Bool
  pub email_verified : Bool
  pub first_name : Option String
  pub last_name : Option String
  pub last_login_at : Option ℕ
  pub created_at : ℕ
  pub updated_at : ℕ

pub record LoginResult : Type 0 where
  pub user : AuthenticatedUser
  pub tokens : JwtTokens

pub record CreateUserDto : Type 0 where
  pub email : String
  pub password : String
  pub first_name : Option String
  pub last_name : Option String

-- What is read from outside, as it answers at the time of one call: the lower case of a text, the library
-- bcrypt, and the library of tokens, which signs for a secret and, where one is set, a lifetime. It puts the
-- time into what it signs, and reads it when it verifies, so a call at another time has another record.
pub record AuthRuntime : Type 0 where
  pub to_lower_case : String → String
  pub hash : String → Outcome String
  pub compare : String → String → Outcome Bool
  pub sign : Claims → String → Option String → Outcome String
  pub verify : String → String → Outcome Claims

-- the settings of the tokens
pub record JwtConfig : Type 0 where
  pub secret : String
  pub expires_in : String
  pub refresh_secret : String
  pub refresh_expires_in : String
