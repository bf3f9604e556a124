-- ===== src/Auth/Tokens.antt =====
-- src/features/auth/services/jwt.service.ts: the tokens of a user, and the header that carries one.
use v2_xrpl_tools.Prelude.{
  Bool, false, Option, none, some, List, [], ◌∷◌, String, str_eq, if◌then◌else◌,
}
use v2_xrpl_tools.Prelude.Outcome.{Outcome, done, raised, ◌>>=◌}
use v2_xrpl_tools.Prelude.Words.{split_by, split_spaces}
use v2_xrpl_tools.Notification.Data.{truthy}
use v2_xrpl_tools.Auth.Data.{
  unauthorized_exception, Attempt, completed, failed, Claims, JwtTokens, AuthRuntime, JwtConfig,
}

abbrev pub either : Option String → String → String
either none d = d
either (some v) d = v

-- the constructor, from the settings `jwt.secret`, `jwt.expiresIn` and those of refresh tokens
unfoldable pub jwt_config : String → Option String → Option String → Option String → JwtConfig
unfolding truthy
jwt_config secret expires refresh refresh_expires = record {
  secret = secret;
  expires_in = either (truthy expires) "7d";
  refresh_secret = either (truthy refresh) secret;
  refresh_expires_in = either (truthy refresh_expires) "30d";
}

unfoldable pub generate_access_token : AuthRuntime → JwtConfig → Claims → Outcome String
generate_access_token rt c payload = rt.sign payload c.secret (some c.expires_in)

abbrev pub refresh_payload : Claims → Claims
refresh_payload payload = record {
  sub = payload.sub;
  email = none;
  role = none;
  type = some "refresh";
  created_at = none;
}

unfoldable pub generate_refresh_token : AuthRuntime → JwtConfig → Claims → Outcome String
generate_refresh_token rt c payload =
    rt.sign (refresh_payload payload) c.refresh_secret (some c.refresh_expires_in)

-- the `catch` of a method that throws its own message
abbrev caught : {A : Type 0} → String → Outcome A → Attempt A
caught message (done a) = completed a
caught message (raised e) = failed (unauthorized_exception message)

unfoldable pub generate_tokens : AuthRuntime → JwtConfig → Claims → Attempt JwtTokens
unfolding generate_access_token generate_refresh_token
generate_tokens rt c payload = caught "Failed to generate authentication tokens" (do
  access ← generate_access_token rt c payload
  refresh ← generate_refresh_token rt c payload
  done (record { access_token = access; refresh_token = refresh; expires_in = c.expires_in }))

unfoldable pub verify_access_token : AuthRuntime → JwtConfig → String → Attempt Claims
verify_access_token rt c token = caught "Invalid access token" (rt.verify token c.secret)

abbrev has_type : String → Claims → Bool
has_type t payload = elim payload.type [ none ↦ false | some u ↦ str_eq u t ]

abbrev of_type : String → Claims → Outcome Claims
of_type t payload = if has_type t payload then done payload else raised "Invalid token type"

unfoldable pub verify_refresh_token : AuthRuntime → JwtConfig → String → Attempt Claims
verify_refresh_token rt c token =
    caught "Invalid refresh token" (rt.verify token c.refresh_secret >>= of_type "refresh")

abbrev pub blank_user : String → Claims
blank_user sub = record {
  sub = sub;
  email = some "";
  role = some "user";
  type = none;
  created_at = none;
}

-- The call of generateTokens stands in the `return` of the block, which does not wait for it: what it
-- throws is not caught.
unfoldable pub refresh_access_token : AuthRuntime → JwtConfig → String → Attempt JwtTokens
unfolding verify_refresh_token generate_tokens
refresh_access_token rt c token = elim (verify_refresh_token rt c token) [
  | failed e ↦ failed (unauthorized_exception "Failed to refresh authentication token")
  | completed payload ↦ generate_tokens rt c (blank_user payload.sub)
]

-- the second of two parts, where the first is `Bearer`
abbrev bearer_part : List String → Option String
bearer_part (p ∷ (t ∷ [])) = if str_eq p "Bearer" then truthy (some t) else none
bearer_part _ = none

unfoldable pub extract_token_from_header : String → Option String
unfolding split_by truthy
extract_token_from_header header =
    if str_eq header "" then none else bearer_part (split_spaces header)

abbrev pub api_key_payload : String → String → Claims
api_key_payload user now = record {
  sub = user;
  email = none;
  role = none;
  type = some "api_key";
  created_at = some now;
}

unfoldable pub generate_api_key : AuthRuntime → JwtConfig → String → String → Outcome String
generate_api_key rt c now user = rt.sign (api_key_payload user now) c.secret none

unfoldable pub verify_api_key : AuthRuntime → JwtConfig → String → Attempt String
verify_api_key rt c key =
    caught "Invalid API key"
      (do payload ← rt.verify key c.secret; checked ← of_type "api_key" payload; done checked.sub)
