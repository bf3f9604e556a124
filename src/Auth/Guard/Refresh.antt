-- ===== src/Auth/Guard/Refresh.antt =====
-- The two tokens of a login, and what each opens.
use v2_xrpl_tools.Prelude.{
  ◌≡◌, inl, inr, refl, ◌∙◌, true, false, Option, none, some, String, str_eq, Bool-cases, arith,
}
use v2_xrpl_tools.Prelude.Map.{get}
use v2_xrpl_tools.Prelude.Outcome.{done, outcome_cases}
use v2_xrpl_tools.Notification.Data.{truthy}
use v2_xrpl_tools.Auth.Data.{
  completed, UserEntity, UserTable, Claims, JwtTokens, AuthRuntime, JwtConfig,
}
use v2_xrpl_tools.Auth.Tokens.{
  extract_token_from_header, verify_access_token, verify_refresh_token, refresh_payload,
  generate_tokens, jwt_config, generate_refresh_token, generate_access_token,
}
use v2_xrpl_tools.Auth.Users.{
  find_by_id, to_user_response, refresh_tokens, tokens_for, invalid_refresh, with_tokens,
  authenticated, token_payload,
}
use v2_xrpl_tools.Auth.Guard.{RequestUser, can_activate, with_token, active_user, request_user}

-- What the library of tokens promises between the time of a signature and a later one at which the token
-- still lasts: with the secret that signed it, the verification returns what was signed.
abbrev pub Verifies : AuthRuntime → AuthRuntime → Type 0
Verifies rt later =
    (payload : Claims) (key token : String) (life : Option String)
    → rt.sign payload key life ≡ done token
    → later.verify token key ≡ done payload

generate_tokens-inv :
    (rt : AuthRuntime) (c : JwtConfig) (payload : Claims) (t : JwtTokens)
    → generate_tokens rt c payload ≡ completed t
    → (rt.sign payload c.secret (some c.expires_in) ≡ done t.access_token)
      × (rt.sign (refresh_payload payload) c.refresh_secret (some c.refresh_expires_in)
          ≡ done t.refresh_token)
unfolding generate_tokens generate_access_token generate_refresh_token
generate_tokens-inv rt c payload t h =
    elim (outcome_cases (rt.sign payload c.secret (some c.expires_in))) [
      | inl (x, e) ↦ absurd (grind arith)
      | inr (a, e) ↦
          elim (outcome_cases
            (rt.sign (refresh_payload payload) c.refresh_secret (some c.refresh_expires_in))) [
              | inl (x, f) ↦ absurd (grind arith)
              | inr (b, f) ↦ (e ∙ grind arith, f ∙ grind arith)
            ]
    ]

-- a header with a token that the secret verifies, for an active user of the table
can_activate-verified :
    (rt : AuthRuntime) (c : JwtConfig) (header token : String) (m : UserTable) (payload : Claims)
    (row : UserEntity)
    → extract_token_from_header header ≡ some token
    → rt.verify token c.secret ≡ done payload
    → get payload.sub m ≡ some row
    → row.is_active ≡ true
    → can_activate rt c false (some header) m
      ≡ completed (some (request_user payload (to_user_response row)))
unfolding can_activate with_token truthy extract_token_from_header verify_access_token find_by_id
    active_user to_user_response
can_activate-verified rt c header token m payload row h v f a =
    elim (Bool-cases (str_eq header "")) [
      | inl e ↦ absurd (grind arith)
      | inr e ↦
          let text : truthy (some header) ≡ some header = rw (truthy, e) refl in
          let passed : with_token rt c token m
              ≡ completed (request_user payload (to_user_response row)) =
            rw (with_token, verify_access_token, v, find_by_id, f, active_user, to_user_response, a)
              refl in
          rw (can_activate, text, h, passed) refl
    ]

-- The tokens of a login are good for what they are meant for: with the library's promise the access token
-- of an active user, in a header that carries it, later passes the guard, and the refresh token gives the
-- same user the tokens that the library signs for him then.
pub generate_tokens-accepted :
    (rt later : AuthRuntime) (c : JwtConfig) (header : String) (m : UserTable) (row : UserEntity)
    (t new : JwtTokens)
    → Verifies rt later
    → get row.id m ≡ some row
    → row.is_active ≡ true
    → generate_tokens rt c (token_payload (authenticated row)) ≡ completed t
    → generate_tokens later c (token_payload (authenticated row)) ≡ completed new
    → extract_token_from_header header ≡ some t.access_token
    → ((u : RequestUser) × ((can_activate later c false (some header) m ≡ completed (some u))
          × ((u.id ≡ row.id) × (u.role ≡ "user"))))
      × (refresh_tokens later c t.refresh_token m
          ≡ completed (record { user = authenticated row; tokens = new }))
unfolding authenticated to_user_response request_user truthy refresh_tokens verify_refresh_token
    tokens_for with_tokens invalid_refresh
generate_tokens-accepted rt later c header m row t new law found a g again h =
    let p = token_payload (authenticated row) in
    let (access, refresh) = generate_tokens-inv rt c p t g in
    let v : later.verify t.refresh_token c.refresh_secret ≡ done (refresh_payload p) =
      law (refresh_payload p) c.refresh_secret t.refresh_token (some c.refresh_expires_in)
        refresh in
    let kept : verify_refresh_token later c t.refresh_token ≡ completed (refresh_payload p) =
      rw (verify_refresh_token, v) refl in
    (
      (
        request_user p (to_user_response row),
        (
          can_activate-verified later c header t.access_token m p row h
              (law p c.secret t.access_token (some c.expires_in) access) found a,
          (refl, refl),
        ),
      ),
      rw (refresh_tokens, kept, found, tokens_for, a, again) refl,
    )

-- Where no secret is set for refresh tokens, the refresh token of an active user later passes the guard as
-- well, as if it were an access token: the guard does not read the type of a token.
pub refresh_token-accepted :
    (rt later : AuthRuntime) (secret header : String) (life refresh_life : Option String)
    (m : UserTable) (payload : Claims) (row : UserEntity) (t : JwtTokens)
    → let c = jwt_config secret life none refresh_life in
      Verifies rt later
      → get payload.sub m ≡ some row
      → row.is_active ≡ true
      → generate_tokens rt c payload ≡ completed t
      → extract_token_from_header header ≡ some t.refresh_token
      → (u : RequestUser) × ((can_activate later c false (some header) m ≡ completed (some u))
          × ((u.id ≡ row.id) × (u.role ≡ "user")))
unfolding jwt_config to_user_response request_user truthy
refresh_token-accepted rt later secret header life refresh_life m payload row t law found a g h =
    let c = jwt_config secret life none refresh_life in
    let (access, refresh) = generate_tokens-inv rt c payload t g in
    (
      request_user (refresh_payload payload) (to_user_response row),
      (
        can_activate-verified later c header t.refresh_token m (refresh_payload payload) row h
            (law (refresh_payload payload) secret t.refresh_token (some c.refresh_expires_in)
              refresh)
            found a,
        (refl, refl),
      ),
    )
