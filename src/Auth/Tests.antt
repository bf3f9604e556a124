-- ===== src/Auth/Tests.antt =====
-- Users and tokens on concrete input.
use v2_xrpl_tools.Prelude.{
  ◌-◌, ◌≡◌, ◌≢◌, refl, sym, ap, ◌∙◌, Bool, true, false, ◌&&◌, Option, none, some, [], ◌∷◌, String,
  str_eq, eq_iff, arith, ltb, if◌then◌else◌, Bool-cases, inl, inr,
}
use v2_xrpl_tools.Prelude.Map
use v2_xrpl_tools.Prelude.Map.{get}
use v2_xrpl_tools.Prelude.Outcome.{done, raised}
use v2_xrpl_tools.Auth.Data.{
  completed, UserEntity, UserTable, Claims, JwtTokens, LoginResult, AuthRuntime, JwtConfig,
}
use v2_xrpl_tools.Auth.Passwords.{validate_password_strength, generate_random_password}
use v2_xrpl_tools.Auth.Passwords.Generated.{generate_random_password-valid}
use v2_xrpl_tools.Auth.Tokens.{
  jwt_config, generate_tokens, refresh_payload, extract_token_from_header,
}
use v2_xrpl_tools.Auth.Users.{authenticated, deactivate, login, refresh_tokens}
use v2_xrpl_tools.Auth.Users.Rows.{IsAccounts, IsKeyed}
use v2_xrpl_tools.Auth.Users.Accounts.{
  start, next, creation, deactivation, after_call, reach-IsAccounts,
}
use v2_xrpl_tools.Auth.Guard.{RegisterDto, RequestUser, register, can_activate}
use v2_xrpl_tools.Auth.Guard.Registration.{register-login}
use v2_xrpl_tools.Auth.Guard.Access.{can_activate-IsActive, deactivate-locked_out}
use v2_xrpl_tools.Auth.Guard.Refresh.{Verifies, generate_tokens-accepted, refresh_token-accepted}

opt_eq : Option String → Option String → Bool
opt_eq none none = true
opt_eq (some a) (some b) = str_eq a b
opt_eq _ _ = false

opt_eq-true : (a b : Option String) → opt_eq a b ≡ true → a ≡ b
unfolding opt_eq
opt_eq-true none none h = refl
opt_eq-true none (some b) h = grind arith
opt_eq-true (some a) none h = grind arith
opt_eq-true (some a) (some b) h = ap some ((eq_iff a b).0 h)

claims_eq : Claims → Claims → Bool
claims_eq p q =
    str_eq p.sub q.sub
    && (opt_eq p.email q.email
        && (opt_eq p.role q.role && (opt_eq p.type q.type && opt_eq p.created_at q.created_at)))

claims_eq-true : (p q : Claims) → claims_eq p q ≡ true → p ≡ q
unfolding claims_eq
claims_eq-true p q h =
    let e0 : p.sub ≡ q.sub = ground (arith, eq_iff p.sub q.sub) in
    let e1 : p.email ≡ q.email = opt_eq-true _ _ (ground arith) in
    let e2 : p.role ≡ q.role = opt_eq-true _ _ (ground arith) in
    let e3 : p.type ≡ q.type = opt_eq-true _ _ (ground arith) in
    let e4 : p.created_at ≡ q.created_at = opt_eq-true _ _ (ground arith) in
    λ i. record { sub = e0 i; email = e1 i; role = e2 i; type = e3 i; created_at = e4 i }

abbrev bob : UserEntity
bob = record {
  id = "1";
  email = "b@x";
  password_hash = "h";
  first_name = none;
  last_name = none;
  is_active = true;
  email_verified = false;
  last_login_at = none;
  created_at = 1;
  updated_at = 1;
}

abbrev bobs : Claims
bobs = record { sub = "1"; email = some "b@x"; role = some "user"; type = none; created_at = none }

abbrev runtime : AuthRuntime
runtime = record {
  to_lower_case = λ s. if str_eq s "B@x" then "b@x" else s;
  hash = λ p. done "h";
  compare = λ p h. done true;
  sign = λ p key life.
      if claims_eq p bobs
      then done "access"
      else if claims_eq p (refresh_payload bobs)
      then done "refresh"
      else raised "claims";
  verify = λ t key.
      if str_eq t "access"
      then done bobs
      else if str_eq t "refresh"
      then done (refresh_payload bobs)
      else raised "token";
}

-- the library at a later time: what it signs is new, and what it signed still lasts
abbrev later_runtime : AuthRuntime
later_runtime = record runtime {
  sign = λ p key life.
      if claims_eq p bobs
      then done "access later"
      else if claims_eq p (refresh_payload bobs)
      then done "refresh later"
      else raised "claims";
}

runtime-Verifies : Verifies runtime later_runtime
runtime-Verifies p key token life h = elim (Bool-cases (claims_eq p bobs)) [
  | inl e ↦
      let t : "access" ≡ token = grind arith in
      let shown : runtime.verify token key ≡ done bobs = ap (λ x. runtime.verify x key) (sym t) in
      shown ∙ ap (λ x. done x) (sym (claims_eq-true p bobs e))
  | inr e ↦ elim (Bool-cases (claims_eq p (refresh_payload bobs))) [
    | inr f ↦ absurd (grind arith)
    | inl f ↦
        let t : "refresh" ≡ token = grind arith in
        let shown : runtime.verify token key ≡ done (refresh_payload bobs) =
          ap (λ x. runtime.verify x key) (sym t) in
        shown ∙ ap (λ x. done x) (sym (claims_eq-true p (refresh_payload bobs) f))
  ]
]

abbrev settings : JwtConfig
settings = jwt_config "key" none none none

abbrev both : JwtTokens
both = record { access_token = "access"; refresh_token = "refresh"; expires_in = "7d" }

abbrev later_both : JwtTokens
later_both = record {
  access_token = "access later";
  refresh_token = "refresh later";
  expires_in = "7d";
}

abbrev table : UserTable
table = ("1", bob) ∷ []

abbrev wanted : RegisterDto
wanted = record {
  email = "b@x";
  password = "Abcdef1!";
  confirm_password = "Abcdef1!";
  first_name = none;
  last_name = none;
}

abbrev logged_in : LoginResult
logged_in = record { user = unfold authenticated in authenticated bob; tokens = both }

register-login_example :
    (login later_runtime settings 9 "B@x" "Abcdef1!"
      (register runtime settings "1" 1 2 wanted []).1).0
    ≡ completed
        (record { user = record (authenticated bob) { updated_at = 2 }; tokens = later_both })
unfolding get register generate_tokens authenticated Map.set claims_eq opt_eq jwt_config
register-login_example =
    register-login runtime later_runtime settings "1" "B@x" 1 2 9 wanted []
      (record { user = authenticated bob; tokens = both }) later_both refl refl refl refl refl refl

generate_random_password-valid_example :
    validate_password_strength (generate_random_password (λ k n. n - n) (λ s. s) 16) ≡ []
generate_random_password-valid_example =
    generate_random_password-valid (λ k n. n - n) (λ s. s) 16 (λ k n h. omega arith)
      (λ s. (refl, λ c. refl)) (omega arith) (omega arith)

-- The last draw of the range for the symbol leaves a password of twelve characters without one.
undefined_symbol :
    validate_password_strength (
      generate_random_password
        (λ k n. if ltb 26 n then (if ltb n 28 then 26 else 0) else 0)
        (λ s. s)
        12)
    ≡ "Password must contain at least one special character" ∷ []
unfolding validate_password_strength generate_random_password
undefined_symbol = refl

generate_tokens-accepted_example :
    ((u : RequestUser) × ((can_activate later_runtime settings false (some "Bearer access") table
          ≡ completed (some u))
        × ((u.id ≡ "1") × (u.role ≡ "user"))))
    × (refresh_tokens later_runtime settings "refresh" table
        ≡ completed (record { user = authenticated bob; tokens = later_both }))
unfolding get generate_tokens claims_eq authenticated opt_eq jwt_config extract_token_from_header
generate_tokens-accepted_example =
    generate_tokens-accepted runtime later_runtime settings "Bearer access" table bob both
      later_both runtime-Verifies refl refl refl refl refl

refresh_token-accepted_example :
    (u : RequestUser) × ((can_activate later_runtime settings false (some "Bearer refresh") table
        ≡ completed (some u))
      × ((u.id ≡ "1") × (u.role ≡ "user")))
unfolding get generate_tokens claims_eq opt_eq jwt_config extract_token_from_header
refresh_token-accepted_example =
    refresh_token-accepted runtime later_runtime "key" "Bearer refresh" none none table bobs bob
      both runtime-Verifies refl refl refl refl

can_activate-IsActive_example :
    (h : String) × (token : String) × (payload : Claims) × (row : UserEntity) × ((some
          "Bearer access"
        ≡ some h)
      × ((extract_token_from_header h ≡ some token)
          × ((runtime.verify token settings.secret ≡ done payload)
              × ((get payload.sub table ≡ some row) × ((row.is_active ≡ true) × ("1" ≡ row.id))))))
unfolding can_activate get
can_activate-IsActive_example =
    can_activate-IsActive runtime settings (some "Bearer access") table
      (record { id = "1"; email = "b@x"; role = "user"; first_name = none; last_name = none }) refl

table-IsKeyed : IsKeyed table
unfolding get
table-IsKeyed j u h = ground (arith, eq_iff "1" j)

deactivate-locked_out_example :
    ((header : Option String) (u : RequestUser)
      → can_activate runtime settings false header (deactivate 5 "1" table).1 ≡ completed (some u)
      → u.id ≢ "1")
    × ((token : String) (r : LoginResult)
        → refresh_tokens runtime settings token (deactivate 5 "1" table).1 ≡ completed r
        → r.user.id ≢ "1")
deactivate-locked_out_example = deactivate-locked_out runtime settings 5 "1" table table-IsKeyed

reach-IsAccounts_example : IsAccounts (
    after_call runtime settings (deactivation 7 "1") (
      after_call runtime settings
        (creation "1" 1
          (record { email = "b@x"; password = "Abcdef1!"; first_name = none; last_name = none }))
        []))
unfolding get
reach-IsAccounts_example = reach-IsAccounts runtime settings _ (
    next _ (deactivation 7 "1")
      (next []
        (creation "1" 1
          (record { email = "b@x"; password = "Abcdef1!"; first_name = none; last_name = none }))
        start refl)
      tt)
