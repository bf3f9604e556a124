-- ===== src/Auth/Guard/Registration.antt =====
-- A registered user can log in.
use v2_xrpl_tools.Prelude.{
  ℕ, ◌≡◌, ◌⊎◌, inl, inr, refl, sym, ap, ◌∙◌, Bool, true, false, none, some, [], ◌∷◌, ◌++◌, String,
  str_eq, eq_iff, Bool-cases, Option-cases, find?, arith,
}
use v2_xrpl_tools.Prelude.Map.{get, set, set-new}
use v2_xrpl_tools.Prelude.Outcome.{Outcome, done, raised}
use v2_xrpl_tools.Auth.Data.{
  AuthenticatedUser, HttpError, unauthorized_exception, conflict_exception, attempt_cases,
  completed, failed, UserEntity, UserTable, CreateUserDto, LoginResult, JwtTokens, AuthRuntime,
  JwtConfig,
}
use v2_xrpl_tools.Auth.Repository.{
  users, find_user_by_email, create_user, write_user, email_exists, update_last_login,
}
use v2_xrpl_tools.Auth.Tokens.{generate_tokens}
use v2_xrpl_tools.Auth.Users.{
  weak_password, hash_password, create, login, authenticated, validate_user, compare_password,
  token_payload, with_tokens,
}
use v2_xrpl_tools.Auth.Guard.{register, RegisterDto, create_user_dto}

find-last :
    (p : UserEntity → Bool) (m : UserTable) (id : String) (u : UserEntity)
    → find? p (users m) ≡ none
    → p u ≡ true
    → find? p (users (m ++ (id, u) ∷ [])) ≡ some u
find-last p [] id u h k = rw (k) refl
find-last p ((j, v) ∷ m) id u h k = elim (Bool-cases (p v)) [
  | inl e ↦ grind arith
  | inr e ↦ rw (e) (find-last p m id u (ground arith) k)
]

-- A row behind all others is replaced where it stands.
set-last :
    (id : String) (u v : UserEntity) (m : UserTable)
    → get id m ≡ none
    → set id v (m ++ (id, u) ∷ []) ≡ m ++ (id, v) ∷ []
unfolding get set
set-last id u v [] h = ground (arith, eq_iff id id)
set-last id u v ((j, w) ∷ m) h = elim (Bool-cases (str_eq j id)) [
  | inl e ↦ grind arith
  | inr e ↦ rw (e) (ap (λ t. (j, w) ∷ t) (set-last id u v m (ground arith)))
]

get-last :
    (id : String) (u : UserEntity) (m : UserTable)
    → get id m ≡ none
    → get id (m ++ (id, u) ∷ []) ≡ some u
unfolding get
get-last id u [] h = ground (arith, eq_iff id id)
get-last id u ((j, w) ∷ m) h = ground (arith, get-last id u m)

login-success :
    (rt : AuthRuntime) (c : JwtConfig) (now : ℕ) (email password : String) (m : UserTable)
    (u : UserEntity) (t : JwtTokens)
    → find_user_by_email rt.to_lower_case email m ≡ some u
    → u.is_active ≡ true
    → compare_password rt password u.password_hash ≡ true
    → generate_tokens rt c (token_payload (authenticated u)) ≡ completed t
    → (login rt c now email password m).0
      ≡ completed (record { user = authenticated u; tokens = t })
unfolding login validate_user with_tokens
login-success rt c now email password m u t f a k g = rw (login, validate_user, f, a, k, g) refl

-- a login that succeeds, by the user that it finds
login-inv :
    (rt : AuthRuntime) (c : JwtConfig) (now : ℕ) (email password : String) (m : UserTable)
    (u : UserEntity) (r : LoginResult)
    → find_user_by_email rt.to_lower_case email m ≡ some u
    → (login rt c now email password m).0 ≡ completed r
    → ((u.is_active ≡ true) × (compare_password rt password u.password_hash ≡ true))
      × (((r.user ≡ authenticated u)
            × (generate_tokens rt c (token_payload (authenticated u)) ≡ completed r.tokens))
          × ((login rt c now email password m).1 ≡ update_last_login now u.id m))
unfolding login validate_user with_tokens
login-inv rt c now email password m u r f h = elim (Bool-cases u.is_active) [
  | inr a ↦
      let no : (login rt c now email password m).0
          ≡ failed (unauthorized_exception "Invalid email or password") =
        rw (login, validate_user, f, a) refl in
      absurd (grind (arith, no))
  | inl a ↦ elim (Bool-cases (compare_password rt password u.password_hash)) [
    | inr k ↦
        let no : (login rt c now email password m).0
            ≡ failed (unauthorized_exception "Invalid email or password") =
          rw (login, validate_user, f, a, k) refl in
        absurd (grind (arith, no))
    | inl k ↦ elim (attempt_cases (generate_tokens rt c (token_payload (authenticated u)))) [
      | inl (e, g) ↦
          let no : (login rt c now email password m).0 ≡ failed e =
            rw (login, validate_user, f, a, k, g) refl in
          absurd (grind (arith, no))
      | inr (t, g) ↦
          let yes = login-success rt c now email password m u t f a k g in
          let same : r ≡ record { user = authenticated u; tokens = t } = grind (arith, yes) in
          (
            (a, k),
            (
              (
                ap (λ (x : LoginResult). x.user) same,
                g ∙ ap (λ (x : LoginResult). completed x.tokens) (sym same),
              ),
              rw (login, validate_user, f, a, k) refl,
            ),
          )
    ]
  ]
]

create-inv :
    (rt : AuthRuntime) (id : String) (now : ℕ) (d : CreateUserDto) (m : UserTable)
    → ((e : HttpError) × ((create rt id now d m).0 ≡ failed e))
      ⊎ ((find_user_by_email rt.to_lower_case d.email m ≡ none)
          × ((h : String) × ((create rt id now d m).1
                ≡ (create_user rt.to_lower_case id now d.email h d.first_name d.last_name m).1)))
unfolding create email_exists
create-inv rt id now d m = elim (Option-cases (find_user_by_email rt.to_lower_case d.email m)) [
  | inr (u, e) ↦
      inl (
        conflict_exception "User with this email already exists",
        rw (create, email_exists, e) refl,
      )
  | inl e ↦ elim (Option-cases (weak_password d.password)) [
    | inr (x, f) ↦ inl (x, rw (create, email_exists, e, f) refl)
    | inl f ↦ elim (attempt_cases (hash_password rt d.password)) [
      | inl (x, g) ↦ inl (x, rw (create, email_exists, e, f, g) refl)
      | inr (h, g) ↦ inr (e, (h, rw (create, email_exists, e, f, g) refl))
    ]
  ]
]

-- a registration that succeeds has made the user and logged him in
register-inv :
    (rt : AuthRuntime) (c : JwtConfig) (id : String) (now later : ℕ) (d : RegisterDto)
    (m : UserTable) (r : LoginResult)
    → (register rt c id now later d m).0 ≡ completed r
    → let m' = (create rt id now (create_user_dto d) m).1 in
      ((find_user_by_email rt.to_lower_case d.email m ≡ none)
        × ((h : String) × (m'
              ≡ (create_user rt.to_lower_case id now d.email h
                  (create_user_dto d).first_name
                  (create_user_dto d).last_name
                  m).1)))
      × (register rt c id now later d m ≡ login rt c later d.email d.password m')
unfolding register create_user_dto
register-inv rt c id now later d m r h = elim (Bool-cases (str_eq d.password d.confirm_password)) [
  | inr e ↦
      let no : (register rt c id now later d m).0
          ≡ failed (unauthorized_exception "Passwords do not match") =
        rw (register, e) refl in
      absurd (grind (arith, no))
  | inl e ↦ elim (attempt_cases (create rt id now (create_user_dto d) m).0) [
    | inl (x, f) ↦
        let no : (register rt c id now later d m).0 ≡ failed x = rw (register, e, f) refl in
        absurd (grind (arith, no))
    | inr (u, f) ↦ elim (create-inv rt id now (create_user_dto d) m) [
      | inl (x, g) ↦ absurd (grind (arith, f, g))
      | inr g ↦ (g, rw (register, e, f) refl)
    ]
  ]
]

compare_password-eq :
    (rt other : AuthRuntime) (p h : String)
    → other.compare ≡ rt.compare
    → compare_password other p h ≡ compare_password rt p h
unfolding compare_password
compare_password-eq rt other p h e =
    ap
      (λ (f : String → String → Outcome Bool). elim (f p h) as (λ x. Bool) [
        | done b ↦ b
        | raised m ↦ false
      ])
      e

-- A user who registered with success, under a new key, can log in at any later time, where the library then
-- signs tokens for him, with the password that he gave and any address of the same lower case; he gets the
-- tokens that are signed then, for the user that the registration gave him. Lower case and the check of a
-- password do not hang on the time.
pub register-login :
    (rt then_rt : AuthRuntime) (c : JwtConfig) (id email : String) (now later again : ℕ)
    (d : RegisterDto) (m : UserTable) (r : LoginResult) (t : JwtTokens)
    → then_rt.to_lower_case ≡ rt.to_lower_case
    → then_rt.compare ≡ rt.compare
    → get id m ≡ none
    → rt.to_lower_case email ≡ rt.to_lower_case d.email
    → (register rt c id now later d m).0 ≡ completed r
    → generate_tokens then_rt c (token_payload (record r.user { updated_at = later })) ≡ completed t
    → (login then_rt c again email d.password (register rt c id now later d m).1).0
      ≡ completed (record { user = record r.user { updated_at = later }; tokens = t })
unfolding create_user update_last_login write_user authenticated
register-login rt then_rt c id email now later again d m r t lower checks fresh same h signs =
    let ((absent, (hash, made)), logged) = register-inv rt c id now later d m r h in
    let u : UserEntity =
      (create_user rt.to_lower_case id now d.email hash (create_user_dto d).first_name
        (create_user_dto d).last_name m).0 in
    let v : UserEntity = record u { last_login_at = some later; updated_at = later } in
    let table : UserTable = m ++ (id, u) ∷ [] in
    let own : str_eq (rt.to_lower_case d.email) (rt.to_lower_case d.email) ≡ true =
      (eq_iff (rt.to_lower_case d.email) (rt.to_lower_case d.email)).1 refl in
    let first : register rt c id now later d m ≡ login rt c later d.email d.password table =
      logged ∙ ap (λ x. login rt c later d.email d.password x) (made ∙ set-new id u m fresh) in
    let ((active, right), ((shown, signed), written)) =
      login-inv rt c later d.email d.password table u r
        (find-last (λ w. str_eq w.email (rt.to_lower_case d.email)) m id u absent own)
        (sym (ap (λ x. x.0) first) ∙ h) in
    let stamped : update_last_login later id table ≡ set id v table =
      rw (update_last_login, write_user, get-last id u m fresh) refl in
    let after : (register rt c id now later d m).1 ≡ m ++ (id, v) ∷ [] =
      ap (λ x. x.1) first ∙ (written ∙ (stamped ∙ set-last id u v m fresh)) in
    let named : then_rt.to_lower_case email ≡ rt.to_lower_case d.email =
      ap (λ f. f email) lower ∙ same in
    let found : find_user_by_email then_rt.to_lower_case email (m ++ (id, v) ∷ []) ≡ some v =
      ap (λ x. find? (λ w. str_eq w.email x) (users (m ++ (id, v) ∷ []))) named
      ∙ find-last (λ w. str_eq w.email (rt.to_lower_case d.email)) m id v absent own in
    let checked : compare_password then_rt d.password v.password_hash ≡ true =
      compare_password-eq rt then_rt d.password v.password_hash checks ∙ right in
    let shown_v : record r.user { updated_at = later } ≡ authenticated v =
      ap (λ (x : AuthenticatedUser). record x { updated_at = later }) shown in
    let renewed : generate_tokens then_rt c (token_payload (authenticated v)) ≡ completed t =
      ap (λ x. generate_tokens then_rt c (token_payload x)) (sym shown_v) ∙ signs in
    ap (λ x. (login then_rt c again email d.password x).0) after
    ∙ (login-success then_rt c again email d.password (m ++ (id, v) ∷ []) v t found active checked
          renewed
        ∙ ap (λ x. completed (record { user = x; tokens = t })) (sym shown_v))
