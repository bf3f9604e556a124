-- ===== src/Auth/Guard/Access.antt =====
-- Whom the guard lets pass.
use v2_xrpl_tools.Prelude.{
  ℕ, ◌≡◌, ◌≢◌, inl, inr, refl, sym, ap, ◌∙◌, true, false, Option, none, some, String, str_eq,
  eq_iff, Bool-cases, Option-cases, arith,
}
use v2_xrpl_tools.Prelude.Map.{get, set, get-set}
use v2_xrpl_tools.Prelude.Outcome.{done, outcome_cases}
use v2_xrpl_tools.Notification.Data.{truthy}
use v2_xrpl_tools.Auth.Data.{
  attempt_cases, completed, UserEntity, UserTable, Claims, LoginResult, AuthRuntime, JwtConfig,
}
use v2_xrpl_tools.Auth.Repository.{deactivate_user, write_user}
use v2_xrpl_tools.Auth.Tokens.{
  extract_token_from_header, verify_refresh_token, verify_access_token, generate_tokens,
}
use v2_xrpl_tools.Auth.Users.{
  deactivate, find_by_id, to_user_response, refresh_tokens, tokens_for, invalid_refresh,
  with_tokens, authenticated, token_payload,
}
use v2_xrpl_tools.Auth.Users.Rows.{IsKeyed}
use v2_xrpl_tools.Auth.Guard.{RequestUser, can_activate, with_token, active_user, request_user}

-- a token that passes, by the row of its user
with_token-inv :
    (rt : AuthRuntime) (c : JwtConfig) (token : String) (m : UserTable) (u : RequestUser)
    → with_token rt c token m ≡ completed u
    → (payload : Claims) × (row : UserEntity) × ((rt.verify token c.secret ≡ done payload)
        × ((get payload.sub m ≡ some row) × ((row.is_active ≡ true) × (u.id ≡ row.id))))
unfolding with_token verify_access_token find_by_id to_user_response active_user request_user
with_token-inv rt c token m u h = elim (outcome_cases (rt.verify token c.secret)) [
  | inl (x, e) ↦ absurd (grind arith)
  | inr (payload, e) ↦ elim (Option-cases (get payload.sub m)) [
    | inl f ↦ absurd (grind arith)
    | inr (row, f) ↦ elim (Bool-cases row.is_active) [
      | inr a ↦ absurd (grind arith)
      | inl a ↦ (payload, row, (e, (f, (a, grind arith))))
    ]
  ]
]

-- On a route that is not public the guard attaches only users with a row in the table that is active, by a
-- token in the header that the library has verified with the secret and that names this row.
pub can_activate-IsActive :
    (rt : AuthRuntime) (c : JwtConfig) (header : Option String) (m : UserTable) (u : RequestUser)
    → can_activate rt c false header m ≡ completed (some u)
    → (h : String) × (token : String) × (payload : Claims) × (row : UserEntity) × ((header ≡ some h)
        × ((extract_token_from_header h ≡ some token)
            × ((rt.verify token c.secret ≡ done payload)
                × ((get payload.sub m ≡ some row) × ((row.is_active ≡ true) × (u.id ≡ row.id))))))
unfolding can_activate truthy
can_activate-IsActive rt c none m u h = grind arith
can_activate-IsActive rt c (some text) m u h = elim (Option-cases (truthy (some text))) [
  | inl e ↦ absurd (grind arith)
  | inr (s, e) ↦ elim (Option-cases (extract_token_from_header s)) [
    | inl f ↦ absurd (grind arith)
    | inr (token, f) ↦ elim (attempt_cases (with_token rt c token m)) [
      | inl (x, g) ↦ absurd (grind arith)
      | inr (v, g) ↦
          let same : v ≡ u = grind arith in
          let (payload, row, proof) =
            with_token-inv rt c token m u (g ∙ ap (λ w. completed w) same) in
          let kept : text ≡ s = grind arith in
          (text, token, payload, row, (refl, (ap extract_token_from_header kept ∙ f, proof)))
    ]
  ]
]

tokens_for-inv :
    (rt : AuthRuntime) (c : JwtConfig) (o : Option UserEntity) (r : LoginResult)
    → invalid_refresh (tokens_for rt c o) ≡ completed r
    → (row : UserEntity) × ((o ≡ some row) × ((row.is_active ≡ true) × (r.user.id ≡ row.id)))
unfolding tokens_for invalid_refresh with_tokens authenticated
tokens_for-inv rt c none r h = grind arith
tokens_for-inv rt c (some u) r h = elim (Bool-cases u.is_active) [
  | inr a ↦ absurd (grind arith)
  | inl a ↦ elim (attempt_cases (generate_tokens rt c (token_payload (authenticated u)))) [
    | inl (x, g) ↦ absurd (grind arith)
    | inr (t, g) ↦
        let same : r ≡ record { user = authenticated u; tokens = t } = grind arith in
        (u, (refl, (a, ap (λ (x : LoginResult). x.user.id) same)))
  ]
]

refresh_tokens-inv :
    (rt : AuthRuntime) (c : JwtConfig) (token : String) (m : UserTable) (r : LoginResult)
    → refresh_tokens rt c token m ≡ completed r
    → (sub : String) × (row : UserEntity) × ((get sub m ≡ some row)
        × ((row.is_active ≡ true) × (r.user.id ≡ row.id)))
unfolding refresh_tokens invalid_refresh
refresh_tokens-inv rt c token m r h = elim (attempt_cases (verify_refresh_token rt c token)) [
  | inl (x, e) ↦ absurd (grind arith)
  | inr (payload, e) ↦
      let (row, proof) = tokens_for-inv rt c (get payload.sub m) r (grind arith) in
      (payload.sub, row, proof)
]

-- an active row of the table after a deactivation is another one's
deactivate-active :
    (now : ℕ) (id sub : String) (m : UserTable) (row : UserEntity)
    → IsKeyed m
    → get sub (deactivate now id m).1 ≡ some row
    → row.is_active ≡ true
    → row.id ≢ id
unfolding deactivate deactivate_user write_user
deactivate-active now id sub m row keyed h a same = elim (Option-cases (get id m)) [
  | inl e ↦
      let left : (deactivate now id m).1 ≡ m = rw (deactivate, e) refl in
      let found : get sub m ≡ some row = ap (get sub) (sym left) ∙ h in
      grind (arith, keyed sub row found)
  | inr (u, e) ↦
      let v : UserEntity = record u { is_active = false; updated_at = now } in
      let left : (deactivate now id m).1 ≡ set id v m =
        rw (deactivate, deactivate_user, write_user, e) refl in
      let found : get sub (set id v m) ≡ some row = ap (get sub) (sym left) ∙ h in
      elim (Bool-cases (str_eq id sub)) [
        | inl k ↦ grind (arith, get-set id sub v m)
        | inr k ↦ grind (arith, get-set id sub v m, keyed sub row, eq_iff id sub)
      ]
]

-- In a table with each user under his id, a deactivated user is locked out, whatever tokens he still has:
-- the guard attaches him to no request, and no refresh of tokens returns him.
pub deactivate-locked_out :
    (rt : AuthRuntime) (c : JwtConfig) (now : ℕ) (id : String) (m : UserTable)
    → IsKeyed m
    → let m' = (deactivate now id m).1 in
      ((header : Option String) (u : RequestUser)
        → can_activate rt c false header m' ≡ completed (some u)
        → u.id ≢ id)
      × ((token : String) (r : LoginResult)
          → refresh_tokens rt c token m' ≡ completed r
          → r.user.id ≢ id)
deactivate-locked_out rt c now id m keyed = (
  λ header u h same.
      let (_, _, payload, row, (_, (_, (_, (found, (a, e)))))) =
        can_activate-IsActive rt c header (deactivate now id m).1 u h in
      deactivate-active now id payload.sub m row keyed found a (sym e ∙ same),
  λ token r h same.
      let (sub, row, (found, (a, e))) = refresh_tokens-inv rt c token (deactivate now id m).1 r h in
      deactivate-active now id sub m row keyed found a (sym e ∙ same),
)
