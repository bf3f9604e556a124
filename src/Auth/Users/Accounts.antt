-- ===== src/Auth/Users/Accounts.antt =====
-- The table of users under all calls of the service.
use v2_xrpl_tools.Prelude.{
  ℕ, ◌≡◌, ◌⊎◌, inl, inr, refl, sym, subst, true, false, Option, none, some, [], String, arith,
}
use v2_xrpl_tools.Prelude.Map.{get}
use v2_xrpl_tools.Auth.Data.{UserTable, CreateUserDto, AuthRuntime, JwtConfig}
use v2_xrpl_tools.Auth.Repository.{
  column, find_user_by_email, create_user, email_exists, update_last_login, update_profile,
  update_password, deactivate_user, activate_user, mark_email_verified,
}
use v2_xrpl_tools.Auth.Users.{
  create, update_user_profile, change_password, deactivate, activate, verify_email, login,
  updated_response,
}
use v2_xrpl_tools.Auth.Users.Rows.{IsAccounts, new-IsAccounts, either-IsAccounts}

-- the calls of the service that can change the table
pub data UserCall : Type 0 where
  creation : String → ℕ → CreateUserDto → UserCall
  profile_update : ℕ → String → Option String → Option String → UserCall
  password_change : ℕ → String → String → String → UserCall
  deactivation activation verification : ℕ → String → UserCall
  login_call : ℕ → String → String → UserCall

unfoldable pub after_call : AuthRuntime → JwtConfig → UserCall → UserTable → UserTable
unfolding create update_user_profile change_password deactivate activate verify_email login
after_call rt c (creation id now d) m = (create rt id now d m).1
after_call rt c (profile_update now id first last) m = (update_user_profile now id first last m).1
after_call rt c (password_change now id old new) m = (change_password rt now id old new m).1
after_call rt c (deactivation now id) m = (deactivate now id m).1
after_call rt c (activation now id) m = (activate now id m).1
after_call rt c (verification now id) m = (verify_email now id m).1
after_call rt c (login_call now email password) m = (login rt c now email password m).1

-- a key that the database makes is new
abbrev pub IsFresh : UserCall → UserTable → Type 0
IsFresh (creation id now d) m = get id m ≡ none
IsFresh _ m = Unit

-- The tables that calls reach from the empty one.
pub data Reachable (rt : AuthRuntime) (c : JwtConfig) : UserTable → Type 0 where
  start : Reachable rt c []
  next :
      (m : UserTable) (k : UserCall)
      → Reachable rt c m
      → IsFresh k m
      → Reachable rt c (after_call rt c k m)

create-writes :
    (rt : AuthRuntime) (id : String) (now : ℕ) (d : CreateUserDto) (m : UserTable)
    → let m' = (create rt id now d m).1 in
      (m' ≡ m)
      ⊎ ((find_user_by_email rt.to_lower_case d.email m ≡ none)
          × ((h : String) × (m'
                ≡ (create_user rt.to_lower_case id now d.email h d.first_name d.last_name m).1)))
unfolding create email_exists
create-writes rt id now d m = grind arith

create-IsAccounts :
    (rt : AuthRuntime) (id : String) (now : ℕ) (d : CreateUserDto) (m : UserTable)
    → get id m ≡ none
    → IsAccounts m
    → IsAccounts (create rt id now d m).1
unfolding create_user
create-IsAccounts rt id now d m fresh h = elim (create-writes rt id now d m) [
  | inl e ↦ subst IsAccounts (sym e) h
  | inr (new, (hash, e)) ↦
      subst IsAccounts (sym e)
        (new-IsAccounts rt.to_lower_case id d.email _ m fresh new refl refl h)
]

profile-writes :
    (now : ℕ) (id : String) (first last : Option String) (m : UserTable)
    → let m' = (update_user_profile now id first last m).1 in
      (m' ≡ m) ⊎ (m' ≡ (update_profile now id first last m).1)
unfolding update_user_profile updated_response
profile-writes now id first last m = grind arith

password-writes :
    (rt : AuthRuntime) (now : ℕ) (id old new : String) (m : UserTable)
    → let m' = (change_password rt now id old new m).1 in
      (m' ≡ m) ⊎ ((h : String) × (m' ≡ update_password now id h m))
unfolding change_password
password-writes rt now id old new m = grind arith

login-writes :
    (rt : AuthRuntime) (c : JwtConfig) (now : ℕ) (email password : String) (m : UserTable)
    → let m' = (login rt c now email password m).1 in
      (m' ≡ m) ⊎ ((id : String) × (m' ≡ update_last_login now id m))
unfolding login
login-writes rt c now email password m = grind arith

switch-writes :
    (now : ℕ) (id : String) (m : UserTable)
    → (((deactivate now id m).1 ≡ m) ⊎ ((deactivate now id m).1 ≡ deactivate_user now id m))
      × ((((activate now id m).1 ≡ m) ⊎ ((activate now id m).1 ≡ activate_user now id m))
          × (((verify_email now id m).1 ≡ m)
              ⊎ ((verify_email now id m).1 ≡ mark_email_verified now id m)))
unfolding deactivate activate verify_email
switch-writes now id m = (grind arith, (grind arith, grind arith))

after_call-IsAccounts :
    (rt : AuthRuntime) (c : JwtConfig) (k : UserCall) (m : UserTable)
    → IsFresh k m
    → IsAccounts m
    → IsAccounts (after_call rt c k m)
unfolding after_call deactivate_user activate_user mark_email_verified update_profile
    update_password update_last_login
after_call-IsAccounts rt c (creation id now d) m fresh h = create-IsAccounts rt id now d m fresh h
after_call-IsAccounts rt c (profile_update now id first last) m fresh h =
    either-IsAccounts now id
      (λ u. record u {
        first_name = column first u.first_name;
        last_name = column last u.last_name;
      })
      m _ (λ u. (refl, refl)) (profile-writes now id first last m) h
after_call-IsAccounts rt c (password_change now id old new) m fresh h =
    elim (password-writes rt now id old new m) [
      | inl e ↦ subst IsAccounts (sym e) h
      | inr (hash, e) ↦
          either-IsAccounts now id (λ u. record u { password_hash = hash }) m _ (λ u. (refl, refl))
            (inr e) h
    ]
after_call-IsAccounts rt c (deactivation now id) m fresh h =
    either-IsAccounts now id (λ u. record u { is_active = false }) m _ (λ u. (refl, refl))
      (switch-writes now id m).0 h
after_call-IsAccounts rt c (activation now id) m fresh h =
    either-IsAccounts now id (λ u. record u { is_active = true }) m _ (λ u. (refl, refl))
      (switch-writes now id m).1.0 h
after_call-IsAccounts rt c (verification now id) m fresh h =
    either-IsAccounts now id (λ u. record u { email_verified = true }) m _ (λ u. (refl, refl))
      (switch-writes now id m).1.1 h
after_call-IsAccounts rt c (login_call now email password) m fresh h =
    elim (login-writes rt c now email password m) [
      | inl e ↦ subst IsAccounts (sym e) h
      | inr (id, e) ↦
          either-IsAccounts now id (λ u. record u { last_login_at = some now }) m _
            (λ u. (refl, refl)) (inr e) h
    ]

-- After any sequence of calls of the user service, where the keys of new users are new, every user stands
-- under his id, and no two users have the same address.
pub reach-IsAccounts :
    (rt : AuthRuntime) (c : JwtConfig) (m : UserTable) → Reachable rt c m → IsAccounts m
unfolding get
reach-IsAccounts rt c m start = (λ id u h. grind arith, λ i j a b h k e. grind arith)
reach-IsAccounts rt c m (next n k r fresh) =
    after_call-IsAccounts rt c k n fresh (reach-IsAccounts rt c n r)
