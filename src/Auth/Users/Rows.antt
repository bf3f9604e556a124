-- ===== src/Auth/Users/Rows.antt =====
-- The rows of users: each under its id, and no address twice.
use v2_xrpl_tools.Prelude.{
  ℕ, ◌≡◌, ◌⊎◌, inl, inr, refl, sym, ap, ◌∙◌, subst, Bool, false, none, some, [], ◌∷◌, String,
  str_eq, eq_iff, Bool-cases, Option-cases, find?, arith,
}
use v2_xrpl_tools.Prelude.Map.{get-set, get, set}
use v2_xrpl_tools.Auth.Data.{UserEntity, UserTable}
use v2_xrpl_tools.Auth.Repository.{users, find_user_by_email, write_user}

abbrev pub IsKeyed : UserTable → Type 0
IsKeyed m = (id : String) (u : UserEntity) → get id m ≡ some u → u.id ≡ id

abbrev pub HasUniqueEmails : UserTable → Type 0
HasUniqueEmails m =
    (i j : String) (a b : UserEntity)
    → get i m ≡ some a
    → get j m ≡ some b
    → a.email ≡ b.email
    → i ≡ j

abbrev pub IsAccounts : UserTable → Type 0
IsAccounts m = IsKeyed m × HasUniqueEmails m

-- A row that a search over all rows did not find is not in the table.
pub find-get :
    (p : UserEntity → Bool) (m : UserTable) (id : String) (u : UserEntity)
    → find? p (users m) ≡ none
    → get id m ≡ some u
    → p u ≡ false
unfolding get
find-get p [] id u h k = grind arith
find-get p ((j, v) ∷ m) id u h k = elim (Bool-cases (str_eq j id)) [
  | inl e ↦ ground arith
  | inr e ↦ find-get p m id u (ground arith) (ground arith)
]

-- A row that is replaced by one with its id and its address.
pub set-IsAccounts :
    (id : String) (u v : UserEntity) (m : UserTable)
    → get id m ≡ some u
    → v.id ≡ u.id
    → v.email ≡ u.email
    → IsAccounts m
    → IsAccounts (set id v m)
set-IsAccounts id u v m h e f (keyed, unique) = (
  λ j a k. ground (arith, get-set id j v m, eq_iff id j, keyed id u h, keyed j a),
  λ i j a b k l same. ground (
    arith,
    get-set id i v m,
    get-set id j v m,
    eq_iff id i,
    eq_iff id j,
    unique i j a b,
    unique id j u b h,
    unique i id a u,
    unique id id u u h h,
  ),
)

pub write_user-IsAccounts :
    (now : ℕ) (id : String) (f : UserEntity → UserEntity) (m : UserTable)
    → ((u : UserEntity) → ((f u).id ≡ u.id) × ((f u).email ≡ u.email))
    → IsAccounts m
    → IsAccounts (write_user now id f m)
unfolding write_user
write_user-IsAccounts now id f m keeps h = elim (Option-cases (get id m)) [
  | inl e ↦ subst IsAccounts {x = m} {y = write_user now id f m} (rw (write_user, e) refl) h
  | inr (u, e) ↦
      let v : UserEntity = record (f u) { updated_at = now } in
      subst IsAccounts {x = set id v m} {y = write_user now id f m} (rw (write_user, e) refl)
        (set-IsAccounts id u v m e (keeps u).0 (keeps u).1 h)
]

-- what a table with a written row holds
pub get-set-some :
    (id i : String) (u a : UserEntity) (m : UserTable)
    → get i (set id u m) ≡ some a
    → ((id ≡ i) × (u ≡ a)) ⊎ (get i m ≡ some a)
get-set-some id i u a m h = elim (Bool-cases (str_eq id i)) [
  | inl e ↦ inl ((eq_iff id i).0 e, grind (arith, get-set id i u m))
  | inr e ↦ inr (grind (arith, get-set id i u m))
]

-- A new row whose address no other has.
pub new-IsAccounts :
    (lower : String → String) (id email : String) (u : UserEntity) (m : UserTable)
    → get id m ≡ none
    → find_user_by_email lower email m ≡ none
    → u.id ≡ id
    → u.email ≡ lower email
    → IsAccounts m
    → IsAccounts (set id u m)
new-IsAccounts lower id email u m fresh new e f (keyed, unique) =
    let other : (j : String) (a : UserEntity) → get j m ≡ some a → u.email ≡ a.email → ⊥ =
      λ j a k same.
        let no = find-get (λ v. str_eq v.email (lower email)) m j a new k in
        grind (arith, no, eq_iff a.email (lower email)) in
    (
      λ j a k. ground (arith, get-set id j u m, eq_iff id j, keyed j a),
      λ i j a b k l same. elim (get-set-some id i u a m k) [
        | inl (p, s) ↦ elim (get-set-some id j u b m l) [
          | inl (q, t) ↦ sym p ∙ q
          | inr t ↦ absurd (other j b t (ap (λ (w : UserEntity). w.email) s ∙ same))
        ]
        | inr s ↦ elim (get-set-some id j u b m l) [
          | inl (q, t) ↦ absurd (other i a s (ap (λ (w : UserEntity). w.email) t ∙ sym same))
          | inr t ↦ unique i j a b s t same
        ]
      ],
    )

-- A call that leaves the table, or writes one row, keeps the accounts.
pub either-IsAccounts :
    (now : ℕ) (id : String) (f : UserEntity → UserEntity) (m m' : UserTable)
    → ((u : UserEntity) → ((f u).id ≡ u.id) × ((f u).email ≡ u.email))
    → (m' ≡ m) ⊎ (m' ≡ write_user now id f m)
    → IsAccounts m
    → IsAccounts m'
either-IsAccounts now id f m m' keeps (inl e) h = subst IsAccounts (sym e) h
either-IsAccounts now id f m m' keeps (inr e) h =
    subst IsAccounts (sym e) (write_user-IsAccounts now id f m keeps h)
