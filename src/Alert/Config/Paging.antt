-- ===== src/Alert/Config/Paging.antt =====
-- The pages of a user's alerts.
use native.Mathlib.Nat.{div-add-mod', mod-lt}
use v2_xrpl_tools.Prelude.{
  ℕ, zero, suc, ◌+◌, ◌-◌, ◌*◌, ◌%◌, ◌≤◌, ◌<◌, ◌≡◌, refl, sym, ap, ◌∙◌, subst, inl, inr, Bool, ◌&&◌,
  Option, none, some, List, [], ◌∷◌, ◌++◌, String, str_eq, arith, Bool-cases, ltb, length, filter,
  take, drop, take-add, drop-add, take-all, All,
}
use v2_xrpl_tools.Notification.Data.{truthy}
use v2_xrpl_tools.Alert.Data.{AlertConfigEntity}
use v2_xrpl_tools.Alert.Repository
use v2_xrpl_tools.Alert.Repository.{
  Table, alerts, selects, has_state, has_collection, insert_newest, newest_first, limited, skipped,
}
use v2_xrpl_tools.Alert.Config.Listing.{ListOptions, page_of, total_pages, find_by_user_id}

-- `Math.ceil(total / limit)` pages of the limit hold the total.
total_pages-enough : (t l : ℕ) → 0 < l → t ≤ total_pages t l * l
unfolding total_pages
total_pages-enough t l h =
    let e = div-add-mod' (t + (l - 1)) l in
    let r : (t + (l - 1)) % l < l = mod-lt (t + (l - 1)) h in omega (arith, e, r)

truthy-truthy : (s : Option String) → truthy (truthy s) ≡ truthy s
unfolding truthy
truthy-truthy none = refl
truthy-truthy (some s) = ground arith

abbrev limit_of : Option ℕ → ℕ
unfolding page_of
limit_of limit = (page_of none limit).limit

limit_of_pos : (limit : Option ℕ) → 0 < limit_of limit
unfolding page_of
limit_of_pos none = omega arith
limit_of_pos (some zero) = omega arith
limit_of_pos (some (suc n)) = omega arith

limited-take : (n : ℕ) (list : List AlertConfigEntity) → 0 < n → limited (some n) list ≡ take n list
unfolding limited
limited-take zero list h = absurd (omega arith)
limited-take (suc n) list h = refl

-- the alerts of the user that the conditions select
abbrev pub selected : String → ListOptions → Table → List AlertConfigEntity
selected user o m = filter (selects user o.is_active o.collection_id) (alerts m)

-- the alerts of `n` pages from page `p` on
abbrev pages : String → ListOptions → ℕ → ℕ → Table → List AlertConfigEntity
pages user o zero p m = []
pages user o (suc n) p m =
    (find_by_user_id user (record o { page = some p }) m).alerts ++ pages user o n (suc p) m

abbrev pub all_pages : String → ListOptions → Table → List AlertConfigEntity
all_pages user o m = pages user o (find_by_user_id user o m).total_pages 1 m

selects-truthy :
    (user : String) (state : Option Bool) (c : Option String)
    → selects user state (truthy c) ≡ selects user state c
unfolding selects
selects-truthy user state c =
    ap
      (λ w. λ a.
        str_eq a.user_id user && (has_state state a.is_active && has_collection w a.collection_id))
      (truthy-truthy c)

page-window :
    (user : String) (o : ListOptions) (i : ℕ) (m : Table)
    → (find_by_user_id user (record o { page = some (suc i) }) m).alerts
      ≡ take (limit_of o.limit) (drop (i * limit_of o.limit) (newest_first (selected user o m)))
unfolding find_by_user_id Repository.find_by_user_id page_of skipped
page-window user o i m =
    let size = limit_of o.limit in
    let j : suc i - 1 ≡ i = omega arith in
    let k : (suc i - 1) * size ≡ i * size = ap (λ n. n * size) j in
    let rows =
      newest_first (filter (selects user o.is_active (truthy o.collection_id)) (alerts m)) in
    limited-take size (drop ((suc i - 1) * size) rows) (limit_of_pos o.limit)
    ∙ ap (λ n. take size (drop n rows)) k
    ∙ ap (λ p. take size (drop (i * size) (newest_first (filter p (alerts m)))))
        (selects-truthy user o.is_active o.collection_id)

-- `n` pages in a row are one window.
pages-window :
    (user : String) (o : ListOptions) (n i : ℕ) (m : Table)
    → pages user o n (suc i) m
      ≡ take (n * limit_of o.limit) (drop (i * limit_of o.limit) (newest_first (selected user o m)))
pages-window user o zero i m =
    let size = limit_of o.limit in
    let none_left : 0 ≡ zero * size = omega arith in
    ap (λ k. take k (drop (i * size) (newest_first (selected user o m)))) none_left
pages-window user o (suc n) i m =
    let size = limit_of o.limit in
    let rows = newest_first (selected user o m) in
    let next : suc i * size ≡ i * size + size = omega arith in
    let total : size + n * size ≡ suc n * size = omega arith in
    ap (λ l. l ++ pages user o n (suc (suc i)) m) (page-window user o i m)
    ∙ ap (λ l. take size (drop (i * size) rows) ++ l)
        (pages-window user o n (suc i) m
          ∙ ap (λ k. take (n * size) (drop k rows)) next
          ∙ ap (take (n * size)) (drop-add (i * size) size rows))
    ∙ sym (take-add size (n * size) (drop (i * size) rows))
    ∙ ap (λ k. take k (drop (i * size) rows)) total

length-insert_newest :
    (a : AlertConfigEntity) (list : List AlertConfigEntity)
    → length (insert_newest a list) ≡ suc (length list)
unfolding insert_newest
length-insert_newest a [] = refl
length-insert_newest a (b ∷ list) = ground (arith, length-insert_newest a list)

length-newest_first : (list : List AlertConfigEntity) → length (newest_first list) ≡ length list
unfolding newest_first
length-newest_first [] = refl
length-newest_first (a ∷ list) =
    length-insert_newest a (newest_first list) ∙ ap suc (length-newest_first list)

filter-insert_newest :
    (q : AlertConfigEntity → Bool) (a : AlertConfigEntity) (list : List AlertConfigEntity)
    → length (filter q (insert_newest a list)) ≡ length (filter q (a ∷ list))
unfolding insert_newest
filter-insert_newest q a [] = refl
filter-insert_newest q a (b ∷ list) = ground (arith, filter-insert_newest q a list)

filter-newest_first :
    (q : AlertConfigEntity → Bool) (list : List AlertConfigEntity)
    → length (filter q (newest_first list)) ≡ length (filter q list)
unfolding newest_first
filter-newest_first q [] = refl
filter-newest_first q (a ∷ list) =
    ground (arith, filter-insert_newest q a (newest_first list), filter-newest_first q list)

-- Every alert of the list was created by the time `t`.
abbrev pub IsUntil : ℕ → List AlertConfigEntity → Type 0
IsUntil t = All (λ a. a.created_at ≤ t)

abbrev pub IsNewestFirst : List AlertConfigEntity → Type 0
IsNewestFirst [] = Unit
IsNewestFirst (a ∷ list) = IsUntil a.created_at list × IsNewestFirst list

IsUntil-mono : (t u : ℕ) (list : List AlertConfigEntity) → t ≤ u → IsUntil t list → IsUntil u list
IsUntil-mono t u [] h k = tt
IsUntil-mono t u (a ∷ list) h (p, k) = (omega arith, IsUntil-mono t u list h k)

IsUntil-insert_newest :
    (t : ℕ) (a : AlertConfigEntity) (list : List AlertConfigEntity)
    → a.created_at ≤ t
    → IsUntil t list
    → IsUntil t (insert_newest a list)
unfolding insert_newest
IsUntil-insert_newest t a [] h k = (h, tt)
IsUntil-insert_newest t a (b ∷ list) h (p, k) = ground (arith, IsUntil-insert_newest t a list h k)

insert_newest-IsNewestFirst :
    (a : AlertConfigEntity) (list : List AlertConfigEntity)
    → IsNewestFirst list
    → IsNewestFirst (insert_newest a list)
unfolding insert_newest
insert_newest-IsNewestFirst a [] h = (tt, tt)
insert_newest-IsNewestFirst a (b ∷ list) (p, h) =
    elim (Bool-cases (ltb a.created_at b.created_at)) [
      | inl e ↦ rw e (
        IsUntil-insert_newest b.created_at a list (ground arith) p,
        insert_newest-IsNewestFirst a list h,
      )
      | inr e ↦
          let le : b.created_at ≤ a.created_at = ground arith in
          rw e ((le, IsUntil-mono b.created_at a.created_at list le p), (p, h))
    ]

newest_first-IsNewestFirst : (list : List AlertConfigEntity) → IsNewestFirst (newest_first list)
unfolding newest_first
newest_first-IsNewestFirst [] = tt
newest_first-IsNewestFirst (a ∷ list) =
    insert_newest-IsNewestFirst a (newest_first list) (newest_first-IsNewestFirst list)

all_pages-newest_first :
    (user : String) (o : ListOptions) (m : Table)
    → all_pages user o m ≡ newest_first (selected user o m)
unfolding find_by_user_id Repository.find_by_user_id
all_pages-newest_first user o m =
    let size = limit_of o.limit in
    let rows = newest_first (selected user o m) in
    let n = (find_by_user_id user o m).total_pages in
    let first : 0 ≡ zero * size = omega arith in
    let total : length rows
        ≡ length (filter (selects user o.is_active (truthy o.collection_id)) (alerts m)) =
      length-newest_first (selected user o m)
      ∙ ap (λ p. length (filter p (alerts m)))
          (sym (selects-truthy user o.is_active o.collection_id)) in
    let fits : length rows ≤ n * size =
      subst (λ k. k ≤ n * size) (sym total) (total_pages-enough _ size (limit_of_pos o.limit)) in
    pages-window user o n zero m
    ∙ ap (λ k. take (n * size) (drop k rows)) (sym first)
    ∙ take-all (n * size) rows fits

-- While the table stays as it is, the pages of a user's alerts, from the first to the last that the
-- answer counts, put together are the user's alerts that the options select, counted by any test:
-- none is missing and none comes twice, whatever the limit is. They come the newest first.
pub all_pages-IsNewestFirst :
    (user : String) (o : ListOptions) (m : Table) (q : AlertConfigEntity → Bool)
    → IsNewestFirst (all_pages user o m)
      × (length (filter q (all_pages user o m)) ≡ length (filter q (selected user o m)))
all_pages-IsNewestFirst user o m q =
    let e = all_pages-newest_first user o m in
    (
      subst IsNewestFirst (sym e) (newest_first-IsNewestFirst (selected user o m)),
      ap (λ l. length (filter q l)) e ∙ filter-newest_first q (selected user o m),
    )
