-- ===== src/Transaction/Batch/Lookup.antt =====
-- What `processAlertsAsync` finds among rows with smaller or greater keys than those it looks up.
use mathlib.Core.List.{append-nil}
use v2_xrpl_tools.Prelude.{
  ℕ, ◌≤◌, ◌<◌, ◌≡◌, refl, ap, ◌∙◌, Bool, true, false, List, [], ◌∷◌, ◌++◌, filter, any, arith, All,
  ◌==◌,
}
use v2_xrpl_tools.Transaction.Batch.{process_alerts_async}
use v2_xrpl_tools.Transaction.Tables.{NftActivityEntity}

module _ {ℓ κ} {A : Type ℓ} (P Q : A → Type κ) where
  pub All-weaken : ((x : A) → P x → Q x) → (xs : List A) → All P xs → All Q xs
  All-weaken f [] h = tt
  All-weaken f (x ∷ xs) (p, h) = (f x p, All-weaken f xs h)

module _ {ℓ} {A : Type ℓ} (p : A → Bool) where
  filter-append : (xs ys : List A) → filter p (xs ++ ys) ≡ filter p xs ++ filter p ys
  filter-append [] ys = refl
  filter-append (x ∷ xs) ys = ground (arith, filter-append xs ys)

  filter-nothing : (xs : List A) → All (λ x. p x ≡ false) xs → filter p xs ≡ []
  filter-nothing [] h = refl
  filter-nothing (x ∷ xs) (e, h) = ground (arith, filter-nothing xs h)

  filter-everything : (xs : List A) → All (λ x. p x ≡ true) xs → filter p xs ≡ xs
  filter-everything [] h = refl
  filter-everything (x ∷ xs) (e, h) = ground (arith, filter-everything xs h)

abbrev has_id : List NftActivityEntity → NftActivityEntity → Bool
has_id call row = any (λ a. a.id == row.id) call

-- all keys from `low` on, and all keys below `high`
abbrev pub IsFrom : ℕ → List NftActivityEntity → Type 0
IsFrom low = All (λ a. low ≤ a.id)

abbrev pub IsBelow : ℕ → List NftActivityEntity → Type 0
IsBelow high = All (λ a. a.id < high)

low_unknown :
    (low : ℕ) (call : List NftActivityEntity) (row : NftActivityEntity)
    → IsFrom low call
    → row.id < low
    → has_id call row ≡ false
low_unknown low [] row h k = refl
low_unknown low (a ∷ call) row (p, h) k = ground (arith, low_unknown low call row h k)

high_unknown :
    (high : ℕ) (call : List NftActivityEntity) (row : NftActivityEntity)
    → IsBelow high call
    → high ≤ row.id
    → has_id call row ≡ false
high_unknown high [] row h k = refl
high_unknown high (a ∷ call) row (p, h) k = ground (arith, high_unknown high call row h k)

own_ids : (call : List NftActivityEntity) → All (λ row. has_id call row ≡ true) call
own_ids [] = tt
own_ids (a ∷ call) = (
  ground arith,
  All-weaken (λ row. has_id call row ≡ true) (λ row. has_id (a ∷ call) row ≡ true)
      (λ row h. ground (arith, h)) call (own_ids call),
)

-- Rows with smaller keys than those of the call are not found, nor are those with greater ones.
pub found_below :
    (low : ℕ) (rows call : List NftActivityEntity)
    → IsBelow low rows
    → IsFrom low call
    → process_alerts_async rows call ≡ []
unfolding process_alerts_async
found_below low rows call h k = filter-nothing (has_id call) rows (
    All-weaken (λ r. r.id < low) (λ r. has_id call r ≡ false) (λ r b. low_unknown low call r k b)
      rows h)

found_above :
    (high : ℕ) (rows call : List NftActivityEntity)
    → IsFrom high rows
    → IsBelow high call
    → process_alerts_async rows call ≡ []
unfolding process_alerts_async
found_above high rows call h k = filter-nothing (has_id call) rows (
    All-weaken (λ r. high ≤ r.id) (λ r. has_id call r ≡ false) (λ r b. high_unknown high call r k b)
      rows h)

pub found_between :
    (low high : ℕ) (older call newer : List NftActivityEntity)
    → IsBelow low older
    → IsFrom low call
    → IsBelow high call
    → IsFrom high newer
    → process_alerts_async ((older ++ call) ++ newer) call ≡ call
unfolding process_alerts_async
found_between low high older call newer o f b n =
    let p = has_id call in
    filter-append p (older ++ call) newer
    ∙ ap (λ l. l ++ filter p newer)
        (filter-append p older call
          ∙ ap (λ l. l ++ filter p call) (found_below low older call o f)
          ∙ filter-everything p call (own_ids call))
    ∙ ap (λ l. call ++ l) (found_above high newer call n b)
    ∙ append-nil call
