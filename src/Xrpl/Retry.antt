-- ===== src/Xrpl/Retry.antt =====
-- src/modules/xrpl-connection/utils/retry.util.ts: `retry`. The function's answer to each attempt is
-- handed in; the result comes with the waits before the further attempts.
use v2_xrpl_tools.Prelude.{
  ℕ, zero, suc, ◌+◌, ◌*◌, ◌^◌, min, ◌≡◌, ◌≤◌, ◌<◌, refl, List, [], ◌∷◌, String, length, All, arith,
  ap, ◌∙◌,
}
use v2_xrpl_tools.Prelude.Outcome.{Outcome, done, raised}

pub record RetryOptions : Type 0 where
  pub retries : ℕ
  pub min_timeout : ℕ
  pub max_timeout : ℕ
  pub factor : ℕ

unfoldable pub timeout_of : RetryOptions → ℕ → ℕ
timeout_of o attempt = min (o.min_timeout * o.factor ^ attempt) o.max_timeout

-- the loop with the number of attempts that are left after this one
unfoldable pub retry_from {ℓ} :
    {A : Type ℓ} → RetryOptions → (ℕ → Outcome A) → ℕ → ℕ → Outcome A × List ℕ
unfolding timeout_of
retry_from o fn attempt zero = (fn attempt, [])
retry_from o fn attempt (suc left) =
    let (result, waits) = retry_from o fn (suc attempt) left in
    elim (fn attempt) [ done a ↦ (done a, []) | raised e ↦ (result, timeout_of o attempt ∷ waits) ]

unfoldable pub retry {ℓ} : {A : Type ℓ} → RetryOptions → (ℕ → Outcome A) → Outcome A × List ℕ
unfolding retry_from
retry o fn = retry_from o fn 0 o.retries

module _ {ℓ} {A : Type ℓ} (o : RetryOptions) (fn : ℕ → Outcome A) where
  -- what the attempts say: the first success, or the last error
  abbrev pub IsFirst : ℕ → Outcome A → ℕ → Type ℓ
  IsFirst attempt result waits =
      (fn (attempt + waits) ≡ result)
      × ((i : ℕ) → i < waits → (e : String) × (fn (attempt + i) ≡ raised e))

  abbrev IsRetried : ℕ → ℕ → Outcome A × List ℕ → Type ℓ
  IsRetried attempt left r =
      IsFirst attempt r.0 (length r.1) × ((length r.1 ≤ left) × All (λ w. w ≤ o.max_timeout) r.1)

  earlier :
      (attempt w : ℕ) (e : String)
      → fn attempt ≡ raised e
      → ((i : ℕ) → i < w → (m : String) × (fn (suc attempt + i) ≡ raised m))
      → (i : ℕ) → i < suc w
      → (m : String) × (fn (attempt + i) ≡ raised m)
  earlier attempt w e h k zero b = (e, ap fn (omega arith) ∙ h)
  earlier attempt w e h k (suc i) b =
      let (m, thrown) = k i (omega arith) in (m, ap fn (omega arith) ∙ thrown)

  retry_from-IsRetried : (attempt left : ℕ) → IsRetried attempt left (retry_from o fn attempt left)
  unfolding retry_from
  retry_from-IsRetried attempt zero =
      ((ap fn (omega arith), λ i h. absurd (omega arith)), (omega arith, tt))
  retry_from-IsRetried attempt (suc left) =
      go (fn attempt) refl (retry_from o fn (suc attempt) left)
        (retry_from-IsRetried (suc attempt) left)
    where
      go :
          (x : Outcome A)
          → fn attempt ≡ x
          → (r : Outcome A × List ℕ) → IsRetried (suc attempt) left r
          → IsRetried attempt
              (suc left)
              (elim x [ done a ↦ (done a, []) | raised e ↦ (r.0, timeout_of o attempt ∷ r.1) ])
      go (done a) e r h =
          ((ap fn (omega arith) ∙ e, λ i b. absurd (omega arith)), (omega arith, tt))
      go (raised e) q r ((last, thrown), (bound, waits)) = (
        (ap fn (omega arith) ∙ last, earlier attempt (length r.1) e q thrown),
        (omega arith, (unfold timeout_of in omega arith, waits)),
      )

  -- A retried call ends with the answer of its last attempt, after at most as many waits as retries
  -- are allowed; each attempt before the last one threw, and no wait is longer than the maximum.
  pub retry-IsFirst :
      let (result, waits) = retry o fn in
      IsFirst 0 result (length waits)
      × ((length waits ≤ o.retries) × All (λ w. w ≤ o.max_timeout) waits)
  unfolding retry
  retry-IsFirst = retry_from-IsRetried 0 o.retries

  retry_from-stop :
      (attempt left : ℕ) (e : String)
      → (retry_from o fn attempt left).0 ≡ raised e
      → length (retry_from o fn attempt left).1 ≡ left
  unfolding retry_from
  retry_from-stop attempt zero e h = refl
  retry_from-stop attempt (suc left) e h =
      go (fn attempt) (retry_from o fn (suc attempt) left) (retry_from-stop (suc attempt) left e) h
    where
      go :
          (x : Outcome A) (r : Outcome A × List ℕ)
          → (r.0 ≡ raised e → length r.1 ≡ left)
          → (elim x as (λ y. Outcome A × List ℕ) [
            | done a ↦ (done a, [])
            | raised m ↦ (r.0, timeout_of o attempt ∷ r.1)
          ]).0
            ≡ raised e
          → length
              (elim x as (λ y. Outcome A × List ℕ) [
                | done a ↦ (done a, [])
                | raised m ↦ (r.0, timeout_of o attempt ∷ r.1)
              ]).1
            ≡ suc left
      go (done a) r k q = absurd (ground (arith, q))
      go (raised m) r k q = ap suc (k q)

  -- A retried call throws only after all of its retries.
  pub retry-raised : (e : String) → (retry o fn).0 ≡ raised e → length (retry o fn).1 ≡ o.retries
  unfolding retry
  retry-raised e h = retry_from-stop 0 o.retries e h
