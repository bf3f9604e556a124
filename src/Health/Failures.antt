-- ===== src/Health/Failures.antt =====
-- The failures that the checks from end to end count.
use v2_xrpl_tools.Prelude.{ℕ, suc, ◌≡◌, inl, inr, refl, ap, ◌∙◌, Bool, true, false, List, [], ◌∷◌}
use v2_xrpl_tools.Prelude.Outcome.{done, raised, outcome_cases}
use v2_xrpl_tools.Health.{
  EndToEndAnswers, EndToEndState, recent_transactions, failed_check,
  perform_end_to_end_health_check,
}

-- a check that throws nowhere
unfoldable pub passes : EndToEndAnswers → Bool
passes a = elim (recent_transactions a) [
  | raised e ↦ false
  | done p ↦ elim a.recent_notifications [ raised e ↦ false | done n ↦ true ]
]

abbrev pub after_checks : List EndToEndAnswers → EndToEndState → EndToEndState
after_checks [] s = s
after_checks (a ∷ rest) s = after_checks rest (perform_end_to_end_health_check a s).1

abbrev pub counted : Bool → ℕ → ℕ
counted true n = 0
counted false n = suc n

-- the failures behind the last check that passed, from a count at the start
abbrev pub failures_since : ℕ → List EndToEndAnswers → ℕ
failures_since n [] = n
failures_since n (a ∷ rest) = failures_since (counted (passes a) n) rest

count-check :
    (a : EndToEndAnswers) (s : EndToEndState)
    → (perform_end_to_end_health_check a s).1.end_to_end_failure_count
      ≡ counted (passes a) s.end_to_end_failure_count
unfolding perform_end_to_end_health_check failed_check passes
count-check a s = elim (outcome_cases (recent_transactions a)) [
  | inl (m, e) ↦ rw (perform_end_to_end_health_check, passes, e) refl
  | inr (p, e) ↦ elim (outcome_cases a.recent_notifications) [
    | inl (m, f) ↦ rw (perform_end_to_end_health_check, passes, e, f) refl
    | inr (n, f) ↦ rw (perform_end_to_end_health_check, passes, e, f) refl
  ]
]

-- After any sequence of checks from end to end the failure count is the number of the checks that failed
-- behind the last one that passed, with the count at the start where none passed.
pub failure_count-failures_since :
    (checks : List EndToEndAnswers) (s : EndToEndState)
    → (after_checks checks s).end_to_end_failure_count
      ≡ failures_since s.end_to_end_failure_count checks
failure_count-failures_since [] s = refl
failure_count-failures_since (a ∷ rest) s =
    failure_count-failures_since rest (perform_end_to_end_health_check a s).1
    ∙ ap (λ n. failures_since n rest) (count-check a s)
