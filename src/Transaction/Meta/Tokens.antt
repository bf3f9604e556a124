-- ===== src/Transaction/Meta/Tokens.antt =====
-- The token that a change of a page of tokens reveals.
use v2_xrpl_tools.Prelude.{
  suc, refl, ◌<◌, ◌≡◌, ◌⊎◌, inl, inr, true, false, Option, none, some, List, String, eq_iff, ltb,
  ltb→lt, arith, Bool-cases, subst,
}
use v2_xrpl_tools.Prelude.Outcome.{done, ◌>>=◌, outcome_cases}
use v2_xrpl_tools.Prelude.Json.{Json, array, Elements, end, element, field_of}
use v2_xrpl_tools.Transaction.Meta.{
  tokens, size, token_id, token_ids, has, first_missing, modified_token,
}

-- some token of the list has this key
abbrev pub Holds : String → Elements → Type 0
Holds s end = ⊥
Holds s (element t e) = (token_id t ≡ done (some s)) ⊎ Holds s e

token_ids-Holds :
    (s : String) (e : Elements) (ids : List String)
    → token_ids e ≡ done ids
    → Holds s e
    → has s ids ≡ true
unfolding token_ids
token_ids-Holds s end ids h m = elim m [ ]
token_ids-Holds s (element t e) ids h (inl m) = grind (arith, eq_iff s s)
token_ids-Holds s (element t e) ids h (inr m) = grind (arith, token_ids-Holds s e)

first_missing-Holds :
    (ids : List String) (e : Elements) (s : String)
    → first_missing ids e ≡ done (some s)
    → Holds s e × (has s ids ≡ false)
unfolding first_missing
first_missing-Holds ids end s h = grind arith
first_missing-Holds ids (element t e) s h = elim (outcome_cases (token_id t)) [
  | inl (m, f) ↦ grind arith
  | inr (none, f) ↦ let (i, j) = first_missing-Holds ids e s (grind arith) in (inr i, j)
  | inr (some k, f) ↦ elim (Bool-cases (has k ids)) [
    | inl b ↦ let (i, j) = first_missing-Holds ids e s (grind arith) in (inr i, j)
    | inr b ↦
        let same : k ≡ s = grind arith in
        (
          inl (subst (λ x. token_id t ≡ done (some x)) same f),
          subst (λ x. has x ids ≡ false) same b,
        )
  ]
]

missing :
    (old new : Elements) (s : String)
    → (token_ids old >>= λ ids. first_missing ids new) ≡ done (some s)
    → Holds s new × ¬ Holds s old
missing old new s h = elim (outcome_cases (token_ids old)) [
  | inl (m, f) ↦ grind arith
  | inr (ids, f) ↦
      let (i, j) = first_missing-Holds ids new s (grind arith) in
      (i, λ k. let b = token_ids-Holds s old ids f k in grind arith)
]

-- Where a changed page that names its tokens before and after the change reveals a token, the page either
-- gained or lost it: it is in the longer of the two lists, and not in the other. So a token that was there
-- before and after is not reported.
pub modified_token-changed :
    (page : Option Json) (previous final : Elements) (s : String)
    → field_of "NFTokens" (field_of "PreviousFields" page) ≡ some (array previous)
    → field_of "NFTokens" (field_of "FinalFields" page) ≡ some (array final)
    → modified_token page ≡ done (some s)
    → ((size previous < size final) × (Holds s final × ¬ Holds s previous))
      ⊎ ((size final < size previous) × (Holds s previous × ¬ Holds s final))
unfolding modified_token tokens
modified_token-changed page previous final s p f h =
    elim (Bool-cases (ltb (size previous) (size final))) [
      | inl b ↦ inl (ltb→lt _ _ b, missing previous final s (grind arith))
      | inr b ↦ elim (Bool-cases (ltb (size final) (size previous))) [
        | inl c ↦ inr (ltb→lt _ _ c, missing final previous s (grind arith))
        | inr c ↦ grind arith
      ]
    ]

-- A page that does not name its tokens before the change, since they stayed as they were, is read as one
-- that had none: its first token is reported.
pub modified_token-unlisted :
    (page : Option Json) (t : Json) (rest : Elements) (s : String)
    → field_of "NFTokens" (field_of "PreviousFields" page) ≡ none
    → field_of "NFTokens" (field_of "FinalFields" page) ≡ some (array (element t rest))
    → token_id t ≡ done (some s)
    → modified_token page ≡ done (some s)
unfolding modified_token tokens token_ids first_missing
modified_token-unlisted page t rest s p f k =
    let more : ltb 0 (suc (size rest)) ≡ true = ground arith in
    rw (modified_token, p, f, tokens, more, token_ids, first_missing, k) refl
