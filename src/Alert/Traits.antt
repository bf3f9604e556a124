-- ===== src/Alert/Traits.antt =====
-- The trait filters of alerts: `evaluateTraitFilters`, `findTraitValue` and `evaluateTraitFilter` of
-- src/features/alerts/services/alert-matching.service.ts. What the runtime does with numbers and
-- letters is a parameter; a property of a prototype is not a trait.
use v2_xrpl_tools.Prelude.{
  Bool, true, false, not, ◌||◌, Option, none, some, List, [], ◌∷◌, ◌++◌, String, str_eq,
  if◌then◌else◌,
}
use v2_xrpl_tools.Prelude.Outcome.{Outcome, done, raised}
use v2_xrpl_tools.Prelude.Words.{words}
use v2_xrpl_tools.Prelude.Json.{lookup}
use v2_xrpl_tools.Alert.Data.{TraitFilter}
use v2_xrpl_tools.Prelude.Json.{
  Json, null, boolean, number, text, array, object, Elements, end, element,
}

-- `Number(text)`, none for NaN; `<` on numbers; `toLowerCase`; `String` of an array or object;
-- whether the one text stands in the other
pub record Runtime : Type 0 where
  pub number_of : String → Option String
  pub less : String → String → Bool
  pub lower : String → String
  pub shown : Json → String
  pub includes : String → String → Bool

-- `value.name`: nothing can be read from null.
unfoldable pub property : String → Json → Outcome (Option Json)
unfolding lookup
property k null = raised "Cannot read properties of null"
property k (object f) = done (lookup k f)
property k (boolean b) = done none
property k (number n) = done none
property k (text s) = done none
property k (array e) = done none

unfoldable pub is_text : String → Option Json → Bool
is_text s (some (text t)) = str_eq t s
is_text s _ = false

-- `t.trait_type === type || t.type === type || t.name === type`
unfoldable pub names_trait : String → Json → Bool
unfolding is_text lookup
names_trait type (object f) =
    is_text type (lookup "trait_type" f)
    || (is_text type (lookup "type" f) || is_text type (lookup "name" f))
names_trait type _ = false

unfoldable pub find_trait : String → Elements → Outcome (Option Json)
unfolding names_trait property
find_trait type end = done none
find_trait type (element null e) = raised "Cannot read properties of null"
find_trait type (element t e) =
    let rest = find_trait type e in if names_trait type t then property "value" t else rest

unfoldable pub find_trait_value : Json → String → Outcome (Option Json)
unfolding find_trait lookup
find_trait_value (array e) type = find_trait type e
find_trait_value (object f) type = done (lookup type f)
find_trait_value _ type = done (some null)

abbrev pub is_missing : Option Json → Bool
is_missing none = true
is_missing (some null) = true
is_missing (some _) = false

pub record FilterResult : Type 0 where
  pub matched : Bool
  pub reasons : List String

unfoldable pub no_match : String → FilterResult
no_match reason = record { matched = false; reasons = reason ∷ [] }

unfoldable pub is_match : String → FilterResult
is_match reason = record { matched = true; reasons = reason ∷ [] }

abbrev pub value_or_null : Option Json → Json
value_or_null none = null
value_or_null (some v) = v

module _ (runtime : Runtime) where
  unfoldable pub text_of : Json → String
  text_of null = "null"
  text_of (boolean b) = if b then "true" else "false"
  text_of (number n) = n
  text_of (text s) = s
  text_of (array e) = runtime.shown (array e)
  text_of (object f) = runtime.shown (object f)

  -- `Number(value)`
  unfoldable pub number_value : Json → Option String
  unfolding text_of
  number_value null = some "0"
  number_value (boolean b) = if b then some "1" else some "0"
  number_value (number n) = some n
  number_value (text s) = runtime.number_of s
  number_value (array e) = runtime.number_of (runtime.shown (array e))
  number_value (object f) = runtime.number_of (runtime.shown (object f))

  unfoldable pub same_number : Option String → Option String → Bool
  same_number (some m) (some n) = str_eq m n
  same_number _ _ = false

  -- `==` between a trait that is not null and a filter's value, a text or a number
  unfoldable pub loosely_equal : Json → Json → Bool
  unfolding same_number number_value text_of
  loosely_equal (text s) (text t) = str_eq s t
  loosely_equal (array e) (text t) = str_eq (text_of (array e)) t
  loosely_equal (object f) (text t) = str_eq (text_of (object f)) t
  loosely_equal v w = same_number (number_value v) (number_value w)

  -- the three messages of a comparison of numbers
  unfoldable pub compare_numbers :
      TraitFilter
      → Json
      → String
      → (String → String → Bool)
      → Option String
      → Option String
      → FilterResult
  unfolding no_match is_match text_of
  compare_numbers f v sign test (some a) (some b) =
      if test a b
      then is_match (words ("Trait " ∷ f.trait_type ∷ " (" ∷ a ∷ ") " ∷ sign ∷ " " ∷ b ∷ []))
      else no_match (words ("Trait " ∷ f.trait_type ∷ " (" ∷ a ∷ ") is not " ∷ sign ∷ " " ∷ b ∷ []))
  compare_numbers f v sign test _ _ = no_match (
      words (
        "Cannot compare non-numeric values: "
        ∷ text_of v
        ∷ " "
        ∷ sign
        ∷ " "
        ∷ text_of f.value
        ∷ []))

  unfoldable pub evaluate_trait_filter : TraitFilter → Json → FilterResult
  unfolding loosely_equal number_value text_of no_match is_match compare_numbers
  evaluate_trait_filter f v =
      let t = f.trait_type in
      let w = text_of f.value in
      if str_eq f.operator "equals"
      then if loosely_equal v f.value
        then is_match (words ("Trait " ∷ t ∷ " equals " ∷ w ∷ []))
        else no_match (words ("Trait " ∷ t ∷ " (" ∷ text_of v ∷ ") does not equal " ∷ w ∷ []))
      else if str_eq f.operator "not_equals"
      then if not (loosely_equal v f.value)
        then is_match (words ("Trait " ∷ t ∷ " does not equal " ∷ w ∷ []))
        else no_match
            (words ("Trait " ∷ t ∷ " (" ∷ text_of v ∷ ") equals " ∷ w ∷ " (should not)" ∷ []))
      else if str_eq f.operator "greater_than"
      then compare_numbers f v ">" (λ a b. runtime.less b a) (number_value v) (number_value f.value)
      else if str_eq f.operator "less_than"
      then compare_numbers f v "<" runtime.less (number_value v) (number_value f.value)
      else if str_eq f.operator "contains"
      then if runtime.includes (runtime.lower (text_of v)) (runtime.lower w)
        then is_match (words ("Trait " ∷ t ∷ " contains \"" ∷ w ∷ "\"" ∷ []))
        else no_match
            (words ("Trait " ∷ t ∷ " (" ∷ text_of v ∷ ") does not contain \"" ∷ w ∷ "\"" ∷ []))
      else no_match (words ("Unknown operator: " ∷ f.operator ∷ []))

  unfoldable pub evaluate_trait_filters :
      List TraitFilter → List String → Json → Outcome FilterResult
  unfolding find_trait_value evaluate_trait_filter no_match
  evaluate_trait_filters [] reasons traits = done (record { matched = true; reasons = reasons })
  evaluate_trait_filters (f ∷ fs) reasons traits = elim (find_trait_value traits f.trait_type) [
    | raised e ↦ raised e
    | done found ↦
        if is_missing found
        then done (no_match (words ("NFT does not have trait: " ∷ f.trait_type ∷ [])))
        else let r = evaluate_trait_filter f (value_or_null found) in
          if r.matched
          then evaluate_trait_filters fs (reasons ++ r.reasons) traits
          else done (record { matched = false; reasons = r.reasons })
  ]
