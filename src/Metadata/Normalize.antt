-- ===== src/Metadata/Normalize.antt =====
-- src/features/metadata/services/nft-metadata-fetcher.service.ts: raw metadata in the standard form. The
-- keys of an object are different from each other, and the runtime's text of a value is a parameter.
pub mod Attributes
use v2_xrpl_tools.Prelude.{
  ℕ, suc, Bool, true, false, not, Option, none, some, List, [], ◌∷◌, String, str_eq, any,
  if◌then◌else◌,
}
use v2_xrpl_tools.Prelude.Decimal.{show}
use v2_xrpl_tools.Prelude.Outcome.{Outcome, done, raised, ◌>>=◌}
use v2_xrpl_tools.Prelude.Json.{
  Json, null, boolean, number, text, array, object, Elements, end, element, Fields, closed, field,
  lookup, field_of, or_else, when_truthy,
}

-- `typeof value === 'boolean' ? String(value) : value`, where the result is a text or a number
unfoldable pub attribute_value : Json → Option Json
attribute_value (boolean true) = some (text "true")
attribute_value (boolean false) = some (text "false")
attribute_value (number n) = some (number n)
attribute_value (text s) = some (text s)
attribute_value _ = none

abbrev pub optional : String → Option Json → Fields → Fields
optional k none f = f
optional k (some v) f = field k v f

abbrev pub element_if : Option Json → Elements → Elements
element_if none e = e
element_if (some a) e = element a e

abbrev pub standard_keys : List String
standard_keys =
    "name" ∷ "title" ∷ "description" ∷ "image" ∷ "image_url" ∷ "external_url" ∷ "external_link"
    ∷ "animation_url" ∷ "youtube_url" ∷ "attributes" ∷ "traits" ∷ "properties" ∷ []

-- the other fields, as they are
unfoldable pub other_fields : Fields → Fields
other_fields closed = closed
other_fields (field k v f) =
    let rest = other_fields f in
    if any (λ s. str_eq s k) standard_keys then rest else field k v rest

unfoldable indexed : ℕ → Elements → Fields
unfolding show
indexed i end = closed
indexed i (element v e) = field (show i) v (indexed (suc i) e)

-- the own properties of an object or of an array
unfoldable pub properties_of : Json → Option Fields
unfolding indexed
properties_of (object f) = some f
properties_of (array e) = some (indexed 0 e)
properties_of _ = none

abbrev pub attributes_field : Elements → Fields → Fields
attributes_field end f = f
attributes_field (element v e) f = field "attributes" (array (element v e)) f

unfoldable pub standard_fields : Fields → Elements → Fields
unfolding or_else lookup other_fields
standard_fields raw attributes =
    optional "name" (when_truthy (or_else (lookup "name" raw) (lookup "title" raw))) (
      optional "description" (when_truthy (lookup "description" raw)) (
        optional "image" (when_truthy (or_else (lookup "image" raw) (lookup "image_url" raw))) (
          optional "external_url"
            (when_truthy (or_else (lookup "external_url" raw) (lookup "external_link" raw)))
            (optional "animation_url" (when_truthy (lookup "animation_url" raw)) (
              optional "youtube_url" (when_truthy (lookup "youtube_url" raw)) (
                attributes_field attributes (
                  optional "properties" (when_truthy (lookup "properties" raw))
                    (other_fields raw))))))))

module _ (text_of : Json → String) where
  -- An attribute with its type and value, or none where it is left out.
  unfoldable pub normalize_attribute : Json → Option Json
  unfolding attribute_value or_else
  normalize_attribute attr =
      elim (when_truthy (
        or_else (field_of "trait_type" (some attr))
          (or_else (field_of "type" (some attr)) (field_of "name" (some attr))))) [
            | none ↦ none
            | some type ↦ elim (field_of "value" (some attr)) [
              | none ↦ none
              | some value ↦ elim (attribute_value value) [
                | none ↦ none
                | some kept ↦ some (
                    object (
                      field "trait_type" (text (text_of type)) (
                        field "value" kept
                          (elim (when_truthy (field_of "display_type" (some attr))) [
                            | none ↦ closed
                            | some d ↦ field "display_type" (text (text_of d)) closed
                          ]))))
              ]
            ]
          ]

  -- an attribute that is null throws
  unfoldable pub attribute_of : Json → Outcome (Option Json)
  unfolding normalize_attribute
  attribute_of null = raised "TypeError"
  attribute_of attr = done (normalize_attribute attr)

  -- `attributes.map(…).filter(…)`
  unfoldable pub normalize_elements : Elements → Outcome Elements
  unfolding attribute_of
  normalize_elements end = done end
  normalize_elements (element attr e) =
      let rest = normalize_elements e in
      attribute_of attr >>= λ o. rest >>= λ r. done (element_if o r)

  unfoldable pub normalize_attributes : Option Json → Outcome Elements
  unfolding normalize_elements
  normalize_attributes (some (array e)) = normalize_elements e
  normalize_attributes _ = done end

  unfoldable pub validate_and_normalize_metadata : Option Json → Outcome (Option Json)
  unfolding properties_of normalize_attributes standard_fields
  validate_and_normalize_metadata none = done none
  validate_and_normalize_metadata (some raw) = elim (properties_of raw) [
    | none ↦ done none
    | some f ↦
        normalize_attributes (or_else (lookup "attributes" f) (lookup "traits" f)) >>= λ attributes.
        done (some (object (standard_fields f attributes)))
  ]
