-- ===== src/Metadata/Normalize/Attributes.antt =====
-- The attributes of normalized metadata.
use v2_xrpl_tools.Prelude.{
  ◌≡◌, ◌⊎◌, inl, inr, refl, true, false, Option, none, some, String, arith, Option-cases, subst, ap,
  ◌∙◌,
}
use v2_xrpl_tools.Prelude.Outcome.{done, outcome_cases}
use v2_xrpl_tools.Prelude.Json.{
  Json, null, boolean, number, text, array, object, Elements, end, element, Fields, field, closed,
  lookup, field_of, or_else, when_truthy,
}
use v2_xrpl_tools.Metadata.Normalize.{
  attribute_value, normalize_attribute, attribute_of, element_if, normalize_elements,
  normalize_attributes,
}

-- a text for the type, and a text or a number for the value
abbrev pub IsAttribute : Json → Type 0
IsAttribute a =
    ((t : String) × (field_of "trait_type" (some a) ≡ some (text t)))
    × (((v : String) × (field_of "value" (some a) ≡ some (text v)))
        ⊎ ((v : String) × (field_of "value" (some a) ≡ some (number v))))

abbrev pub AreAttributes : Elements → Type 0
AreAttributes end = Unit {0}
AreAttributes (element a e) = IsAttribute a × AreAttributes e

attribute_value-cases :
    (v w : Json)
    → attribute_value v ≡ some w
    → ((s : String) × (w ≡ text s)) ⊎ ((s : String) × (w ≡ number s))
unfolding attribute_value
attribute_value-cases null w h = grind arith
attribute_value-cases (boolean true) w h = inl ("true", grind arith)
attribute_value-cases (boolean false) w h = inl ("false", grind arith)
attribute_value-cases (number n) w h = inr (n, grind arith)
attribute_value-cases (text s) w h = inl (s, grind arith)
attribute_value-cases (array e) w h = grind arith
attribute_value-cases (object f) w h = grind arith

nothing : (out : Elements) → done end ≡ done out → AreAttributes out
nothing end h = tt
nothing (element a e) h = grind arith

clean-IsAttribute :
    (t : String) (v w : Json) (rest : Fields)
    → attribute_value v ≡ some w
    → IsAttribute (object (field "trait_type" (text t) (field "value" w rest)))
unfolding field_of lookup
clean-IsAttribute t v w rest h = elim (attribute_value-cases v w h) [
  | inl (s, e) ↦ ((t, refl), inl (s, ap some e))
  | inr (s, e) ↦ ((t, refl), inr (s, ap some e))
]

module _ (text_of : Json → String) where
  normalize_attribute-IsAttribute :
      (a b : Json) → normalize_attribute text_of a ≡ some b → IsAttribute b
  unfolding normalize_attribute
  normalize_attribute-IsAttribute a b h =
      elim (Option-cases (
        when_truthy (
          or_else (field_of "trait_type" (some a))
            (or_else (field_of "type" (some a)) (field_of "name" (some a)))))) [
              | inl e ↦ grind arith
              | inr (type, e) ↦ elim (Option-cases (field_of "value" (some a))) [
                | inl f ↦ grind arith
                | inr (value, f) ↦ elim (Option-cases (attribute_value value)) [
                  | inl g ↦ grind arith
                  | inr (kept, g) ↦
                      subst IsAttribute
                        {x = object (
                          field "trait_type" (text (text_of type)) (
                            field "value" kept
                              (elim (when_truthy (field_of "display_type" (some a))) [
                                | none ↦ closed
                                | some d ↦ field "display_type" (text (text_of d)) closed
                              ])))}
                        (grind arith) (clean-IsAttribute (text_of type) value kept _ g)
                ]
              ]
            ]

  attribute_of-IsAttribute : (a b : Json) → attribute_of text_of a ≡ done (some b) → IsAttribute b
  unfolding attribute_of
  attribute_of-IsAttribute null b h = grind arith
  attribute_of-IsAttribute (boolean x) b h =
      normalize_attribute-IsAttribute (boolean x) b (grind arith)
  attribute_of-IsAttribute (number x) b h =
      normalize_attribute-IsAttribute (number x) b (grind arith)
  attribute_of-IsAttribute (text x) b h = normalize_attribute-IsAttribute (text x) b (grind arith)
  attribute_of-IsAttribute (array x) b h = normalize_attribute-IsAttribute (array x) b (grind arith)
  attribute_of-IsAttribute (object x) b h =
      normalize_attribute-IsAttribute (object x) b (grind arith)

  element_if-AreAttributes :
      (o : Option Json) (e : Elements)
      → ((b : Json) → o ≡ some b → IsAttribute b)
      → AreAttributes e
      → AreAttributes (element_if o e)
  element_if-AreAttributes none e h k = k
  element_if-AreAttributes (some b) e h k = (h b refl, k)

  normalize_elements-AreAttributes :
      (e out : Elements) → normalize_elements text_of e ≡ done out → AreAttributes out
  unfolding normalize_elements
  normalize_elements-AreAttributes end out h = nothing out h
  normalize_elements-AreAttributes (element a e) out h =
      elim (outcome_cases (attribute_of text_of a)) [
        | inl (m, f) ↦ grind arith
        | inr (o, f) ↦ elim (outcome_cases (normalize_elements text_of e)) [
          | inl (m, g) ↦ grind arith
          | inr (r, g) ↦
              let same : element_if o r ≡ out = grind arith in
              subst AreAttributes same (
                element_if-AreAttributes o r (λ b q. attribute_of-IsAttribute a b (f ∙ ap done q))
                  (normalize_elements-AreAttributes e r g))
        ]
      ]

  -- Whatever attributes come in, those that come out have a text as their type, and a text or a number as
  -- their value; unless one of them is null, which throws, each of them does.
  pub normalize_attributes-AreAttributes :
      (attributes : Option Json) (out : Elements)
      → normalize_attributes text_of attributes ≡ done out
      → AreAttributes out
  unfolding normalize_attributes
  normalize_attributes-AreAttributes none out h = nothing out h
  normalize_attributes-AreAttributes (some (array e)) out h =
      normalize_elements-AreAttributes e out h
  normalize_attributes-AreAttributes (some null) out h = nothing out h
  normalize_attributes-AreAttributes (some (boolean b)) out h = nothing out h
  normalize_attributes-AreAttributes (some (number b)) out h = nothing out h
  normalize_attributes-AreAttributes (some (text b)) out h = nothing out h
  normalize_attributes-AreAttributes (some (object b)) out h = nothing out h
