-- ===== src/Metadata/Enrichment/Traits.antt =====
-- The traits that the enrichment stores, as the alerts read them.
use v2_xrpl_tools.Prelude.{
  ◌≡◌, ◌≢◌, refl, some, List, [], ◌∷◌, String, str_eq, eq_iff, Bool-cases, Option-cases, inl, inr,
  arith, subst, sym,
}
use v2_xrpl_tools.Prelude.Outcome.{done}
use v2_xrpl_tools.Prelude.Json.{Json, object, field, closed, field_of, lookup, when_truthy}
use v2_xrpl_tools.Prelude.Words.{words}
use v2_xrpl_tools.Alert.Data.{TraitFilter}
use v2_xrpl_tools.Alert.Traits.{Runtime, evaluate_trait_filters, find_trait_value, no_match}
use v2_xrpl_tools.Metadata.Enrichment.{stored_traits}

stored-object :
    (m traits : Json)
    → stored_traits m ≡ some traits
    → (a : Json) × (object (field "attributes" a closed) ≡ traits)
unfolding stored_traits
stored-object m traits h = elim (Option-cases (when_truthy (field_of "attributes" (some m)))) [
  | inl e ↦ grind arith
  | inr (a, e) ↦ (a, grind arith)
]

wrapped_missing :
    (runtime : Runtime) (a : Json) (f : TraitFilter) (fs : List TraitFilter) (reasons : List String)
    → f.trait_type ≢ "attributes"
    → evaluate_trait_filters runtime (f ∷ fs) reasons (object (field "attributes" a closed))
      ≡ done (no_match (words ("NFT does not have trait: " ∷ f.trait_type ∷ [])))
unfolding evaluate_trait_filters find_trait_value lookup
wrapped_missing runtime a f fs reasons d = elim (Bool-cases (str_eq "attributes" f.trait_type)) [
  | inl e ↦ absurd (d (sym ((eq_iff "attributes" f.trait_type).0 e)))
  | inr e ↦ rw e refl
]

-- The traits that the enrichment stores pass no trait filter: whatever attributes the metadata has, the
-- filters of an alert find none of them, unless a filter asks for a trait named "attributes".
pub stored_traits-unmatched :
    (runtime : Runtime) (m traits : Json) (f : TraitFilter) (fs : List TraitFilter)
    (reasons : List String)
    → stored_traits m ≡ some traits
    → f.trait_type ≢ "attributes"
    → evaluate_trait_filters runtime (f ∷ fs) reasons traits
      ≡ done (no_match (words ("NFT does not have trait: " ∷ f.trait_type ∷ [])))
stored_traits-unmatched runtime m traits f fs reasons h d =
    let (a, same) = stored-object m traits h in
    subst
      (λ t.
        evaluate_trait_filters runtime (f ∷ fs) reasons t
        ≡ done (no_match (words ("NFT does not have trait: " ∷ f.trait_type ∷ []))))
      same (wrapped_missing runtime a f fs reasons d)
