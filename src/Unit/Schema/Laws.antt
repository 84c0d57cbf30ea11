-- ===== src/Unit/Schema/Laws.antt =====
-- What the validation of a value (pkg/unit/schema.go) accepts.
use ai_inference_managed_by.Base.{
  ℕ, suc, String, Bool, true, ◌≡◌, refl, ◌↔◌, inl, inr, List, [], ◌∷◌, Option, none, some, All,
  Option-cases, arith,
}
use ai_inference_managed_by.Base.Map.{is_some}
use ai_inference_managed_by.Workflow.Types.{Value, Items, Fields, array, object, nil, cons}
use ai_inference_managed_by.Workflow.Resolver.{get_field}
use ai_inference_managed_by.Unit.Schema.{
  Schema, ItemSchema, Properties, schema, items_of, no_property, property, Limits, missing_field,
  validate_schema, validate_items, validate_fields,
}

-- What the items of an array, and the fields of an object, have to be.
abbrev pub AllItems : (Value → Type 0) → Items → Type 0
AllItems P nil = Unit
AllItems P (cons v vs) = P v × AllItems P vs

abbrev pub HasFields : List String → Fields → Type 0
HasFields names m = All (λ k. is_some (get_field k m) ≡ true) names

-- Every field of the object that a property names satisfies the property's schema.
abbrev pub FitFields : (Schema → Value → Type 0) → Properties → Fields → Type 0
FitFields P no_property m = Unit
FitFields P (property name s ps) m =
    ((v : Value) → get_field name m ≡ some v → P s v) × FitFields P ps m

missing_field-HasFields :
    (names : List String) (m : Fields) → missing_field names m ≡ none → HasFields names m
unfolding missing_field
missing_field-HasFields [] m h = tt
missing_field-HasFields (k ∷ names) m h =
    (ground arith, missing_field-HasFields names m (ground arith))

HasFields-missing_field :
    (names : List String) (m : Fields) → HasFields names m → missing_field names m ≡ none
unfolding missing_field
HasFields-missing_field [] m h = refl
HasFields-missing_field (k ∷ names) m h = ground (arith, h.0, HasFields-missing_field names m h.1)

module _ (deep_equal : Value → Value → Bool) (byte_length : String → ℕ)
    (matches : String → String → Option Bool) where
  -- A schema accepts a value.
  abbrev pub Accepts : Schema → Value → Type 0
  Accepts s v = validate_schema deep_equal byte_length matches s v ≡ none

  items-all :
      (s : Schema) (i : ℕ) (vs : Items)
      → validate_items deep_equal byte_length matches (items_of s) i vs ≡ none
      → AllItems (Accepts s) vs
  unfolding validate_schema
  items-all s i nil h = tt
  items-all s i (cons v vs) h = (ground arith, items-all s (suc i) vs (ground arith))

  all-items :
      (s : Schema) (i : ℕ) (vs : Items)
      → AllItems (Accepts s) vs
      → validate_items deep_equal byte_length matches (items_of s) i vs ≡ none
  unfolding validate_schema
  all-items s i nil h = refl
  all-items s i (cons v vs) h = ground (arith, h.0, all-items s (suc i) vs h.1)

  fields-fit :
      (ps : Properties) (m : Fields)
      → validate_fields deep_equal byte_length matches ps m ≡ none
      → FitFields Accepts ps m
  unfolding validate_schema
  fields-fit no_property m h = tt
  fields-fit (property name s ps) m h =
      ((λ v found. ground (arith, found)), fields-fit ps m (ground arith))

  fit-fields :
      (ps : Properties) (m : Fields)
      → FitFields Accepts ps m
      → validate_fields deep_equal byte_length matches ps m ≡ none
  unfolding validate_schema
  fit-fields no_property m h = refl
  fit-fields (property name s ps) m h = elim (Option-cases (get_field name m)) [
    | inl e ↦ ground (arith, e, fit-fields ps m h.1)
    | inr (v, e) ↦ ground (arith, e, h.0 v e, fit-fields ps m h.1)
  ]

  -- A schema of objects accepts an object exactly when it has every required field, and each field
  -- that a property names is accepted by the property's schema; a schema of arrays accepts an array
  -- exactly when its schema of items accepts every item.
  pub validate_schema_iff :
      (l : Limits) (items : ItemSchema) (ps : Properties) (required : List String) (m : Fields)
      (s : Schema) (vs : Items)
      → (Accepts (schema "object" l items ps required) (object m)
          ↔ (HasFields required m × FitFields Accepts ps m))
        × (Accepts (schema "array" l (items_of s) ps required) (array vs) ↔ AllItems (Accepts s) vs)
  unfolding validate_schema
  validate_schema_iff l items ps required m s vs = (
    (
      (λ h. (missing_field-HasFields required m (ground arith), fields-fit ps m (ground arith))),
      λ h. ground (arith, HasFields-missing_field required m h.0, fit-fields ps m h.1),
    ),
    ((λ h. items-all s 0 vs h), λ h. all-items s 0 vs h),
  )
